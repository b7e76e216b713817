-- ===== src/Discovery/Hwid.antt =====
-- `_format_hwid` of the enumerators: the identification of a USB device in pyserial's form.
use anyserial.Base.{ℕ, Option, none, some, [], ◌∷◌, ◌++◌}
use anyserial.Discovery.{Text}
use anyserial.Discovery.Texts.{codes, format_04x}

-- `if value: parts.append(label + value)`, with the space of the join in front.
abbrev pub part : Text → Option Text → Text
part label none = []
part label (some []) = []
part label (some (c ∷ s)) = 32 ∷ label ++ (c ∷ s)

unfoldable pub format_hwid : Option ℕ → Option ℕ → Option Text → Option Text → Option Text
unfolding format_04x
format_hwid (some vid) (some pid) serial location = some (
    codes "USB VID:PID="
    ++ format_04x vid
    ++ 58 ∷ format_04x pid
    ++ part (codes "SER=") serial
    ++ part (codes "LOCATION=") location)
format_hwid _ _ serial location = none
