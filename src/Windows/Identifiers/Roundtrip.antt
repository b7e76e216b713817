-- ===== src/Windows/Identifiers/Roundtrip.antt =====
-- The identifiers that Windows makes for USB devices and FTDI's driver for its ports, read back.
use anyserial.Base.{
  ℕ, ◌≡◌, refl, ap, ◌∙◌, ◌<◌, leb, true, false, ◌&&◌, Option, none, some, [], ◌∷◌, ◌++◌,
  if◌then◌else◌, arith,
}
use anyserial.Discovery.{Text}
use anyserial.Discovery.Texts.{codes, hex4, after_literal, after_literal-append, read_hex-hex4}
use anyserial.Windows.Identifiers.{
  backslash, has_char, segment, group_after, skip_interface, usb_serial_number, without_port_letter,
  ftdi_serial_number, vid_pid, match_usb, match_ftdibus, parse_instance_id, parse_device_ids,
  or_hardware, or_else, no_ids, ◌>>=◌,
}

vid_pid_lem :
    (before between : Text) (vid pid : ℕ) (rest : Text)
    → vid < 65536
    → pid < 65536
    → vid_pid before between (before ++ (hex4 vid ++ (between ++ (hex4 pid ++ rest))))
      ≡ some (vid, pid, rest)
unfolding vid_pid
vid_pid_lem before between vid pid rest v p =
    rw
      (
        after_literal-append before (hex4 vid ++ (between ++ (hex4 pid ++ rest))),
        read_hex-hex4 vid (between ++ (hex4 pid ++ rest)) v,
        after_literal-append between (hex4 pid ++ rest),
        read_hex-hex4 pid rest p,
      )
      refl

-- `USB\VID_xxxx&PID_xxxx\serial`
abbrev pub usb_instance : ℕ → ℕ → Text → Text
usb_instance vid pid serial =
    codes "USB\\VID_" ++ (hex4 vid ++ (codes "&PID_" ++ (hex4 pid ++ backslash ∷ serial)))

-- `FTDIBUS\VID_xxxx+PID_xxxx+serialA\0000`
abbrev pub ftdi_instance : ℕ → ℕ → Text → Text
ftdi_instance vid pid rest =
    codes "FTDIBUS\\VID_" ++ (hex4 vid ++ (codes "+PID_" ++ (hex4 pid ++ 43 ∷ rest)))

segment_lem : (s : Text) → has_char backslash s ≡ false → segment s ≡ s
unfolding segment
segment_lem [] h = refl
segment_lem (c ∷ s) h = ground (arith, segment_lem s)

segment_before :
    (s rest : Text) → has_char backslash s ≡ false → segment (s ++ backslash ∷ rest) ≡ s
unfolding segment
segment_before [] rest h = refl
segment_before (c ∷ s) rest h = ground (arith, segment_before s rest)

abbrev serial_or_none : Text → Option Text
serial_or_none s = if has_char 38 s then none else some s

usb_group :
    (c : ℕ) (s : Text)
    → has_char backslash (c ∷ s) ≡ false
    → usb_serial_number (group_after backslash (skip_interface (backslash ∷ c ∷ s)))
      ≡ serial_or_none (c ∷ s)
unfolding usb_serial_number group_after skip_interface after_literal
usb_group c s h = rw (segment_lem (c ∷ s) h) refl

match_usb_lem :
    (vid pid c : ℕ) (s : Text)
    → vid < 65536
    → pid < 65536
    → has_char backslash (c ∷ s) ≡ false
    → match_usb (usb_instance vid pid (c ∷ s)) ≡ some (some vid, some pid, serial_or_none (c ∷ s))
unfolding match_usb
match_usb_lem vid pid c s v p h =
    ap
      (λ (o : Option (ℕ × ℕ × Text)). o >>= λ x.
        some (some x.0, some x.1, usb_serial_number (group_after backslash (skip_interface x.2))))
      (vid_pid_lem (codes "USB\\VID_") (codes "&PID_") vid pid (backslash ∷ c ∷ s) v p)
    ∙ ap (λ g. some (some vid, some pid, g)) (usb_group c s h)

-- The identifier that Windows makes of a vendor, a product and the last segment: the two numbers
-- come back whatever the hardware identifier is, and the segment as the serial number, unless it
-- has an `&`, which marks one that Windows made up.
pub parse_device_ids-usb_instance :
    (vid pid c : ℕ) (s : Text) (hardware_id : Option Text)
    → vid < 65536
    → pid < 65536
    → has_char backslash (c ∷ s) ≡ false
    → parse_device_ids (some (usb_instance vid pid (c ∷ s))) hardware_id
      ≡ (some vid, some pid, (if has_char 38 (c ∷ s) then none else some (c ∷ s)))
unfolding parse_device_ids parse_instance_id
parse_device_ids-usb_instance vid pid c s hardware_id v p h =
    ap
      (λ o.
        or_hardware hardware_id
          (or_else o (or_else (match_ftdibus (usb_instance vid pid (c ∷ s))) no_ids)))
      (match_usb_lem vid pid c s v p h)

-- The last letter is taken off.
port_letter :
    (c : ℕ) (s : Text) (letter : ℕ)
    → (leb 65 letter && leb letter 90) ≡ true
    → without_port_letter (c ∷ s ++ letter ∷ []) ≡ c ∷ s
unfolding without_port_letter
port_letter c [] letter h = rw h refl
port_letter c (d ∷ []) letter h = ap (λ t. c ∷ t) (port_letter d [] letter h)
port_letter c (d ∷ e ∷ s) letter h = ap (λ t. c ∷ t) (port_letter d (e ∷ s) letter h)

has_char-append :
    (x : ℕ) (s t : Text) → has_char x s ≡ false → has_char x t ≡ false → has_char x (s ++ t) ≡ false
has_char-append x [] t h k = k
has_char-append x (c ∷ s) t h k = ground (arith, has_char-append x s t)

no_letter :
    (x letter : ℕ)
    → (leb 65 letter && leb letter 90) ≡ true
    → (leb 65 x && leb x 90) ≡ false
    → has_char x (letter ∷ []) ≡ false
no_letter x letter h k = ground arith

ftdi_group :
    (c letter : ℕ) (s port : Text)
    → (leb 65 letter && leb letter 90) ≡ true
    → has_char backslash (c ∷ s) ≡ false
    → has_char 38 (c ∷ s) ≡ false
    → ftdi_serial_number (group_after 43 (43 ∷ (c ∷ s ++ letter ∷ []) ++ backslash ∷ port))
      ≡ some (c ∷ s)
unfolding ftdi_serial_number group_after
ftdi_group c letter s port l b a =
    let whole =
      has_char-append backslash (c ∷ s) (letter ∷ []) b (no_letter backslash letter l refl) in
    let named = has_char-append 38 (c ∷ s) (letter ∷ []) a (no_letter 38 letter l refl) in
    rw (segment_before (c ∷ s ++ letter ∷ []) port whole, named, port_letter c s letter l) refl

match_ftdibus_lem :
    (vid pid c letter : ℕ) (s port : Text)
    → vid < 65536
    → pid < 65536
    → (leb 65 letter && leb letter 90) ≡ true
    → has_char backslash (c ∷ s) ≡ false
    → has_char 38 (c ∷ s) ≡ false
    → match_ftdibus (ftdi_instance vid pid ((c ∷ s ++ letter ∷ []) ++ backslash ∷ port))
      ≡ some (some vid, some pid, some (c ∷ s))
unfolding match_ftdibus
match_ftdibus_lem vid pid c letter s port v p l b a =
    ap
      (λ (o : Option (ℕ × ℕ × Text)).
        o >>= λ x. some (some x.0, some x.1, ftdi_serial_number (group_after 43 x.2)))
      (vid_pid_lem (codes "FTDIBUS\\VID_") (codes "+PID_") vid pid
        (43 ∷ (c ∷ s ++ letter ∷ []) ++ backslash ∷ port) v p)
    ∙ ap (λ g. some (some vid, some pid, g)) (ftdi_group c letter s port l b a)

no_usb : (s : Text) → match_usb (codes "FTDIBUS\\VID_" ++ s) ≡ none
unfolding match_usb vid_pid after_literal
no_usb s = refl

-- The identifier that FTDI's driver makes of a vendor, a product, a serial number without `&`, the
-- letter of a port and what follows: the two numbers come back, and the serial number without the
-- letter.
pub parse_device_ids-ftdi_instance :
    (vid pid c letter : ℕ) (s port : Text) (hardware_id : Option Text)
    → vid < 65536
    → pid < 65536
    → (leb 65 letter && leb letter 90) ≡ true
    → has_char backslash (c ∷ s) ≡ false
    → has_char 38 (c ∷ s) ≡ false
    → parse_device_ids
        (some (ftdi_instance vid pid ((c ∷ s ++ letter ∷ []) ++ backslash ∷ port)))
        hardware_id
      ≡ (some vid, some pid, some (c ∷ s))
unfolding parse_device_ids parse_instance_id
parse_device_ids-ftdi_instance vid pid c letter s port hardware_id v p l b a =
    ap
      (λ o. or_hardware hardware_id (
        or_else o (
          or_else
            (match_ftdibus (ftdi_instance vid pid ((c ∷ s ++ letter ∷ []) ++ backslash ∷ port)))
            no_ids)))
      (no_usb (
        hex4 vid
        ++ (codes "+PID_" ++ (hex4 pid ++ 43 ∷ (c ∷ s ++ letter ∷ []) ++ backslash ∷ port))))
    ∙ ap (λ o. or_hardware hardware_id (or_else o no_ids))
        (match_ftdibus_lem vid pid c letter s port v p l b a)
