-- ===== src/Linux/Baudrate/Layout.antt =====
-- The bytes of `struct termios2`, back and forth.
use anyserial.Base.{
  ℕ, zero, suc, ◌+◌, ◌≤◌, ◌≡◌, ◌∙◌, refl, ap, Bool, true, false, List, [], ◌∷◌, ◌++◌, length, take,
  get_or, drop, length-append, arith, ltb,
}
use anyserial.Errors.{ok, ◌>>=◌}
use anyserial.Linux.Rs485.{u32, u32_at, delay_ms_max}
use anyserial.Linux.Rs485.Layout.{little_bytes, big_bytes}
use anyserial.Linux.Baudrate.{Termios2Attrs, padded, pack, unpack, nccs2, termios2_size}

-- Every field has room in the format, and there are as many control characters as it has.
pub record HasRoom (a : Termios2Attrs) : Type 0 where
  pub iflag_fits : a.iflag ≤ delay_ms_max
  pub oflag_fits : a.oflag ≤ delay_ms_max
  pub cflag_fits : a.cflag ≤ delay_ms_max
  pub lflag_fits : a.lflag ≤ delay_ms_max
  pub line_fits : a.line ≤ 255
  pub cc_fits : length a.cc ≡ nccs2
  pub ispeed_fits : a.ispeed ≤ delay_ms_max
  pub ospeed_fits : a.ospeed ≤ delay_ms_max

padded_full : (n : ℕ) (xs : List ℕ) → length xs ≡ n → padded n xs ≡ xs
unfolding padded
padded_full zero [] h = refl
padded_full zero (x ∷ xs) h = absurd (omega arith)
padded_full (suc n) [] h = absurd (omega arith)
padded_full (suc n) (x ∷ xs) h = ap (λ (l : List ℕ). x ∷ l) (padded_full n xs (omega arith))

take-append : (n : ℕ) (xs ys : List ℕ) → length xs ≡ n → take n (xs ++ ys) ≡ xs
take-append zero [] ys h = refl
take-append zero (x ∷ xs) ys h = absurd (omega arith)
take-append (suc n) [] ys h = absurd (omega arith)
take-append (suc n) (x ∷ xs) ys h = ap (λ (l : List ℕ). x ∷ l) (take-append n xs ys (omega arith))

get_or-append :
    (n i d : ℕ) (xs ys : List ℕ) → length xs ≡ n → get_or (xs ++ ys) (n + i) d ≡ get_or ys i d
get_or-append zero i d [] ys h = ground arith
get_or-append zero i d (x ∷ xs) ys h = absurd (omega arith)
get_or-append (suc n) i d [] ys h = absurd (omega arith)
get_or-append (suc n) i d (x ∷ xs) ys h = ground (arith, get_or-append n i d xs ys (omega arith))

suc_shift : (n i : ℕ) → suc n + i ≡ suc (n + i)
suc_shift n i = omega arith

drop-append : (n i : ℕ) (xs ys : List ℕ) → length xs ≡ n → drop (n + i) (xs ++ ys) ≡ drop i ys
drop-append zero i [] ys h = ground arith
drop-append zero i (x ∷ xs) ys h = absurd (omega arith)
drop-append (suc n) i [] ys h = absurd (omega arith)
drop-append (suc n) i (x ∷ xs) ys h =
    ap (λ (j : ℕ). drop j (x ∷ (xs ++ ys))) (suc_shift n i) ∙ drop-append n i xs ys (omega arith)

-- The `I` that starts a list.
u32-first :
    (little : Bool) (n : ℕ) (ys : List ℕ)
    → n ≤ delay_ms_max
    → u32_at little (u32 little n ++ ys) 0 ≡ n
unfolding u32 u32_at
u32-first true n ys h = little_bytes n h
u32-first false n ys h = big_bytes n h

u32-alone : (little : Bool) (n : ℕ) → n ≤ delay_ms_max → u32_at little (u32 little n) 0 ≡ n
unfolding u32 u32_at
u32-alone true n h = little_bytes n h
u32-alone false n h = big_bytes n h

-- An `I` past the first segment of a list.
u32_at-append :
    (little : Bool) (n i : ℕ) (xs ys : List ℕ)
    → length xs ≡ n
    → u32_at little (xs ++ ys) (n + i) ≡ u32_at little ys i
unfolding u32_at
u32_at-append true n i xs ys h = ground (
  arith,
  get_or-append n i 0 xs ys h,
  get_or-append n (i + 1) 0 xs ys h,
  get_or-append n (i + 2) 0 xs ys h,
  get_or-append n (i + 3) 0 xs ys h,
)
u32_at-append false n i xs ys h = ground (
  arith,
  get_or-append n i 0 xs ys h,
  get_or-append n (i + 1) 0 xs ys h,
  get_or-append n (i + 2) 0 xs ys h,
  get_or-append n (i + 3) 0 xs ys h,
)

length-u32 : (little : Bool) (n : ℕ) → length (u32 little n) ≡ 4
unfolding u32
length-u32 true n = refl
length-u32 false n = refl

-- The bytes of the structure.
image : Bool → Termios2Attrs → List ℕ
image little a =
    u32 little a.iflag
    ++ (u32 little a.oflag
        ++ (u32 little a.cflag
            ++ (u32 little a.lflag
                ++ (a.line ∷ (a.cc ++ (u32 little a.ispeed ++ u32 little a.ospeed))))))

within : (m n : ℕ) → n ≤ m → ltb m n ≡ false
within m n h = ground arith

packed : (little : Bool) (a : Termios2Attrs) → HasRoom a → pack little a ≡ ok (image little a)
unfolding pack image
packed little a h = rw (
  padded_full nccs2 a.cc h.cc_fits,
  within delay_ms_max a.iflag h.iflag_fits,
  within delay_ms_max a.oflag h.oflag_fits,
  within delay_ms_max a.cflag h.cflag_fits,
  within delay_ms_max a.lflag h.lflag_fits,
  within 255 a.line h.line_fits,
  within delay_ms_max a.ispeed h.ispeed_fits,
  within delay_ms_max a.ospeed h.ospeed_fits,
)

-- What follows a word, four bytes further on.
module _ (little : Bool) (n : ℕ) (ys : List ℕ) where
  length-behind : length (u32 little n ++ ys) ≡ 4 + length ys
  length-behind =
      length-append (u32 little n) ys ∙ ap (λ (l : ℕ). l + length ys) (length-u32 little n)

  u32_at-behind : (i : ℕ) → u32_at little (u32 little n ++ ys) (4 + i) ≡ u32_at little ys i
  u32_at-behind i = u32_at-append little 4 i (u32 little n) ys (length-u32 little n)

  get_or-behind : (i : ℕ) → get_or (u32 little n ++ ys) (4 + i) 0 ≡ get_or ys i 0
  get_or-behind i = get_or-append 4 i 0 (u32 little n) ys (length-u32 little n)

  drop-behind : (i : ℕ) → drop (4 + i) (u32 little n ++ ys) ≡ drop i ys
  drop-behind i = drop-append 4 i (u32 little n) ys (length-u32 little n)

module _ (little : Bool) (a : Termios2Attrs) (h : HasRoom a) where
  speeds : List ℕ
  speeds = u32 little a.ispeed ++ u32 little a.ospeed

  body : List ℕ
  unfolding speeds
  body = a.line ∷ (a.cc ++ speeds)

  image-length : length (image little a) ≡ termios2_size
  unfolding image body speeds
  image-length = omega (
    arith,
    length-behind little a.iflag
        (u32 little a.oflag ++ (u32 little a.cflag ++ (u32 little a.lflag ++ body))),
    length-behind little a.oflag (u32 little a.cflag ++ (u32 little a.lflag ++ body)),
    length-behind little a.cflag (u32 little a.lflag ++ body),
    length-behind little a.lflag body,
    length-append a.cc speeds,
    h.cc_fits,
    length-behind little a.ispeed (u32 little a.ospeed),
    length-u32 little a.ospeed,
  )

  image-iflag : u32_at little (image little a) 0 ≡ a.iflag
  unfolding image
  image-iflag = u32-first little a.iflag _ h.iflag_fits

  image-oflag : u32_at little (image little a) 4 ≡ a.oflag
  unfolding image
  image-oflag = u32_at-behind little a.iflag _ 0 ∙ u32-first little a.oflag _ h.oflag_fits

  image-cflag : u32_at little (image little a) 8 ≡ a.cflag
  unfolding image
  image-cflag =
      u32_at-behind little a.iflag _ 4
      ∙ u32_at-behind little a.oflag _ 0
      ∙ u32-first little a.cflag _ h.cflag_fits

  image-lflag : u32_at little (image little a) 12 ≡ a.lflag
  unfolding image
  image-lflag =
      u32_at-behind little a.iflag _ 8
      ∙ u32_at-behind little a.oflag _ 4
      ∙ u32_at-behind little a.cflag _ 0
      ∙ u32-first little a.lflag _ h.lflag_fits

  -- What an offset past the four flag words reads.
  past : (i : ℕ) → u32_at little (image little a) (4 + (4 + (4 + (4 + i)))) ≡ u32_at little body i
  unfolding image body speeds
  past i =
      u32_at-behind little a.iflag _ (4 + (4 + (4 + i)))
      ∙ u32_at-behind little a.oflag _ (4 + (4 + i))
      ∙ u32_at-behind little a.cflag _ (4 + i)
      ∙ u32_at-behind little a.lflag _ i

  image-line : get_or (image little a) 16 0 ≡ a.line
  unfolding image body speeds
  image-line =
      get_or-behind little a.iflag _ 12
      ∙ get_or-behind little a.oflag _ 8
      ∙ get_or-behind little a.cflag _ 4
      ∙ get_or-behind little a.lflag _ 0

  image-cc : take nccs2 (drop 17 (image little a)) ≡ a.cc
  unfolding image body speeds
  image-cc =
      ap (take nccs2) (
        drop-behind little a.iflag _ 13
        ∙ drop-behind little a.oflag _ 9
        ∙ drop-behind little a.cflag _ 5
        ∙ drop-behind little a.lflag _ 1)
      ∙ take-append nccs2 a.cc speeds h.cc_fits

  -- The line discipline's byte goes first in the body.
  one_further :
      (little : Bool) (x : ℕ) (ys : List ℕ) (i : ℕ)
      → u32_at little (x ∷ ys) (1 + i) ≡ u32_at little ys i
  one_further little x ys i = u32_at-append little 1 i (x ∷ []) ys refl

  image-ispeed : u32_at little (image little a) 36 ≡ a.ispeed
  unfolding image body speeds
  image-ispeed =
      past 20
      ∙ one_further little a.line _ 19
      ∙ u32_at-append little nccs2 0 a.cc speeds h.cc_fits
      ∙ u32-first little a.ispeed _ h.ispeed_fits

  image-ospeed : u32_at little (image little a) 40 ≡ a.ospeed
  unfolding image body speeds
  image-ospeed =
      past 24
      ∙ one_further little a.line _ 23
      ∙ u32_at-append little nccs2 4 a.cc speeds h.cc_fits
      ∙ u32_at-behind little a.ispeed _ 0
      ∙ u32-alone little a.ospeed h.ospeed_fits

  -- What a buffer of the right length unpacks to.
  image-unpack : unpack little (image little a) ≡ ok a
  unfolding unpack
  image-unpack = rw (
    image-length, image-iflag, image-oflag, image-cflag, image-lflag, image-line, image-cc,
    image-ispeed, image-ospeed,
  )

-- A structure whose fields have room in the format packs, in either byte order, and unpacks to
-- itself.
pub pack-unpack :
    (little : Bool) (a : Termios2Attrs) → HasRoom a → (pack little a >>= unpack little) ≡ ok a
pack-unpack little a h = rw (packed little a h) (image-unpack little a h)
