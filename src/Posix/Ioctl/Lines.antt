-- ===== src/Posix/Ioctl/Lines.antt =====
-- The control lines, written and read back.
use anyserial.Base.{
  ℕ, ◌≡◌, ◌∙◌, sym, ap, refl, ◌==◌, Bool, true, false, not, ◌&&◌, Option, none, some, ℤ, arith,
  Bool-cases, inl, inr,
}
use anyserial.Bits.{◌&◌, ◌¦◌, ◌&~◌, bit}
use anyserial.Bits.Digits.{bit-zero, bit-and, bit-or}
use anyserial.Bits.Laws.{bit-clear, eq_of_bits}
use anyserial.Errors.{Result, ok, raise}
use anyserial.Posix.Ioctl.{
  Requests, require, has, on_value, as_done, asked, set_mask, clear_mask, call, change_bits,
  then_clear, set_control_lines, get_control_lines, read_tiocm_bits,
}

or_comm : (x y : ℕ) → x ¦ y ≡ y ¦ x
or_comm x y = eq_of_bits _ _ λ i. ground (arith, bit-or x y i, bit-or y x i)

-- What is read through a mask, when only bits apart from it were set and cleared besides.
module _ (b set other clear besides m : ℕ) (p : other & m ≡ 0) (q : besides & m ≡ 0) where
  read_apart : ((b ¦ (set ¦ other)) &~ (clear ¦ besides)) & m ≡ ((b ¦ set) &~ clear) & m
  read_apart = eq_of_bits _ _ λ i. ground (
    arith,
    bit-and ((b ¦ (set ¦ other)) &~ (clear ¦ besides)) m i,
    bit-clear (b ¦ (set ¦ other)) (clear ¦ besides) i,
    bit-or b (set ¦ other) i,
    bit-or set other i,
    bit-or clear besides i,
    bit-and ((b ¦ set) &~ clear) m i,
    bit-clear (b ¦ set) clear i,
    bit-or b set i,
    bit-and other m i,
    bit-and besides m i,
    bit-zero i,
    ap (λ (t : ℕ). bit t i) p,
    ap (λ (t : ℕ). bit t i) q,
  )

module _ (b set other clear besides m : ℕ) (p : other & m ≡ 0) (q : besides & m ≡ 0) where
  read_apart_right : ((b ¦ (other ¦ set)) &~ (besides ¦ clear)) & m ≡ ((b ¦ set) &~ clear) & m
  read_apart_right =
      rw (or_comm other set, or_comm besides clear) (read_apart b set other clear besides m p q)

module _ (b m : ℕ) where
  read_same : ((b ¦ 0) &~ 0) & m ≡ b & m
  read_same = eq_of_bits _ _ λ i. ground (
    arith,
    bit-and ((b ¦ 0) &~ 0) m i,
    bit-clear (b ¦ 0) 0 i,
    bit-or b 0 i,
    bit-zero i,
    bit-and b m i,
  )

  read_on : ((b ¦ m) &~ 0) & m ≡ m
  read_on = eq_of_bits _ _ λ i.
      ground (arith, bit-and ((b ¦ m) &~ 0) m i, bit-clear (b ¦ m) 0 i, bit-or b m i, bit-zero i)

  read_off : ((b ¦ 0) &~ m) & m ≡ 0
  read_off = eq_of_bits _ _ λ i.
      ground (arith, bit-and ((b ¦ 0) &~ m) m i, bit-clear (b ¦ 0) m i, bit-or b 0 i, bit-zero i)

module _ (b : ℕ) where
  or_zero_same : b ¦ 0 ≡ b
  or_zero_same = eq_of_bits _ _ λ i. ground (arith, bit-or b 0 i, bit-zero i)

  clear_zero_same : b &~ 0 ≡ b
  clear_zero_same = eq_of_bits _ _ λ i. ground (arith, bit-clear b 0 i, bit-zero i)

and_other : (m m' : ℕ) → m & m' ≡ 0 → m' & m ≡ 0
and_other m m' h =
    eq_of_bits _ _
      λ i. ground (arith, bit-and m' m i, bit-and m m' i, bit-zero i, ap (λ (t : ℕ). bit t i) h)

zero_apart : (m : ℕ) → 0 & m ≡ 0
zero_apart m = eq_of_bits _ _ λ i. ground (arith, bit-and 0 m i, bit-zero i)

-- The level of a line after a request.
abbrev pub or_before : Option Bool → Bool → Bool
or_before none before = before
or_before (some on) before = on

asked_apart :
    (on : Bool) (request : Option Bool) (m m' : ℕ) → m & m' ≡ 0 → asked on request m & m' ≡ 0
asked_apart on none m m' h = zero_apart m'
asked_apart true (some true) m m' h = h
asked_apart true (some false) m m' h = zero_apart m'
asked_apart false (some true) m m' h = zero_apart m'
asked_apart false (some false) m m' h = h

-- One line read back from the bits that its own request changed.
has-asked :
    (request : Option Bool) (b m : ℕ)
    → (m == 0) ≡ false
    → has ((b ¦ asked true request m) &~ asked false request m) m ≡ or_before request (has b m)
has-asked none b m h = ap (λ (t : ℕ). not (t == 0)) (read_same b m)
has-asked (some true) b m h = ap (λ (t : ℕ). not (t == 0)) (read_on b m) ∙ ground arith
has-asked (some false) b m h = ap (λ (t : ℕ). not (t == 0)) (read_off b m)

unchanged : (b s c : ℕ) → ((s == 0) && (c == 0)) ≡ true → b ≡ (b ¦ s) &~ c
unchanged b s c h =
    let s_zero : s ≡ 0 = ground arith in
    let c_zero : c ≡ 0 = ground arith in rw (s_zero, c_zero, or_zero_same b, clear_zero_same b) refl

answered_with {ℓ} :
    {A : Type ℓ} {K : Type 0} (r : Result ℕ × K) (x : ℕ) (f : ℕ → A)
    → r.0 ≡ ok x
    → (on_value f r).0 ≡ ok (f x)
answered_with (ok y, k) x f h = ground arith
answered_with (raise e, k) x f h = cc

module _ (n : Requests) {K : Type 0} (ioctl : ℤ → ℕ → ℕ → K → Result ℕ × K) where
  -- The documented behaviour of the modem-control requests, on the bits `level` that the kernel
  -- keeps: TIOCMBIS sets, TIOCMBIC clears and TIOCMGET reads; and the two masks are two bits.
  pub record ControlsLines (level : K → ℕ) (get : ℕ) : Type 0 where
    pub sets :
        (fd : ℤ) (req m : ℕ) (k : K) (x : ℕ)
        → n.tiocmbis_attr ≡ some req
        → (ioctl fd req m k).0 ≡ ok x
        → level (ioctl fd req m k).1 ≡ level k ¦ m
    pub clears :
        (fd : ℤ) (req m : ℕ) (k : K) (x : ℕ)
        → n.tiocmbic_attr ≡ some req
        → (ioctl fd req m k).0 ≡ ok x
        → level (ioctl fd req m k).1 ≡ level k &~ m
    pub gettable : n.tiocmget_attr ≡ some get
    pub reads : (fd : ℤ) (k : K) → (ioctl fd get 0 k).0 ≡ ok (level k)
    pub rts_bit : (n.tiocm_rts == 0) ≡ false
    pub dtr_bit : (n.tiocm_dtr == 0) ≡ false
    pub apart : n.tiocm_rts & n.tiocm_dtr ≡ 0

  module _ (level : K → ℕ) (get : ℕ) (law : ControlsLines level get) where
    answered :
        (bits : ℕ) (r : Result ℕ × K)
        → ((x : ℕ) → r.0 ≡ ok x → level r.1 ≡ bits)
        → (as_done r).0 ≡ ok tt
        → level (as_done r).1 ≡ bits
    answered bits (ok x, k) f h = f x refl
    answered bits (raise e, k) f h = cc

    called :
        (fd : ℤ) (request : Option ℕ) (m bits : ℕ) (k : K)
        → ((req x : ℕ)
            → request ≡ some req
            → (ioctl fd req m k).0 ≡ ok x
            → level (ioctl fd req m k).1 ≡ bits)
        → (as_done (call n ioctl fd (require request) m k)).0 ≡ ok tt
        → level (as_done (call n ioctl fd (require request) m k)).1 ≡ bits
    unfolding call require
    called fd none m bits k f h = cc
    called fd (some req) m bits k f h = answered bits (ioctl fd req m k) (λ x. f req x refl) h

    -- A change of no bits is left out.
    changed_bits :
        (fd : ℤ) (request : Option ℕ) (m bits : ℕ) (k : K)
        → (m ≡ 0 → level k ≡ bits)
        → ((req x : ℕ)
            → request ≡ some req
            → (ioctl fd req m k).0 ≡ ok x
            → level (ioctl fd req m k).1 ≡ bits)
        → (change_bits n ioctl fd request m k).0 ≡ ok tt
        → level (change_bits n ioctl fd request m k).1 ≡ bits
    unfolding change_bits
    changed_bits fd request m bits k z f h = elim (Bool-cases (m == 0)) [
      | inl e ↦ rw e (z (ground arith))
      | inr e ↦ rw e (called fd request m bits k f (rw e at h))
    ]

    cleared :
        (fd : ℤ) (m bits : ℕ) (r : Result (Unit {0}) × K)
        → (r.0 ≡ ok tt → level r.1 ≡ bits)
        → (then_clear n ioctl fd m r).0 ≡ ok tt
        → level (then_clear n ioctl fd m r).1 ≡ bits &~ m
    unfolding then_clear
    cleared fd m bits (ok _, k) f h =
        changed_bits fd n.tiocmbic_attr m (bits &~ m) k
          (λ z. f refl ∙ sym (clear_zero_same bits) ∙ ap (λ (t : ℕ). bits &~ t) (sym z))
          (λ req x a b. law.clears fd req m k x a b ∙ ap (λ (t : ℕ). t &~ m) (f refl)) h
    cleared fd m bits (raise e, k) f h = cc

    set_bits :
        (fd : ℤ) (rts dtr : Option Bool) (k : K)
        → (set_control_lines n ioctl fd rts dtr k).0 ≡ ok tt
        → level (set_control_lines n ioctl fd rts dtr k).1
          ≡ (level k ¦ set_mask n rts dtr) &~ clear_mask n rts dtr
    unfolding set_control_lines
    set_bits fd rts dtr k h =
        let s = set_mask n rts dtr in
        let c = clear_mask n rts dtr in
        elim (Bool-cases ((s == 0) && (c == 0))) [
          | inl e ↦ rw e (unchanged (level k) s c e)
          | inr e ↦ rw e (
              cleared fd c (level k ¦ s) (change_bits n ioctl fd n.tiocmbis_attr s k)
                (λ done.
                  changed_bits fd n.tiocmbis_attr s (level k ¦ s) k
                    (λ z. sym (or_zero_same (level k)) ∙ ap (λ (t : ℕ). level k ¦ t) (sym z))
                    (λ req x a b. law.sets fd req s k x a b) done)
                (rw e at h))
        ]

    rts_read :
        (rts dtr : Option Bool) (b : ℕ)
        → has ((b ¦ set_mask n rts dtr) &~ clear_mask n rts dtr) n.tiocm_rts
          ≡ or_before rts (has b n.tiocm_rts)
    rts_read rts dtr b =
        let other = and_other n.tiocm_rts n.tiocm_dtr law.apart in
        ap (λ (t : ℕ). not (t == 0))
          (read_apart b (asked true rts n.tiocm_rts) (asked true dtr n.tiocm_dtr)
            (asked false rts n.tiocm_rts) (asked false dtr n.tiocm_dtr) n.tiocm_rts
            (asked_apart true dtr _ _ other) (asked_apart false dtr _ _ other))
        ∙ has-asked rts b n.tiocm_rts law.rts_bit

    dtr_read :
        (rts dtr : Option Bool) (b : ℕ)
        → has ((b ¦ set_mask n rts dtr) &~ clear_mask n rts dtr) n.tiocm_dtr
          ≡ or_before dtr (has b n.tiocm_dtr)
    dtr_read rts dtr b =
        ap (λ (t : ℕ). not (t == 0))
          (read_apart_right b (asked true dtr n.tiocm_dtr) (asked true rts n.tiocm_rts)
            (asked false dtr n.tiocm_dtr) (asked false rts n.tiocm_rts) n.tiocm_dtr
            (asked_apart true rts _ _ law.apart) (asked_apart false rts _ _ law.apart))
        ∙ has-asked dtr b n.tiocm_dtr law.dtr_bit

    read_lines :
        (fd : ℤ) (k : K)
        → (get_control_lines n ioctl fd k).0
          ≡ ok (record { rts = has (level k) n.tiocm_rts; dtr = has (level k) n.tiocm_dtr })
    unfolding get_control_lines read_tiocm_bits call require
    read_lines fd k =
        rw law.gettable (answered_with (ioctl fd get 0 k) (level k) _ (law.reads fd k))

    -- Over a kernel that keeps the lines as bits, sets and clears them as asked and reports them,
    -- with RTS and DTR two different bits: where `set_control_lines` returns, the control lines that are then read are the requested
    -- ones, and a line for which nothing was requested is as it was before.
    pub get_control_lines-set_control_lines :
        (fd : ℤ) (rts dtr : Option Bool) (k : K)
        → (set_control_lines n ioctl fd rts dtr k).0 ≡ ok tt
        → (get_control_lines n ioctl fd (set_control_lines n ioctl fd rts dtr k).1).0
          ≡ ok (record {
            rts = or_before rts (has (level k) n.tiocm_rts);
            dtr = or_before dtr (has (level k) n.tiocm_dtr);
          })
    get_control_lines-set_control_lines fd rts dtr k h =
        let after = (set_control_lines n ioctl fd rts dtr k).1 in
        let rts_same =
          ap (λ (t : ℕ). has t n.tiocm_rts) (set_bits fd rts dtr k h)
          ∙ rts_read rts dtr (level k) in
        let dtr_same =
          ap (λ (t : ℕ). has t n.tiocm_dtr) (set_bits fd rts dtr k h)
          ∙ dtr_read rts dtr (level k) in
        read_lines fd after ∙ simp (rts_same, dtr_same)
