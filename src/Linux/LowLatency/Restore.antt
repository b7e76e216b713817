-- ===== src/Linux/LowLatency/Restore.antt =====
-- The flags of the serial driver, saved and written back.
use anyserial.Base.{
  ℕ, zero, suc, ◌≡◌, ◌∙◌, sym, refl, ap, Bool, true, false, List, [], ◌∷◌, ℤ, arith, if◌then◌else◌,
}
use anyserial.Errors.{Exn, Result, ok, raise}
use anyserial.Backend.Protocol.{Call}
use anyserial.Posix.Kernel.{pure, lift, ◌>>=◌, ◌>>◌}
use anyserial.Posix.Kernel.Rules.{resumed_ok}
use anyserial.Linux.Kernel.{LinuxKernel}
use anyserial.Linux.LowLatency.{
  tiocgserial, tiocsserial, async_low_latency, flags_index, new_buffer, slot, put_slot, assign_slot,
  has_bit, or_bits, read_serial_flags, write_serial_flags, set_flag, enable_low_latency,
  restore_serial_flags,
}

-- The structure of the driver behind every descriptor, as ints. TIOCGSERIAL copies it out;
-- TIOCSSERIAL puts a copy in which only the flags differ in its place, or nothing when it fails.
pub record KeepsSerial {K : Type 0} (sys : LinuxKernel K) (view : K → List ℤ) : Type 0 where
  pub gets :
      (fd : ℤ) (buf : List ℤ) (k : K) (r : List ℤ)
      → (sys.ioctl_ints fd tiocgserial buf k).0 ≡ ok r
      → r ≡ view k
  pub only_reads :
      (fd : ℤ) (buf : List ℤ) (k : K) → view (sys.ioctl_ints fd tiocgserial buf k).1 ≡ view k
  pub puts :
      (fd v : ℤ) (buf : List ℤ) (k : K) (r : List ℤ)
      → put_slot (view k) flags_index v ≡ ok buf
      → (sys.ioctl_ints fd tiocsserial buf k).0 ≡ ok r
      → view (sys.ioctl_ints fd tiocsserial buf k).1 ≡ buf
  pub refuses :
      (fd : ℤ) (buf : List ℤ) (k : K) (e : Exn)
      → (sys.ioctl_ints fd tiocsserial buf k).0 ≡ raise e
      → view (sys.ioctl_ints fd tiocsserial buf k).1 ≡ view k

-- A list that was put back together, and the tail in it.
rebuilt :
    (x : ℤ) (r : Result (List ℤ)) (ys : List ℤ)
    → elim r [ ok zs ↦ ok (x ∷ zs) | raise e ↦ raise e ] ≡ ok ys
    → (zs : List ℤ) × (r ≡ ok zs) × (ys ≡ x ∷ zs)
rebuilt x (ok zs) ys h = (zs, refl, cc)
rebuilt x (raise e) ys h = cc

put_slot-put_slot :
    (xs ys : List ℤ) (i : ℕ) (v w : ℤ) → put_slot xs i v ≡ ok ys → put_slot ys i w ≡ put_slot xs i w
unfolding put_slot
put_slot-put_slot [] ys i v w h = cc
put_slot-put_slot (x ∷ xs) ys zero v w h = let first : ys ≡ v ∷ xs = cc in rw first
put_slot-put_slot (x ∷ xs) ys (suc i) v w h =
    let (zs, p, q) = rebuilt x (put_slot xs i v) ys h in
    ap (λ l. put_slot l (suc i) w) q
    ∙ ap (λ r. elim r [ ok us ↦ ok (x ∷ us) | raise e ↦ raise e ]) (put_slot-put_slot xs zs i v w p)

slot-put_slot : (xs : List ℤ) (i : ℕ) (v : ℤ) → slot xs i ≡ ok v → put_slot xs i v ≡ ok xs
unfolding slot put_slot
slot-put_slot [] i v h = cc
slot-put_slot (x ∷ xs) zero v h = ground arith
slot-put_slot (x ∷ xs) (suc i) v h = rw (slot-put_slot xs i v h)

put_slot-slot : (xs ys : List ℤ) (i : ℕ) (v : ℤ) → put_slot xs i v ≡ ok ys → slot ys i ≡ ok v
unfolding slot put_slot
put_slot-slot [] ys i v h = cc
put_slot-slot (x ∷ xs) ys zero v h = let first : ys ≡ v ∷ xs = cc in rw first
put_slot-slot (x ∷ xs) ys (suc i) v h =
    let (zs, p, q) = rebuilt x (put_slot xs i v) ys h in rw q (put_slot-slot xs zs i v p)

assigned : (xs ys : List ℤ) (i : ℕ) (v : ℤ) → assign_slot xs i v ≡ ok ys → put_slot xs i v ≡ ok ys
unfolding assign_slot
assigned xs ys i v h = ground arith

module _ {K : Type 0} (sys : LinuxKernel K) (view : K → List ℤ) (law : KeepsSerial sys view) where
  -- The writing half, on a copy of the structure.
  put_back : ℤ → ℤ → List ℤ → Call K (Unit {0})
  put_back fd v buf = lift (assign_slot buf flags_index v) >>= λ changed.
      sys.ioctl_ints fd tiocsserial changed >> pure tt

  put_back-put_slot :
      (fd v : ℤ) (k : K)
      → (put_back fd v (view k) k).0 ≡ ok tt
      → put_slot (view k) flags_index v ≡ ok (view (put_back fd v (view k) k).1)
  unfolding put_back ◌>>=◌
  put_back-put_slot fd v k h =
      let (changed, p, q) = resumed_ok (lift (assign_slot (view k) flags_index v) k) _ h in
      let (r, p', q') =
        resumed_ok (sys.ioctl_ints fd tiocsserial changed k) (λ _. pure tt)
          (sym (ap (λ x. x.0) q) ∙ h) in
      let put = assigned (view k) changed flags_index v p in
      put
      ∙ ap (λ xs. ok xs)
          (sym (law.puts fd v changed k r put p')
            ∙ sym (ap (λ x. view x.1) q')
            ∙ sym (ap (λ x. view x.1) q))

  write_serial_flags-put_slot :
      (fd v : ℤ) (k : K)
      → (write_serial_flags sys fd v k).0 ≡ ok tt
      → put_slot (view k) flags_index v ≡ ok (view (write_serial_flags sys fd v k).1)
  unfolding write_serial_flags put_back ◌>>=◌
  write_serial_flags-put_slot fd v k h =
      let (buf, p, q) = resumed_ok (sys.ioctl_ints fd tiocgserial new_buffer k) (put_back fd v) h in
      let k' = (sys.ioctl_ints fd tiocgserial new_buffer k).1 in
      let read : buf ≡ view k' =
        law.gets fd new_buffer k buf p ∙ sym (law.only_reads fd new_buffer k) in
      let whole : write_serial_flags sys fd v k ≡ put_back fd v (view k') k' =
        q ∙ ap (λ b. put_back fd v b k') read in
      ap (λ xs. put_slot xs flags_index v) (sym (law.only_reads fd new_buffer k))
      ∙ put_back-put_slot fd v k' (sym (ap (λ x. x.0) whole) ∙ h)
      ∙ ap (λ x. ok (view x.1)) (sym whole)

  read_serial_flags-slot :
      (fd f : ℤ) (k : K)
      → (read_serial_flags sys fd k).0 ≡ ok f
      → (slot (view k) flags_index ≡ ok f) × (view (read_serial_flags sys fd k).1 ≡ view k)
  unfolding read_serial_flags ◌>>=◌
  read_serial_flags-slot fd f k h =
      let (buf, p, q) =
        resumed_ok (sys.ioctl_ints fd tiocgserial new_buffer k) (λ buf. lift (slot buf flags_index))
          h in
      (
        ap (λ xs. slot xs flags_index) (sym (law.gets fd new_buffer k buf p))
            ∙ sym (ap (λ x. x.0) q)
            ∙ h,
        ap (λ x. view x.1) q ∙ law.only_reads fd new_buffer k,
      )

  -- The flags with low latency among them.
  abbrev pub raised_flags : ℤ → ℤ
  raised_flags f = if has_bit f async_low_latency then f else or_bits f async_low_latency

  -- The structure that a call leaves differs from the one before in its flags alone.
  abbrev pub SameButFlags : K → K → Type 0
  SameButFlags before after =
      (w : ℤ) → put_slot (view after) flags_index w ≡ put_slot (view before) flags_index w

  set_flag-SameButFlags :
      (fd f original : ℤ) (k : K)
      → slot (view k) flags_index ≡ ok f
      → (set_flag sys fd f k).0 ≡ ok original
      → (original ≡ f)
        × (slot (view (set_flag sys fd f k).1) flags_index ≡ ok (raised_flags f))
        × SameButFlags k (set_flag sys fd f k).1
  unfolding set_flag ◌>>=◌
  set_flag-SameButFlags fd f original k s h = pick (has_bit f async_low_latency) h
    where
      writing : Call K ℤ
      writing = write_serial_flags sys fd (or_bits f async_low_latency) >> pure f

      pick :
          (b : Bool)
          → ((if b then pure f else writing) k).0 ≡ ok original
          → (original ≡ f)
            × (slot (view ((if b then pure f else writing) k).1) flags_index
                ≡ ok (if b then f else or_bits f async_low_latency))
            × SameButFlags k ((if b then pure f else writing) k).1
      pick true e = (cc, s, λ w. refl)
      pick false e =
          let x = write_serial_flags sys fd (or_bits f async_low_latency) k in
          let (u, p, q) = resumed_ok x (λ _. pure f) e in
          let done = write_serial_flags-put_slot fd (or_bits f async_low_latency) k p in
          (
            cc,
            ap (λ (y : Result ℤ × K). slot (view y.1) flags_index) q
                ∙ put_slot-slot (view k) (view x.1) flags_index (or_bits f async_low_latency) done,
            λ w.
                ap (λ (y : Result ℤ × K). put_slot (view y.1) flags_index w) q
                ∙ put_slot-put_slot (view k) (view x.1) flags_index (or_bits f async_low_latency) w
                    done,
          )

  enabled :
      (fd original : ℤ) (k : K)
      → (enable_low_latency sys fd k).0 ≡ ok original
      → (slot (view k) flags_index ≡ ok original)
        × (slot (view (enable_low_latency sys fd k).1) flags_index ≡ ok (raised_flags original))
        × SameButFlags k (enable_low_latency sys fd k).1
  unfolding enable_low_latency ◌>>=◌
  enabled fd original k h =
      let (f, p, q) = resumed_ok (read_serial_flags sys fd k) (set_flag sys fd) h in
      let (s, same) = read_serial_flags-slot fd f k p in
      let k' = (read_serial_flags sys fd k).1 in
      let (e, raised, others) =
        set_flag-SameButFlags fd f original k' (ap (λ xs. slot xs flags_index) same ∙ s)
          (sym (ap (λ x. x.0) q) ∙ h) in
      (
        s ∙ ap (λ g. ok g) (sym e),
        ap (λ x. slot (view x.1) flags_index) q ∙ raised ∙ ap (λ g. ok (raised_flags g)) (sym e),
        λ w.
            ap (λ x. put_slot (view x.1) flags_index w) q
            ∙ others w
            ∙ ap (λ xs. put_slot xs flags_index w) same,
      )

  -- Low latency that was turned on leaves the driver's structure as it was but for its flags, and
  -- those are the flags that the call answered with `ASYNC_LOW_LATENCY` among them, or just these
  -- where they had it. The answered flags, written back, leave all of it as it was before.
  pub restore_serial_flags-enable_low_latency :
      (fd original : ℤ) (k : K)
      → (enable_low_latency sys fd k).0 ≡ ok original
      → (restore_serial_flags sys fd original (enable_low_latency sys fd k).1).0 ≡ ok tt
      → SameButFlags k (enable_low_latency sys fd k).1
        × (slot (view (enable_low_latency sys fd k).1) flags_index ≡ ok (raised_flags original))
        × (view (restore_serial_flags sys fd original (enable_low_latency sys fd k).1).1 ≡ view k)
  unfolding restore_serial_flags
  restore_serial_flags-enable_low_latency fd original k h r =
      let (s, raised, others) = enabled fd original k h in
      let k' = (enable_low_latency sys fd k).1 in
      let put = write_serial_flags-put_slot fd original k' r in
      let same = sym put ∙ others original ∙ slot-put_slot (view k) flags_index original s in
      (others, raised, cc)
