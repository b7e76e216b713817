-- ===== src/Windows/Backend/Delivery.antt =====
-- What a `send` of the Windows backend puts on the line.
use mathlib.Core.List.{append_assoc, append-nil}
use anyserial.Base.{
  ℕ, zero, suc, ◌==◌, ◌≤◌, ◌≡◌, refl, sym, ap, ◌∙◌, subst, true, false, String, List, [], ◌∷◌, ◌++◌,
  length, take, drop, take-append-drop, length-drop, if◌then◌else◌, arith,
}
use anyserial.Errors.{Exn, Context, Result, ok, raise, is_os_error}
use anyserial.Posix.Kernel.{resume_with, handle, raising}
use anyserial.Windows.Errors.{WinErrors, winerror_to_exception}
use anyserial.Windows.Kernel32.{Kernel32}
use anyserial.Windows.Backend.{Windows, write_loop, send, no_progress}

-- `WriteFile` takes bytes from the front of what it is given, as many as it says, and none when it
-- fails. `wire` is what it has taken so far.
pub record WritesToLine {K : Type 0} (sys : Kernel32 K) (wire : K → List ℕ) : Type 0 where
  pub takes :
      (h : ℕ) (xs : List ℕ) (k : K) (n : ℕ)
      → (sys.write h xs k).0 ≡ ok n
      → (n ≤ length xs) × (wire (sys.write h xs k).1 ≡ wire k ++ take n xs)
  pub refuses :
      (h : ℕ) (xs : List ℕ) (k : K) (e : Exn)
      → (sys.write h xs k).0 ≡ raise e
      → wire (sys.write h xs k).1 ≡ wire k

some_taken : (n : ℕ) → (suc n == 0) ≡ false
some_taken n = ground arith

module _ {K : Type 0} (sys : Kernel32 K) (host : WinErrors) (wire : K → List ℕ) where
  -- All of the bytes are on the line, or those before some point when the call raised.
  abbrev pub Sent : List ℕ → List ℕ → Result (Unit {0}) × K → Type 0
  Sent before xs (ok u, k) = wire k ≡ before ++ xs
  Sent before xs (raise e, k) =
      (sent : List ℕ) × (unsent : List ℕ) × (xs ≡ sent ++ unsent) × (wire k ≡ before ++ sent)

  -- After a round that took `front`, the rest.
  Sent-after :
      (before front rest : List ℕ) (x : Result (Unit {0}) × K)
      → Sent (before ++ front) rest x
      → Sent before (front ++ rest) x
  Sent-after before front rest (ok u, k) h = h ∙ append_assoc before front rest
  Sent-after before front rest (raise e, k) (sent, unsent, p, q) = (
    front ++ sent,
    unsent,
    rw p (sym (append_assoc front sent unsent)),
    q ∙ append_assoc before front sent,
  )

  -- The first write of a round, as it is mapped.
  abbrev Written : List ℕ → List ℕ → Result ℕ × K → Type 0
  Written before xs (ok n, k) = (n ≤ length xs) × (wire k ≡ before ++ take n xs)
  Written before xs (raise e, k) = wire k ≡ before

  mapped-Written :
      (path : String) (before xs : List ℕ) (x : Result ℕ × K)
      → Written before xs x
      → Written before xs
          (handle is_os_error (λ e. raising (winerror_to_exception host e Context.io path)) x)
  unfolding handle
  mapped-Written path before xs (ok n, k) h = h
  mapped-Written path before xs (raise e, k) h = ground arith

  module _ (law : WritesToLine sys wire) where
    first-Written :
        (h : ℕ) (xs : List ℕ) (k : K) (x : Result ℕ × K)
        → x ≡ sys.write h xs k
        → Written (wire k) xs x
    first-Written h xs k (ok n, k') e =
        let out = law.takes h xs k n (sym (ap (λ y. y.0) e)) in
        (out.0, ap (λ y. wire y.1) e ∙ out.1)
    first-Written h xs k (raise f, k') e =
        ap (λ y. wire y.1) e ∙ law.refuses h xs k f (sym (ap (λ y. y.0) e))

    -- A round on the outcome of its write, if the rounds after it deliver.
    round-Sent :
        (rounds h : ℕ) (path : String) (x : ℕ) (xs : List ℕ) (before : List ℕ) (y : Result ℕ × K)
        → length xs ≤ rounds
        → ((ys : List ℕ) (k : K)
            → length ys ≤ rounds
            → Sent (wire k) ys (write_loop sys host rounds h path ys k))
        → Written before (x ∷ xs) y
        → Sent before (x ∷ xs) (
            resume_with
              (λ n k.
                if n == 0
                then (raise (no_progress path), k)
                else write_loop sys host rounds h path (drop n (x ∷ xs)) k)
              y)
    round-Sent rounds h path x xs before (raise e, k) l next w =
        ([], x ∷ xs, refl, w ∙ sym (append-nil before))
    round-Sent rounds h path x xs before (ok zero, k) l next (b, w) = ([], x ∷ xs, refl, w)
    round-Sent rounds h path x xs before (ok (suc n), k) l next (b, w) =
        let rest = write_loop sys host rounds h path (drop n xs) k in
        let sent = next (drop n xs) k (omega (arith, length-drop n xs)) in
        let moved =
          Sent-after before (x ∷ take n xs) (drop n xs) rest
            (subst (λ t. Sent t (drop n xs) rest) w sent) in
        rw (some_taken n) (subst (λ t. Sent before (x ∷ t) rest) (take-append-drop n xs) moved)

    write_loop-Sent :
        (rounds h : ℕ) (path : String) (xs : List ℕ) (k : K)
        → length xs ≤ rounds
        → Sent (wire k) xs (write_loop sys host rounds h path xs k)
    unfolding write_loop
    write_loop-Sent zero h path [] k l = sym (append-nil (wire k))
    write_loop-Sent zero h path (x ∷ xs) k l = absurd (omega arith)
    write_loop-Sent (suc rounds) h path [] k l = sym (append-nil (wire k))
    write_loop-Sent (suc rounds) h path (x ∷ xs) k l =
        round-Sent rounds h path x xs (wire k) _ (omega arith)
          (λ ys k' m. write_loop-Sent rounds h path ys k' m)
          (mapped-Written path (wire k) (x ∷ xs) (sys.write h (x ∷ xs) k)
            (first-Written h (x ∷ xs) k (sys.write h (x ∷ xs) k) refl))

    -- On an open backend `send` ends, and with all of its bytes on the line, in their order, or with
    -- an exception and the bytes before some point there.
    pub win_send-Sent :
        (xs : List ℕ) (b : Windows K)
        → b.is_open ≡ true
        → let (r, after) = send sys host xs b in Sent (wire b.kernel) xs (r, after.kernel)
    unfolding send
    win_send-Sent xs b h =
        rw h (write_loop-Sent (length xs) b.handle b.path xs b.kernel (omega arith))
