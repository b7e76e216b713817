-- ===== src/Stream/Send/Progress.antt =====
-- A `send` ends: each turn of an open port takes at least one byte off the rest.
use anyserial.Base.{
  ℕ, zero, suc, ◌≤◌, ◌≡◌, refl, true, false, List, [], ◌∷◌, length, drop, length-drop, arith, ℤ,
}
use native.Mathlib.Nat.{le_refl}
use anyserial.Errors.{Result, ok}
use anyserial.Backend.Protocol.{SyncBackend}
use anyserial.Stream.Port.{Port, ready, Reply, finished}
use anyserial.Stream.Send.{start_send, resume_send, send_loop}
use anyserial.Stream.Send.Delivery.{Turn, attend}

module _ {B : Type 0} (be : SyncBackend B) where
  -- In the states in which it is writable, a backend takes something of what it is given, and is
  -- writable again.
  pub record TakesSome (Writable : B → Type 0) : Type 0 where
    pub some_of :
        (x : ℕ) (xs : List ℕ) (b : B)
        → Writable b
        → (n : ℕ) × ((be.write_nonblocking (x ∷ xs) b).0 ≡ ok (suc n))
    pub still :
        (x : ℕ) (xs : List ℕ) (b : B) → Writable b → Writable (be.write_nonblocking (x ∷ xs) b).1

  -- So many turns in which the port is found writable and nothing else runs.
  abbrev pub ready_turns : ℕ → List (Turn {B = B} be)
  ready_turns zero = []
  ready_turns (suc n) = (λ p. p, ready) ∷ ready_turns n

  attend-finished :
      (turns : List (Turn be)) (p : Port B) (r : Result Reply)
      → attend be turns (p, finished r) ≡ (p, finished r)
  unfolding attend
  attend-finished [] p r = refl
  attend-finished (turn ∷ turns) p r = refl

  -- One turn of an open port takes what the backend takes off the rest.
  turn_taken :
      (rest : List ℕ) (fd : ℤ) (p : Port B) (n : ℕ)
      → p.closed ≡ false
      → (be.write_nonblocking rest p.backend).0 ≡ ok n
      → resume_send be rest fd ready p
        ≡ send_loop be
            (drop n rest)
            fd
            (record p { backend = (be.write_nonblocking rest p.backend).1 })
  unfolding resume_send
  turn_taken rest fd p n h e = ground arith

  module _ (Writable : B → Type 0) (law : TakesSome Writable) where
    -- With as many turns as there are bytes left, or more, the loop ends with the last byte.
    attend_ends :
        (n : ℕ) (rest : List ℕ) (fd : ℤ) (p : Port B)
        → length rest ≤ n
        → p.closed ≡ false
        → Writable p.backend
        → (attend be (ready_turns n) (send_loop be rest fd p)).1 ≡ finished (ok Reply.nothing)
    unfolding attend send_loop
    attend_ends n [] fd p h open_still w = rw attend-finished
    attend_ends zero (x ∷ rest) fd p h open_still w = absurd (omega arith)
    attend_ends (suc n) (x ∷ rest) fd p h open_still w =
        let (taken, e) = law.some_of x rest p.backend w in
        let b = (be.write_nonblocking (x ∷ rest) p.backend).1 in
        rw (turn_taken (x ∷ rest) fd p (suc taken) open_still e) (
          attend_ends n (drop taken rest) fd (record p { backend = b })
            (omega (arith, length-drop taken rest)) open_still (law.still x rest p.backend w))

  started :
      (x : ℕ) (xs : List ℕ) (p : Port B)
      → p.closed ≡ false
      → p.send_guard ≡ false
      → start_send be (x ∷ xs) p
        ≡ send_loop be (x ∷ xs) (be.fileno p.backend) (record p { send_guard = true })
  unfolding start_send send_loop
  started x xs p h g = ground arith

  -- A backend that is writable takes at least one byte of a write and is writable again: on such a
  -- backend, a `send` on an open port whose send guard is free returns without an error, after no
  -- more turns than it has bytes.
  pub send_ends :
      (Writable : B → Type 0)
      → TakesSome Writable
      → (xs : List ℕ) (p : Port B) → p.closed ≡ false
      → Writable p.backend
      → p.send_guard ≡ false
      → (attend be (ready_turns (length xs)) (start_send be xs p)).1 ≡ finished (ok Reply.nothing)
  unfolding start_send send_loop attend
  send_ends Writable law [] p h w g = ground arith
  send_ends Writable law (x ∷ xs) p h w g =
      let q = record p { send_guard = true } in
      rw (started x xs p h g) (
        attend_ends Writable law (length (x ∷ xs)) (x ∷ xs) (be.fileno p.backend) q (le_refl _) h w)
