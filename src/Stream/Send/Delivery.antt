-- ===== src/Stream/Send/Delivery.antt =====
-- What a `send` puts on the wire, whatever happens while it is parked.
use anyserial.Base.{
  ℕ, ◌≡◌, refl, sym, ap, ◌∙◌, List, [], ◌∷◌, ◌++◌, take, drop, take-append-drop, ℤ, if_intro,
}
use mathlib.Core.List.{append_assoc, append-nil}
use anyserial.Errors.{Result, ok, raise, is_retry}
use anyserial.Backend.Protocol.{SyncBackend, WritesFromFront}
use anyserial.Stream.Port.{Port, Task, Wake, ready, threw, Outcome, finished, parked}
use anyserial.Stream.Send.{start_send, resume_send, send_loop, after_write}

module _ {B : Type 0} (be : SyncBackend B) where
  -- What the other coroutines do to the port while the send is parked, and how it is woken then.
  abbrev pub Turn : Type 0
  Turn = (Port B → Port B) × Wake

  -- The send is resumed at each turn until it ends.
  unfoldable pub attend : List Turn → Port B × Outcome → Port B × Outcome
  attend [] x = x
  attend (turn ∷ turns) (p, parked (Task.sending rest fd)) =
      attend turns (resume_send be rest fd turn.1 (turn.0 p))
  attend (turn ∷ turns) x = x

  module _ (wire : B → List ℕ) where
    -- The others write nothing: the send guard is held.
    abbrev pub LeaveWire : List Turn → Type 0
    LeaveWire [] = Unit
    LeaveWire (turn ∷ turns) =
        ((p : Port B) → wire (turn.0 p).backend ≡ wire p.backend) × LeaveWire turns

    -- `rest` is still to go: what came before it went out, once and in order.
    pub record Sent (before xs rest : List ℕ) (p : Port B) : Type 0 where
      pub sent : List ℕ
      pub went : wire p.backend ≡ before ++ sent
      pub whole : sent ++ rest ≡ xs

    -- A send that returned has sent everything, and one that raised, or waits, a prefix.
    abbrev pub Delivered : List ℕ → List ℕ → Port B × Outcome → Type 0
    Delivered before xs (p, finished (ok r)) = wire p.backend ≡ before ++ xs
    Delivered before xs (p, finished (raise e)) = (rest : List ℕ) × Sent before xs rest p
    Delivered before xs (p, parked (Task.sending rest fd)) = Sent before xs rest p
    Delivered before xs (p, parked t) = ⊥

    module _ (law : WritesFromFront be wire) (before xs : List ℕ) where
      send_loop-Delivered :
          (rest : List ℕ) (fd : ℤ) (p : Port B)
          → Sent before xs rest p
          → Delivered before xs (send_loop be rest fd p)
      unfolding send_loop
      send_loop-Delivered [] fd p s =
          s.went ∙ ap (λ (l : List ℕ). before ++ l) (sym (append-nil s.sent) ∙ s.whole)
      send_loop-Delivered (x ∷ rest) fd p s = s

      after_write-Delivered :
          (rest : List ℕ) (fd : ℤ) (p : Port B) (r : Result ℕ)
          → Sent before xs rest p
          → (be.write_nonblocking rest p.backend).0 ≡ r
          → Delivered before xs (
              after_write be rest fd
                (record p { backend = (be.write_nonblocking rest p.backend).1 })
                r)
      unfolding after_write
      after_write-Delivered rest fd p (ok n) s h =
          let q = record p { backend = (be.write_nonblocking rest p.backend).1 } in
          send_loop-Delivered (drop n rest) fd q (record {
            sent = s.sent ++ take n rest;
            went =
                (law.accepted rest p.backend n h).1
                ∙ ap (λ (l : List ℕ). l ++ take n rest) s.went
                ∙ append_assoc before s.sent (take n rest);
            whole =
                append_assoc s.sent (take n rest) (drop n rest)
                ∙ ap (λ (l : List ℕ). s.sent ++ l) (take-append-drop n rest)
                ∙ s.whole;
          })
      after_write-Delivered rest fd p (raise e) s h =
          let went = law.refused rest p.backend e h ∙ s.went in
          let sent = s.sent in
          let whole = s.whole in
          if_intro (Delivered before xs) (is_retry e) _ _
            (record { sent = sent; went = went; whole = whole })
            (rest, (record { sent = sent; went = went; whole = whole }))

      resume_send-Delivered :
          (rest : List ℕ) (fd : ℤ) (k : Wake) (p : Port B)
          → Sent before xs rest p
          → Delivered before xs (resume_send be rest fd k p)
      unfolding resume_send
      resume_send-Delivered rest fd (threw e) p s =
          (rest, (record { sent = s.sent; went = s.went; whole = s.whole }))
      resume_send-Delivered rest fd ready p s =
          if_intro (Delivered before xs) p.closed _ _
            (rest, (record { sent = s.sent; went = s.went; whole = s.whole }))
            (after_write-Delivered rest fd p (be.write_nonblocking rest p.backend).0 s refl)

      attend-Delivered :
          (turns : List Turn) (x : Port B × Outcome)
          → LeaveWire turns
          → Delivered before xs x
          → Delivered before xs (attend turns x)
      unfolding attend
      attend-Delivered [] x w d = d
      attend-Delivered (turn ∷ turns) (p, parked (Task.sending rest fd)) w d =
          attend-Delivered turns (resume_send be rest fd turn.1 (turn.0 p)) w.1 (
            resume_send-Delivered rest fd turn.1 (turn.0 p)
              (record { sent = d.sent; went = w.0 p ∙ d.went; whole = d.whole }))
      attend-Delivered (turn ∷ turns) (p, finished (ok r)) w d = d
      attend-Delivered (turn ∷ turns) (p, finished (raise e)) w d = d
      attend-Delivered (turn ∷ turns) (p, parked t) w d = elim d [ ]

  start_send-Delivered :
      (wire : B → List ℕ) (xs : List ℕ) (p : Port B)
      → Delivered wire (wire p.backend) xs (start_send be xs p)
  unfolding start_send
  start_send-Delivered wire [] p =
      if_intro (Delivered wire (wire p.backend) []) p.closed _ _
        ([], (record { sent = []; went = sym (append-nil _); whole = refl })) (sym (append-nil _))
  start_send-Delivered wire (x ∷ xs) p =
      if_intro (Delivered wire (wire p.backend) (x ∷ xs)) p.send_guard _ _
        (x ∷ xs, (record { sent = []; went = sym (append-nil _); whole = refl }))
        (if_intro (Delivered wire (wire p.backend) (x ∷ xs)) p.closed _ _
          (x ∷ xs, (record { sent = []; went = sym (append-nil _); whole = refl }))
          (record { sent = []; went = sym (append-nil _); whole = refl }))

  -- A backend takes bytes from the front of what it is given, as many as it says. However often
  -- it takes less than all of it, or nothing, or asks to be tried again, and whatever else the
  -- event loop runs in between that does not write: a `send` that returns has put its bytes on
  -- the wire exactly once and in order, after those that were there; and where it raises or
  -- still waits, exactly a prefix of them.
  pub attend-start_send :
      (wire : B → List ℕ)
      → WritesFromFront be wire
      → (xs : List ℕ) (p : Port B) (turns : List Turn) → LeaveWire wire turns
      → Delivered wire (wire p.backend) xs (attend turns (start_send be xs p))
  attend-start_send wire law xs p turns w =
      attend-Delivered wire law (wire p.backend) xs turns (start_send be xs p) w
        (start_send-Delivered wire xs p)
