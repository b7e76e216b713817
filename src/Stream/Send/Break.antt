-- ===== src/Stream/Send/Break.antt =====
-- `send_break` releases the BREAK however its sleep ends.
use anyserial.Base.{Bool, true, false, ◌≡◌, refl, arith}
use anyserial.Errors.{Exn, Result, ok, raise, is_os_error}
use anyserial.Config.{Seconds}
use anyserial.Backend.Protocol.{SyncBackend}
use anyserial.Stream.Port.{Port, Task, Wake, Outcome, finished, parked}
use anyserial.Stream.Send.{start_send_break, resume_send_break, slept}

module _ {B : Type 0} (be : SyncBackend B) where
  -- The documented behaviour of `set_break`: the line is as asked for when the call returns.
  pub record SwitchesBreak (asserted : B → Bool) : Type 0 where
    pub switched :
        (on : Bool) (b : B) (u : Unit {0})
        → (be.set_break on b).0 ≡ ok u
        → asserted (be.set_break on b).1 ≡ on

  -- What a break leaves behind: the guard is free, the line is released unless the backend
  -- refused, and a refusal with an OSError does not hide how the sleep ended; any other does.
  pub record Released (asserted : B → Bool) (refused : Result (Unit {0})) (k : Wake) (q : Port B)
      (o : Outcome) : Type 0 where
    pub guard_free : q.send_guard ≡ false
    pub line : (u : Unit {0}) → refused ≡ ok u → asserted q.backend ≡ false
    pub accepted : (u : Unit {0}) → refused ≡ ok u → o ≡ finished (slept k)
    pub suppressed : (e : Exn) → refused ≡ raise e → is_os_error e ≡ true → o ≡ finished (slept k)
    pub raised : (e : Exn) → refused ≡ raise e → is_os_error e ≡ false → o ≡ finished (raise e)

  release-Released :
      (asserted : B → Bool)
      → SwitchesBreak asserted
      → (k : Wake) (p : Port B)
      → let (q, o) = resume_send_break be k p in
        Released asserted (be.set_break false p.backend).0 k q o
  unfolding resume_send_break
  release-Released asserted law k p = record {
    guard_free = refl;
    line = λ u h. law.switched false p.backend u h;
    accepted = λ u h. ground arith;
    suppressed = λ e h o. ground arith;
    raised = λ e h o. ground arith;
  }

  parked_then :
      (d : Seconds) (p : Port B) (t : Task)
      → (start_send_break be d p).1 ≡ parked t
      → t ≡ Task.breaking d
  unfolding start_send_break
  parked_then d p t h = ground arith

  asserted_then :
      (asserted : B → Bool)
      → SwitchesBreak asserted
      → (d : Seconds) (p : Port B) (t : Task) → (start_send_break be d p).1 ≡ parked t
      → asserted (start_send_break be d p).0.backend ≡ true
  unfolding start_send_break
  asserted_then asserted law d p t h = ground (arith, law.switched true p.backend tt)

  -- On a backend whose `set_break` leaves the line as asked for: when `send_break` goes to sleep the
  -- line is asserted. Whatever happens to the port meanwhile, and however the sleep ends, the
  -- coroutine then ends, the send guard is free and the line has been released if the backend lets
  -- it. Where the release returns or fails with an OSError the caller sees how the sleep ended, and
  -- where it raises anything else, that.
  pub break-Released :
      (asserted : B → Bool)
      → SwitchesBreak asserted
      → (d : Seconds) (p : Port B) (t : Task) → (start_send_break be d p).1 ≡ parked t
      → (asserted (start_send_break be d p).0.backend ≡ true)
        × (t ≡ Task.breaking d)
        × ((k : Wake) (p' : Port B)
            → let (q, o) = resume_send_break be k p' in
              Released asserted (be.set_break false p'.backend).0 k q o)
  break-Released asserted law d p t h = (
    asserted_then asserted law d p t h,
    parked_then d p t h,
    λ k p'. release-Released asserted law k p',
  )
