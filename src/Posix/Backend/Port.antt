-- ===== src/Posix/Backend/Port.antt =====
-- A port over a POSIX backend: the descriptor after the port is closed.
use anyserial.Base.{ℕ, ◌≡◌, ◌∙◌, ap, some, false, List}
use anyserial.Errors.{Exn}
use anyserial.Backend.Protocol.{SyncBackend}
use anyserial.Posix.Kernel.{Kernel}
use anyserial.Posix.Backend.{Posix, close}
use anyserial.Posix.Backend.Descriptors.{TracksDescriptors, Owns, close-Owns}
use anyserial.Stream.Port.{Task, ready, threw}
use anyserial.Stream.Loop.{Event, wake, World, pull, step, run}
use anyserial.Stream.Loop.Exclusion.{count}
use anyserial.Stream.Loop.Closing.{close_is_final, lingers}

module _ {K : Type 0} (sys : Kernel K) (descriptors : K → List ℕ)
    (law : TracksDescriptors sys descriptors) where
  -- A port over a backend whose `close` is the one of the POSIX backend, with an `aclose` that waits
  -- for its turn at the lock. Where that wait is cancelled, the descriptors of the process are as
  -- they were. Where the turn comes on an open port, with no `drain_exact` and no `send_break` under
  -- way, the process has the descriptors `others` and no more, whatever is called or resumed later,
  -- and also where `os.close` reported an error.
  pub aclose_releases :
      (be : SyncBackend (Posix K)) (others : List ℕ) (w : World (Posix K)) (n : ℕ) (ts : List Task)
      (es : List Event)
      → be.close ≡ close sys
      → pull n w.tasks ≡ some (Task.close_turn, ts)
      → w.port.closed ≡ false
      → count lingers ts ≡ 0
      → Owns sys descriptors others w.port.backend
      → ((e : Exn)
          → descriptors (step be w (wake n (threw e))).port.backend.kernel
            ≡ descriptors w.port.backend.kernel)
        × (descriptors (run be (step be w (wake n ready)) es).port.backend.kernel ≡ others)
  aclose_releases be others w n ts es c t h l o =
      let (same, final) = close_is_final be w n ts es t h l in
      (
        λ e. ap (λ p. descriptors p.backend.kernel) (same e),
        ap (λ b. descriptors b.kernel) (final.1 ∙ ap (λ f. (f w.port.backend).1) c)
            ∙ close-Owns sys descriptors law others w.port.backend o,
      )
