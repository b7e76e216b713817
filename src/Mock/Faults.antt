-- ===== src/Mock/Faults.antt =====
-- What an injected fault does to a `receive`.
use anyserial.Base.{ℕ, zero, suc, ◌+◌, ◌≡◌, refl, false, arith, ℤ}
use anyserial.Errors.{is_retry}
use anyserial.Backend.Protocol.{SyncBackend}
use anyserial.Stream.Port.{Port, Task, ready, Outcome, parked}
use anyserial.Stream.Receive.{resume_receive, read_step, after_read}
use anyserial.Mock.{Socket, Mock, mock_backend, read_nonblocking}

-- A `receive` resumed at so many readable events, until it ends.
unfoldable pub attend_receive :
    {B : Type 0} → SyncBackend B → ℕ → Port B × Outcome → Port B × Outcome
attend_receive be zero x = x
attend_receive be (suc k) (p, parked (Task.receiving n fd)) =
    attend_receive be k (resume_receive be n fd ready p)
attend_receive be (suc k) x = x

module _ {S : Type 0} (io : Socket S) (fuel : S → ℕ) where
  -- A port on a mock with that many reads to fail.
  abbrev pub failing : Port (Mock S) → ℕ → ℕ → Port (Mock S)
  failing p i a =
      let s = p.backend.this in
      record p {
        backend = (record p.backend {
          this = (record s { faults = (record s.faults { eintr_reads = i; eagain_reads = a }) });
        });
      }

  -- No fault that ends a read is active.
  pub record IsHarmless (p : Port (Mock S)) : Type 0 where
    pub opened : p.closed ≡ false
    pub no_eio : p.backend.this.faults.raise_eio_on_read ≡ false
    pub no_parity : p.backend.this.faults.parity_errors ≡ 0
    pub connected : p.backend.this.faults.disconnected ≡ false

  interrupted :
      (p : Port (Mock S)) (i a n : ℕ) (fd : ℤ)
      → IsHarmless p
      → resume_receive (mock_backend io fuel) n fd ready (failing p (suc i) a)
        ≡ (failing p i a, parked (Task.receiving n fd))
  unfolding resume_receive read_step after_read read_nonblocking is_retry
  interrupted p i a n fd h = ground (arith, h.opened, h.no_eio, h.no_parity, h.connected)

  blocked :
      (p : Port (Mock S)) (a n : ℕ) (fd : ℤ)
      → IsHarmless p
      → resume_receive (mock_backend io fuel) n fd ready (failing p 0 (suc a))
        ≡ (failing p 0 a, parked (Task.receiving n fd))
  unfolding resume_receive read_step after_read read_nonblocking is_retry
  blocked p a n fd h = ground (arith, h.opened, h.no_eio, h.no_parity, h.connected)

  delayed :
      (p : Port (Mock S)) (i a k n c : ℕ) (fd : ℤ)
      → IsHarmless p
      → c ≡ i + (a + k)
      → attend_receive (mock_backend io fuel) c (failing p i a, parked (Task.receiving n fd))
        ≡ attend_receive (mock_backend io fuel) k (failing p 0 0, parked (Task.receiving n fd))
  unfolding attend_receive
  delayed p zero zero k n c fd h e = (let same : c ≡ k = omega arith in rw same refl)
  delayed p zero (suc a) k n zero fd h e = absurd (omega arith)
  delayed p zero (suc a) k n (suc c) fd h e =
      rw (blocked p a n fd h) (delayed p zero a k n c fd h (omega arith))
  delayed p (suc i) a k n zero fd h e = absurd (omega arith)
  delayed p (suc i) a k n (suc c) fd h e =
      rw (interrupted p i a n fd h) (delayed p i a k n c fd h (omega arith))

  -- On an open port over a mock with no fault active that ends a read, reads that are to be interrupted or to block, however many of
  -- each, only delay a `receive`: it parks again with the same arguments at each of them, and then
  -- goes on exactly as it would without them.
  pub attend_receive-delayed :
      (p : Port (Mock S)) (i a k n : ℕ) (fd : ℤ)
      → IsHarmless p
      → attend_receive
          (mock_backend io fuel)
          (i + (a + k))
          (failing p i a, parked (Task.receiving n fd))
        ≡ attend_receive (mock_backend io fuel) k (failing p 0 0, parked (Task.receiving n fd))
  attend_receive-delayed p i a k n fd h = delayed p i a k n (i + (a + k)) fd h refl
