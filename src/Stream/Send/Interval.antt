-- ===== src/Stream/Send/Interval.antt =====
-- How long `drain` sleeps between two looks at the queue.
use anyserial.Base.{ℕ, ◌*◌, ◌≤◌, ◌<◌, arith}
use anyserial.Stream.Send.{drain_interval, min_drain_ms, max_drain_ms}

-- The sleep that a queue of so many bytes at that rate gets.
pub record IsInterval (pending bps above below : ℕ) : Type 0 where
  pub is_fraction : 0 < below
  pub at_least : min_drain_ms * below ≤ above * 1000
  pub at_most : above * 1000 ≤ max_drain_ms * below
  pub not_short : pending * 1000 ≤ max_drain_ms * bps → pending * below ≤ above * bps
  pub not_long : min_drain_ms * bps ≤ pending * 1000 → above * bps ≤ pending * below

-- At a positive rate, `drain` sleeps between 1 and 50 milliseconds at a time; no shorter than the
-- queue takes to go out unless that is more than the maximum, and no longer unless that is less
-- than the minimum.
pub drain_interval-IsInterval :
    (pending bps : ℕ)
    → 0 < bps
    → let (above, below) = drain_interval pending bps in IsInterval pending bps above below
unfolding drain_interval
drain_interval-IsInterval pending bps h = record {
  is_fraction = ground arith;
  at_least = ground arith;
  at_most = ground arith;
  not_short = λ s. ground arith;
  not_long = λ s. ground arith;
}
