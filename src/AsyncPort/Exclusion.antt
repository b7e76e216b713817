-- ===== src/AsyncPort/Exclusion.antt =====
-- The guards and the locks: at most one coroutine is in each kind of await.
use anyserial.Base.{
  ℕ, zero, suc, ◌+◌, ◌≡◌, refl, false, Option, none, some, List, [], ◌∷◌, ℤ, arith,
}
use anyserial.Errors.{Result, ok, raise}
use anyserial.Backend.Asynchronous.{AsyncBackend}
use anyserial.Stream.Loop.Exclusion.{held}
use anyserial.AsyncPort.{AsyncPort, Pending, Progress, finished, parked, sized}
use anyserial.AsyncPort.Loop.{AsyncWorld, pull}

abbrev pub receives : Pending → ℕ
receives (Pending.receiving n) = 1
receives (Pending.receiving_into buffer) = 1
receives _ = 0

abbrev pub sends : Pending → ℕ
sends (Pending.sending xs) = 1
sends Pending.draining = 1
sends (Pending.breaking d) = 1
sends _ = 0

abbrev pub configures : Pending → ℕ
configures (Pending.configuring c) = 1
configures _ = 0

abbrev pub closes : Pending → ℕ
closes Pending.closing = 1
closes _ = 0

abbrev pub count : (Pending → ℕ) → List Pending → ℕ
count f [] = 0
count f (t ∷ ts) = f t + count f ts

abbrev pub of_progress : (Pending → ℕ) → Progress → ℕ
of_progress f (parked t) = f t
of_progress f (finished r) = 0

-- What `pull` takes out and what it leaves, counted.
abbrev pub Accounts : (Pending → ℕ) → ℕ → Option (Pending × List Pending) → Type 0
Accounts f total none = Unit
Accounts f total (some (t, us)) = total ≡ f t + count f us

pull_under :
    (f : Pending → ℕ) (x : Pending) (total : ℕ) (o : Option (Pending × List Pending))
    → Accounts f total o
    → Accounts f (f x + total) (elim o [ none ↦ none | some (u, us) ↦ some (u, x ∷ us) ])
pull_under f x total none h = tt
pull_under f x total (some (u, us)) h = omega arith

pub pull-Accounts :
    (f : Pending → ℕ) (n : ℕ) (ts : List Pending) → Accounts f (count f ts) (pull n ts)
unfolding pull
pull-Accounts f zero [] = tt
pull-Accounts f (suc n) [] = tt
pull-Accounts f zero (x ∷ ts) = refl
pull-Accounts f (suc n) (x ∷ ts) = pull_under f x (count f ts) (pull n ts) (pull-Accounts f n ts)

module _ {B : Type 0} (be : AsyncBackend B) where
  -- A call takes what guards an await exactly if it parks there.
  abbrev Balanced : AsyncPort B → AsyncPort B × Progress → Type 0
  Balanced p (q, o) =
      (held q.receive_guard ≡ held p.receive_guard + of_progress receives o)
      × (held q.send_guard ≡ held p.send_guard + of_progress sends o)
      × (held q.configure_lock ≡ held p.configure_lock + of_progress configures o)
      × (held q.close_lock ≡ held p.close_lock + of_progress closes o)

  sized-Balanced :
      (limit : Option ℤ) (p : AsyncPort B) (x : Result ℕ × B)
      → p.receive_guard ≡ false
      → Balanced p (sized be limit p x)
  sized-Balanced limit p (ok n, b) h = ground arith
  sized-Balanced limit p (raise e, b) h = ground arith

  -- The end of an await gives up what guarded it.
  abbrev Released : Pending → AsyncPort B → AsyncPort B × Progress → Type 0
  Released t p (q, o) =
      (held q.receive_guard + receives t ≡ held p.receive_guard + of_progress receives o)
      × (held q.send_guard + sends t ≡ held p.send_guard + of_progress sends o)
      × (held q.configure_lock + configures t ≡ held p.configure_lock + of_progress configures o)
      × (held q.close_lock + closes t ≡ held p.close_lock + of_progress closes o)

-- Each guard and each lock is held exactly while one coroutine is in an await under it.
pub record IsExclusive {B : Type 0} (w : AsyncWorld B) : Type 0 where
  pub one_receiver : count receives w.tasks ≡ held w.port.receive_guard
  pub one_sender : count sends w.tasks ≡ held w.port.send_guard
  pub one_configuration : count configures w.tasks ≡ held w.port.configure_lock
  pub one_closing : count closes w.tasks ≡ held w.port.close_lock
