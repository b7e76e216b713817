-- ===== src/Linux/Backend/Lifetime.antt =====
-- From before `open` to after `close`: the RS-485 structure of the driver.
use anyserial.Base.{
  ℕ, ◌≡◌, refl, ◌∙◌, Bool, true, false, String, Option, none, some, List, [], ◌∷◌, ℤ, pos,
  if◌then◌else◌, if_intro,
}
use anyserial.Errors.{Exn, Result, ok, raise, is_blocking, is_exception}
use anyserial.Config.{SerialConfig, Rs485Config}
use anyserial.Posix.Kernel.{pure, resume_with, ◌>>=◌}
use anyserial.Posix.Kernel.Rules.{
  Keeps, bind-Keeps, then-Keeps, handle-Keeps, if-Keeps, Preserves, resume_with-Preserves,
  bind-Preserves,
}
use anyserial.Posix.Backend.{
  Posix, Platform, is_open, open_fd, hand_out, set_up, acquire_exclusive_lock, or_close, keep,
  new_posix,
}
use anyserial.Posix.Backend
use anyserial.Linux.Kernel.{LinuxKernel}
use anyserial.Linux.Rs485.{Rs485State}
use anyserial.Linux.Backend.{
  Linux, on_posix, close, configure, apply_config_to_fd, open_port, tune, tuned_rs485, or_roll_back,
  rolled_back, new_linux, enable_low_latency,
}
use anyserial.Linux.Backend.Untouched.{Untouched, apply_config_to_fd-Keeps}
use anyserial.Linux.Backend.Remembers.{KeepsRs485, Holds, apply_rs485-Holds}
use anyserial.Linux.Backend.Restore.{Accepts, AsFound, close-AsFound, configure-Held}
use anyserial.Linux.Backend.Session.{session, after_open, reconfigured}

module _ {K : Type 0} (sys : LinuxKernel K) (host : Platform) (little : Bool)
    (view : K → Rs485State) where
  module _ (rest : Untouched sys view) where
    -- `open` of the POSIX backend.
    or_close-Keeps :
        (fd : ℤ) (x : Result (Unit {0}) × K) → view (or_close sys.posix fd x).1 ≡ view x.1
    or_close-Keeps fd (ok u, k) = refl
    or_close-Keeps fd (raise e, k) =
        resume_with-Preserves (λ t. view t ≡ view k) _ (sys.posix.close fd k) (rest.closing fd k)
          (λ u t h. h)

    set_up-Keeps :
        (fd : ℤ) (path : String) (c : SerialConfig)
        → Keeps view (set_up sys.posix (apply_config_to_fd sys host little) fd path c)
    unfolding set_up acquire_exclusive_lock
    set_up-Keeps fd path c =
        then-Keeps view _ _
          (if-Keeps view c.exclusive _ _
            (handle-Keeps view is_blocking _ _ (rest.locking fd) (λ e k. refl)) (λ k. refl))
          (apply_config_to_fd-Keeps sys view rest host little fd c)

    open_fd-Keeps :
        (path : String) (c : SerialConfig)
        → Keeps view (open_fd sys.posix (apply_config_to_fd sys host little) path c)
    unfolding open_fd hand_out
    open_fd-Keeps path c = bind-Keeps view _ _ (rest.opening path) (λ fd k.
        let x = set_up sys.posix (apply_config_to_fd sys host little) (pos fd) path c k in
        resume_with-Preserves (λ t. view t ≡ view k) _ (or_close sys.posix (pos fd) x)
          (or_close-Keeps (pos fd) x ∙ set_up-Keeps (pos fd) path c k) (λ u t h. h))

  module _ (law : KeepsRs485 sys little view) (rest : Untouched sys view) (original : Rs485State)
      (accepts : Accepts sys little view original) where
    abbrev Found : Linux K → Type 0
    Found = AsFound sys little view law host rest original accepts

    abbrev Held : ℕ → Linux K → Type 0
    Held = Holds sys little view law host rest original

    -- What `open` does once it has the descriptor, without low latency.
    tune-Held :
        (n : ℕ) (c : SerialConfig)
        → c.low_latency ≡ false
        → Preserves (Held n) (tune sys host little c)
    unfolding tune
    tune-Held n c e = bind-Preserves (Held n) _ _ (skipped c.low_latency e) (λ u. tuned c.rs485)
      where
        skipped :
            (low : Bool)
            → low ≡ false
            → Preserves
                (Held n)
                (if low then enable_low_latency sys host little c.unsupported_policy else pure tt)
        skipped true q = cc
        skipped false q = λ b h. h

        tuned :
            (o : Option Rs485Config)
            → Preserves (Held n) (tuned_rs485 sys host little o c.unsupported_policy)
        tuned none = λ b h. h
        tuned (some r) =
            apply_rs485-Holds sys little view law host rest original n r c.unsupported_policy

    -- What a caller of `open` has: an open backend, or the structure as it was.
    Opened : Result (Unit {0}) × Linux K → Type 0
    Opened (ok u, b) = (n : ℕ) × Held n b
    Opened (raise e, b) = Found b

    rolled_back-Opened :
        (e : Exn) (x : Result (Unit {0}) × Linux K) → Found x.1 → Opened (rolled_back e x)
    unfolding Opened
    rolled_back-Opened e (ok u, b) h = h
    rolled_back-Opened e (raise f, b) h = if_intro Opened (is_exception f) _ _ h h

    or_roll_back-Opened :
        (n : ℕ) (x : Result (Unit {0}) × Linux K)
        → Held n x.1
        → Opened (or_roll_back sys host little x)
    unfolding Opened
    or_roll_back-Opened n (ok u, b) h = (n, h)
    or_roll_back-Opened n (raise e, b) h =
        rolled_back-Opened e (close sys host little b)
          (close-AsFound sys little view law host rest original accepts n b h)

    kept-Opened :
        (path : String) (c : SerialConfig) (k : K) (x : Result ℕ × K)
        → c.low_latency ≡ false
        → view x.1 ≡ original
        → Opened (
            resume_with
              (λ u b. or_roll_back sys host little (tune sys host little c b))
              (on_posix
                (λ p. keep sys.posix (apply_config_to_fd sys host little) path c p x)
                (new_linux k)))
    unfolding Opened
    kept-Opened path c k (ok fd, k') e h = or_roll_back-Opened fd _ (
        tune-Held fd c e _
          (record { descriptor = refl; no_flags = refl; no_timer = refl; remembers = h }))
    kept-Opened path c k (raise f, k') e h = h

    open_port-Opened :
        (path : String) (c : SerialConfig) (k : K)
        → c.low_latency ≡ false
        → view k ≡ original
        → Opened (open_port sys host little path c (new_linux k))
    unfolding open_port Backend.open_port is_open ◌>>=◌
    open_port-Opened path c k e h =
        kept-Opened path c k (open_fd sys.posix (apply_config_to_fd sys host little) path c k) e
          (open_fd-Keeps rest path c k ∙ h)

    reconfigured-Held :
        (n : ℕ) (cs : List SerialConfig) (b : Linux K)
        → Held n b
        → Held n (reconfigured sys host little cs b)
    unfolding reconfigured
    reconfigured-Held n [] b h = h
    reconfigured-Held n (c ∷ cs) b h =
        reconfigured-Held n cs (configure sys host little c b).1
          (configure-Held sys little view law host rest original accepts n c b h)

    after_open-Found :
        (cs : List SerialConfig) (x : Result (Unit {0}) × Linux K)
        → Opened x
        → Found (after_open sys host little cs x)
    unfolding Opened
    after_open-Found cs (ok u, b) (n, h) =
        close-AsFound sys little view law host rest original accepts n
          (reconfigured sys host little cs b) (reconfigured-Held n cs b h)
    after_open-Found cs (raise e, b) h = h

  -- Where the driver takes its own RS-485 structure back, and no other call changes that: a backend
  -- that is opened without low latency, reconfigured any number of times and closed leaves the
  -- structure as it was before the `open`, whatever the configurations ask for and whichever of
  -- the calls raised, an `open` that fails included.
  pub session_restores_rs485 :
      (law : KeepsRs485 sys little view) (rest : Untouched sys view) (k : K)
      → Accepts sys little view (view k)
      → (path : String) (c : SerialConfig) (cs : List SerialConfig) → c.low_latency ≡ false
      → view (session sys host little path c cs k).posix.kernel ≡ view k
  unfolding session
  session_restores_rs485 law rest k accepts path c cs e =
      after_open-Found law rest (view k) accepts cs (open_port sys host little path c (new_linux k))
        (open_port-Opened law rest (view k) accepts path c k e refl)
