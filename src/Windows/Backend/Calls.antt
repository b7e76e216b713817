-- ===== src/Windows/Backend/Calls.antt =====
-- What the calls of Windows do to the handles of the process, and how they fail.
use anyserial.Base.{ℕ, ◌≡◌, true, String, List, ◌∷◌}
use anyserial.Errors.{Exn, Result, ok, raise, is_os_error}
use anyserial.Config.{SerialConfig}
use anyserial.Backend.Protocol.{Call}
use anyserial.Posix.Kernel.{resume_with, ◌>>=◌}
use anyserial.Posix.Kernel.Rules.{Keeps}
use anyserial.Posix.Backend.Descriptors.{remove}
use anyserial.Windows.Dcb.{Dcb}
use anyserial.Windows.Errors.{WinErrors}
use anyserial.Windows.Kernel32.{Kernel32}
use anyserial.Windows.Backend.{set_up, apply_dcb}

module _ {K : Type 0} (sys : Kernel32 K) (host : WinErrors) (handles : K → List ℕ) where
  -- Documented behaviour of the system: `CreateFileW` adds the handle that it returns, and nothing
  -- when it fails; `CloseHandle` takes the handle away; the other calls do neither.
  pub record TracksHandles : Type 0 where
    pub creates :
        (path : String) (k : K) (h : ℕ)
        → (sys.create_file path k).0 ≡ ok h
        → handles (sys.create_file path k).1 ≡ h ∷ handles k
    pub fails :
        (path : String) (k : K) (e : Exn)
        → (sys.create_file path k).0 ≡ raise e
        → handles (sys.create_file path k).1 ≡ handles k
    pub closes : (h : ℕ) (k : K) → handles (sys.close_handle h k).1 ≡ remove h (handles k)
    pub detecting : Keeps handles sys.detect_runtime
    pub queueing : (h n m : ℕ) → Keeps handles (sys.setup_comm h n m)
    pub getting : (h : ℕ) → Keeps handles (sys.get_comm_state h)
    pub setting : (h : ℕ) (d : Dcb) → Keeps handles (sys.set_comm_state h d)
    pub timing : (h : ℕ) (t : List ℕ) → Keeps handles (sys.set_comm_timeouts h t)
    pub masking : (h m : ℕ) → Keeps handles (sys.set_comm_mask h m)
    pub purging : (h m : ℕ) → Keeps handles (sys.purge_comm h m)
    pub registering : (h : ℕ) → Keeps handles (sys.register h)

  -- The call raises nothing but an OSError.
  abbrev pub OsErrorsOnly : {A : Type 0} → Call K A → Type 0
  OsErrorsOnly call = (k : K) (e : Exn) → (call k).0 ≡ raise e → is_os_error e ≡ true

  -- How the calls of the set-up and of the closing fail: with an OSError.
  pub record FailsAsOsError : Type 0 where
    pub setup_fails : (h n m : ℕ) → OsErrorsOnly (sys.setup_comm h n m)
    pub get_fails : (h : ℕ) → OsErrorsOnly (sys.get_comm_state h)
    pub set_fails : (h : ℕ) (d : Dcb) → OsErrorsOnly (sys.set_comm_state h d)
    pub timeouts_fail : (h : ℕ) (t : List ℕ) → OsErrorsOnly (sys.set_comm_timeouts h t)
    pub close_fails : (h : ℕ) → OsErrorsOnly (sys.close_handle h)
    pub mask_fails : (h m : ℕ) → OsErrorsOnly (sys.set_comm_mask h m)
    pub purge_fails : (h m : ℕ) → OsErrorsOnly (sys.purge_comm h m)

  resumed-OsErrorsOnly :
      {A B : Type 0} (rest : A → Call K B) (x : Result A × K) (e : Exn)
      → ((g : Exn) → x.0 ≡ raise g → is_os_error g ≡ true)
      → ((a : A) → OsErrorsOnly (rest a))
      → (resume_with rest x).0 ≡ raise e
      → is_os_error e ≡ true
  resumed-OsErrorsOnly rest (ok a, k) e p q h = q a k e h
  resumed-OsErrorsOnly rest (raise g, k) e p q h = p e (cc)

  bind-OsErrorsOnly :
      {A B : Type 0} (call : Call K A) (rest : A → Call K B)
      → OsErrorsOnly call
      → ((a : A) → OsErrorsOnly (rest a))
      → OsErrorsOnly (call >>= rest)
  unfolding ◌>>=◌
  bind-OsErrorsOnly call rest p q k e h = resumed-OsErrorsOnly rest (call k) e (p k) q h

  pub set_up-OsErrorsOnly :
      FailsAsOsError → (h : ℕ) (c : SerialConfig) → OsErrorsOnly (set_up sys host h c)
  unfolding set_up apply_dcb
  set_up-OsErrorsOnly fails h c =
      bind-OsErrorsOnly _ _
        (bind-OsErrorsOnly _ _ (fails.setup_fails h _ _)
          (λ _. bind-OsErrorsOnly _ _ (fails.get_fails h) (λ d. fails.set_fails h _)))
        (λ _. fails.timeouts_fail h _)
