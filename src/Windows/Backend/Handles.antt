-- ===== src/Windows/Backend/Handles.antt =====
-- Whose handles are open: what `open` and `aclose` of the Windows backend do to the process's table.
use anyserial.Base.{
  ◌⊎◌, inl, inr, some, ℕ, ◌≡◌, refl, sym, subst, ap, ◌∙◌, true, false, String, List, ◌∷◌,
  if◌then◌else◌, arith,
}
use anyserial.Errors.{Exn, Context, Result, ok, raise, is_os_error}
use anyserial.Config.{SerialConfig}
use anyserial.Posix.Kernel.{resume_with, handle, raising, suppressed, ◌>>=◌, ◌>>◌}
use anyserial.Posix.Kernel.Rules.{Keeps, bind-Keeps, then-Keeps}
use anyserial.Posix.Backend.Descriptors.{remove}
use anyserial.Windows.Errors.{WinErrors, winerror_to_exception}
use anyserial.Windows.Kernel32.{Kernel32}
use anyserial.Windows.Backend.Calls.{TracksHandles, FailsAsOsError, set_up-OsErrorsOnly}
use anyserial.Windows.Backend.{
  Windows, open_port, use_handle, finish_open, set_up, apply_dcb, or_abandon, abandon, mapped,
  ev_all_modem, tear_down, on_kernel, normalise_com_path,
}

module _ {K : Type 0} (sys : Kernel32 K) (host : WinErrors) (handles : K → List ℕ) where
  module _ (law : TracksHandles sys host handles) where
    set_up-Keeps : (h : ℕ) (c : SerialConfig) → Keeps handles (set_up sys host h c)
    unfolding set_up apply_dcb
    set_up-Keeps h c =
        then-Keeps handles _ _
          (then-Keeps handles _ _ (law.queueing h _ _)
            (bind-Keeps handles _ _ (law.getting h) (λ d. law.setting h _)))
          (law.timing h _)

    suppressed_ok :
        {S : Type 0} (x : Result (Unit {0}) × S)
        → ((e : Exn) → x.0 ≡ raise e → is_os_error e ≡ true)
        → suppressed x ≡ (ok tt, x.1)
    suppressed_ok (ok u, s) h = refl
    suppressed_ok (raise e, s) h = rw (h e refl)

    pub remove_first : (h : ℕ) (others : List ℕ) → remove h (h ∷ others) ≡ others
    remove_first h others = ground arith

    module _ (fails : FailsAsOsError sys host handles) where
      pub tear_down-closes :
          (h : ℕ) (k : K) → handles (tear_down sys host h k).1 ≡ remove h (handles k)
      unfolding tear_down ◌>>=◌
      tear_down-closes h k =
          let x = sys.set_comm_mask h 0 k in
          let y = sys.purge_comm h 15 x.1 in
          let z = sys.close_handle h y.1 in
          rw
            (
              suppressed_ok x (fails.mask_fails h 0 k),
              suppressed_ok y (fails.purge_fails h 15 x.1),
              suppressed_ok z (fails.close_fails h y.1),
            )
            (law.closes h y.1 ∙ ap (remove h) (law.purging h 15 x.1 ∙ law.masking h 0 k))

      pub tear_down_returns : (h : ℕ) (k : K) → (tear_down sys host h k).0 ≡ ok tt
      unfolding tear_down ◌>>=◌
      tear_down_returns h k =
          let x = sys.set_comm_mask h 0 k in
          let y = sys.purge_comm h 15 x.1 in
          rw
            (
              suppressed_ok x (fails.mask_fails h 0 k),
              suppressed_ok y (fails.purge_fails h 15 x.1),
              suppressed_ok (sys.close_handle h y.1) (fails.close_fails h y.1),
            )
            refl

      -- The handle is left open, after the runtime or `SetCommMask` refused it with that exception.
      abbrev pub IsLeft : List ℕ → Exn → Windows K → Type 0
      IsLeft before e b =
          (handles b.kernel ≡ b.handle ∷ before)
          × ((k : K) × (((sys.register b.handle k).0 ≡ raise e)
                ⊎ ((sys.set_comm_mask b.handle ev_all_modem k).0 ≡ raise e)))

      -- An open backend and its handle, or a closed one and the handles that were there, or a closed
      -- one and a handle that is left.
      abbrev pub Opened : List ℕ → Result (Unit {0}) × Windows K → Type 0
      Opened before (ok u, b) = (b.is_open ≡ true) × (handles b.kernel ≡ b.handle ∷ before)
      Opened before (raise e, b) =
          (b.is_open ≡ false) × ((handles b.kernel ≡ before) ⊎ IsLeft before e b)

      after_mask :
          (before : List ℕ) (c : SerialConfig) (b : Windows K) (k : K) (x : Result (Unit {0}) × K)
          → b.is_open ≡ false
          → x ≡ sys.set_comm_mask b.handle ev_all_modem k
          → handles k ≡ b.handle ∷ before
          → Opened before (
              resume_with {A = Unit {0}}
                (λ u d. (ok tt, record d { config = some c; is_open = true }))
                (x.0, record b { kernel = x.1 }))
      after_mask before c b k (ok u, k') o e q =
          (refl, ap (λ y. handles y.1) e ∙ law.masking b.handle ev_all_modem k ∙ q)
      after_mask before c b k (raise f, k') o e q = (
        o,
        inr (
          ap (λ y. handles y.1) e ∙ law.masking b.handle ev_all_modem k ∙ q,
          (k, inr (sym (ap (λ y. y.0) e))),
        ),
      )

      after_register :
          (before : List ℕ) (c : SerialConfig) (b : Windows K) (k : K) (x : Result (Unit {0}) × K)
          → b.is_open ≡ false
          → x ≡ sys.register b.handle k
          → handles k ≡ b.handle ∷ before
          → Opened before (
              resume_with {A = Unit {0}}
                (λ u d. (ok tt, record d { config = some c; is_open = true }))
                (resume_with {A = Unit {0}}
                  (λ u. on_kernel (sys.set_comm_mask b.handle ev_all_modem))
                  (x.0, record b { kernel = x.1 })))
      after_register before c b k (ok u, k') o e q =
          after_mask before c b k' (sys.set_comm_mask b.handle ev_all_modem k') o refl
            (ap (λ y. handles y.1) e ∙ law.registering b.handle k ∙ q)
      after_register before c b k (raise f, k') o e q = (
        o,
        inr (
          ap (λ y. handles y.1) e ∙ law.registering b.handle k ∙ q,
          (k, inl (sym (ap (λ y. y.0) e))),
        ),
      )

      finish_open-Opened :
          (before : List ℕ) (c : SerialConfig) (b : Windows K)
          → b.is_open ≡ false
          → handles b.kernel ≡ b.handle ∷ before
          → Opened before (finish_open sys host b.handle c b)
      unfolding finish_open ◌>>=◌
      finish_open-Opened before c b o q =
          after_register before c b b.kernel (sys.register b.handle b.kernel) o refl q

      -- The set-up failed: the handle is closed, and the backend stays closed.
      closed_again :
          (before : List ℕ) (path : String) (h : ℕ) (c : SerialConfig) (e : Exn) (b : Windows K)
          → b.is_open ≡ false
          → handles b.kernel ≡ h ∷ before
          → Opened before
              (resume_with (λ u. finish_open sys host h c) (abandon sys host path h e b))
      closed_again before path h c e b p q =
          let x = on_kernel (sys.close_handle h) b in
          subst
            (λ y. Opened before (
              resume_with {A = Unit {0}} (λ u. finish_open sys host h c)
                (resume_with
                  (λ u d. (
                    raise (winerror_to_exception host e Context.opening path),
                    record d { handle = 0; is_open = false },
                  ))
                  y)))
            (sym (suppressed_ok x (fails.close_fails h b.kernel)))
            (refl, inl (law.closes h b.kernel ∙ ap (remove h) q ∙ remove_first h before))

      set_up-Opened :
          (before : List ℕ) (path : String) (h : ℕ) (c : SerialConfig) (b : Windows K)
          (x : Result (Unit {0}) × K)
          → b.is_open ≡ false
          → handles x.1 ≡ h ∷ before
          → ((e : Exn) → x.0 ≡ raise e → is_os_error e ≡ true)
          → Opened before (
              resume_with
                (λ u. finish_open sys host h c)
                (or_abandon sys host path h (x.0, record b { handle = h; kernel = x.1 })))
      set_up-Opened before path h c b (ok u, k) p q f = finish_open-Opened before c _ p q
      set_up-Opened before path h c b (raise e, k) p q f =
          rw (f e refl) (closed_again before path h c e (record b { handle = h; kernel = k }) p q)

      -- A handle that `CreateFileW` gave, or none.
      abbrev Created : List ℕ → Result ℕ × K → Type 0
      Created before (ok h, k) = handles k ≡ h ∷ before
      Created before (raise e, k) = handles k ≡ before

      mapped-Created :
          (before : List ℕ) (path : String) (x : Result ℕ × K)
          → Created before x
          → Created before (
              handle is_os_error
                (λ e. raising (winerror_to_exception host e Context.opening path))
                x)
      unfolding handle
      mapped-Created before path (ok h, k) c = c
      mapped-Created before path (raise e, k) c = ground arith

      create-Created :
          (path : String) (k : K) (x : Result ℕ × K)
          → x ≡ sys.create_file path k
          → Created (handles k) x
      create-Created path k (ok h, k') e =
          ap (λ y. handles y.1) e ∙ law.creates path k h (sym (ap (λ y. y.0) e))
      create-Created path k (raise f, k') e =
          ap (λ y. handles y.1) e ∙ law.fails path k f (sym (ap (λ y. y.0) e))

      detected :
          (before : List ℕ) (path : String) (x : Result (Unit {0}) × K)
          → handles x.1 ≡ before
          → Created before (
              resume_with
                (λ u.
                  mapped sys host Context.opening path (sys.create_file (normalise_com_path path)))
                x)
      detected before path (raise e, k) h = h
      detected before path (ok u, k) h =
          mapped-Created before path (sys.create_file (normalise_com_path path) k) (
            subst (λ t. Created t (sys.create_file (normalise_com_path path) k)) h
              (create-Created (normalise_com_path path) k _ refl))

      taken :
          (before : List ℕ) (path : String) (c : SerialConfig) (b : Windows K) (x : Result ℕ × K)
          → b.is_open ≡ false
          → Created before x
          → Opened before (
              resume_with
                (use_handle sys host path c)
                (x.0, record b { path = path; kernel = x.1 }))
      unfolding use_handle
      taken before path c b (raise e, k) p q = (p, inl q)
      taken before path c b (ok h, k) p q =
          set_up-Opened before path h c (record b { path = path; kernel = k })
            (set_up sys host h c k) p (set_up-Keeps h c k ∙ q)
            (set_up-OsErrorsOnly sys host handles fails h c k)

      -- Where the calls of the set-up and of the closing fail only with an OSError: an `open` of a closed
      -- backend that returns leaves it open, with its handle in addition. One that raises leaves the
      -- backend closed and exactly the handles that were there, or else it raises what the runtime's
      -- registration or `SetCommMask` for the events raised, and its handle is still open.
      pub win_open-Opened :
          (path : String) (c : SerialConfig) (b : Windows K)
          → b.is_open ≡ false
          → Opened (handles b.kernel) (open_port sys host path c b)
      unfolding open_port ◌>>=◌
      win_open-Opened path c b h =
          let x = sys.detect_runtime b.kernel in
          subst
            (λ o. Opened (handles b.kernel) (
              if o
              then (raise Exn.runtime_error, b)
              else resume_with (use_handle sys host path c) (
                  on_kernel
                    (sys.detect_runtime
                      >> mapped sys host Context.opening path
                          (sys.create_file (normalise_com_path path)))
                    (record b { path = path }))))
            (sym h)
            (taken (handles b.kernel) path c b _ h
              (detected (handles b.kernel) path x (law.detecting b.kernel)))
