-- ===== src/Posix/Backend/Descriptors.antt =====
-- Whose descriptors are open: what each call of a POSIX backend does to the process's table.
use anyserial.Base.{
  ℕ, ◌==◌, ◌≡◌, refl, sym, subst, ap, ◌∙◌, Bool, true, false, not, String, List, [], ◌∷◌, ℤ, pos,
  negsuc, if◌then◌else◌, arith, is_negative,
}
use anyserial.Errors.{Exn, Result, ok, raise, is_blocking}
use anyserial.Config.{SerialConfig}
use anyserial.Backend.Protocol.{Call}
use anyserial.Posix.Kernel.{Kernel, pure, resume_with, ◌>>=◌}
use anyserial.Posix.Kernel.Rules.{Keeps, then-Keeps, handle-Keeps, if-Keeps}
use anyserial.Posix.Backend.{
  Posix, is_open, acquire_exclusive_lock, set_up, hand_out, open_fd, open_port, close, or_close,
  give_up, no_fd, on_kernel, keep,
}

abbrev pub remove : ℕ → List ℕ → List ℕ
remove fd [] = []
remove fd (x ∷ xs) = if x == fd then xs else x ∷ remove fd xs

module _ {K : Type 0} (sys : Kernel K) (descriptors : K → List ℕ) where
  -- Documented behaviour of the system: `open` adds the descriptor that it returns, and nothing
  -- when it fails; `close` takes the descriptor away also where it reports an error; `flock`
  -- does neither.
  pub record TracksDescriptors : Type 0 where
    pub opens :
        (path : String) (k : K) (fd : ℕ)
        → (sys.open_device path k).0 ≡ ok fd
        → descriptors (sys.open_device path k).1 ≡ fd ∷ descriptors k
    pub refuses :
        (path : String) (k : K) (e : Exn)
        → (sys.open_device path k).0 ≡ raise e
        → descriptors (sys.open_device path k).1 ≡ descriptors k
    pub closes : (fd : ℕ) (k : K) → descriptors (sys.close (pos fd) k).1 ≡ remove fd (descriptors k)
    pub locks : (fd : ℤ) → Keeps descriptors (sys.flock fd)

  -- The table of a process in which the backend has its descriptor, and `others` are open.
  abbrev pub table : ℤ → List ℕ → List ℕ
  table (pos fd) others = fd ∷ others
  table (negsuc n) others = others

  abbrev pub Owns : List ℕ → Posix K → Type 0
  Owns others b = descriptors b.kernel ≡ table b.fd others

  remove_first : (fd : ℕ) (others : List ℕ) → remove fd (fd ∷ others) ≡ others
  remove_first fd others = ground arith

  module _ (law : TracksDescriptors) where
    lock-Keeps : (fd : ℤ) (path : String) → Keeps descriptors (acquire_exclusive_lock sys fd path)
    unfolding acquire_exclusive_lock
    lock-Keeps fd path = handle-Keeps descriptors is_blocking _ _ (law.locks fd) (λ e k. refl)

    give_up-closes :
        (fd : ℕ) (e : Exn) (k : K)
        → descriptors (give_up sys {A = Unit {0}} (pos fd) e k).1 ≡ remove fd (descriptors k)
    give_up-closes fd e k = ground (arith, law.closes fd k)

    module _ (apply : ℤ → SerialConfig → Call K (Unit {0}))
        (kept : (fd : ℤ) (c : SerialConfig) → Keeps descriptors (apply fd c)) where
      set_up-Keeps :
          (fd : ℤ) (path : String) (c : SerialConfig)
          → Keeps descriptors (set_up sys apply fd path c)
      unfolding set_up
      set_up-Keeps fd path c =
          then-Keeps descriptors _ _
            (if-Keeps descriptors c.exclusive _ _ (lock-Keeps fd path) (λ k. refl)) (kept fd c)

      -- A descriptor that is handed out is the one that was opened; a failure leaves none behind.
      abbrev Acquired : List ℕ → Result ℕ × K → Type 0
      Acquired before (ok fd, k) = descriptors k ≡ fd ∷ before
      Acquired before (raise e, k) = descriptors k ≡ before

      closed_up :
          (before : List ℕ) (fd : ℕ) (x : Result (Unit {0}) × K)
          → descriptors x.1 ≡ fd ∷ before
          → Acquired before (resume_with (λ u. pure fd) (or_close sys (pos fd) x))
      closed_up before fd (ok u, k) h = h
      closed_up before fd (raise e, k) h = ground (arith, law.closes fd k)

      opened :
          (before : List ℕ) (path : String) (c : SerialConfig) (x : Result ℕ × K)
          → ((fd : ℕ) → x.0 ≡ ok fd → descriptors x.1 ≡ fd ∷ before)
          → ((e : Exn) → x.0 ≡ raise e → descriptors x.1 ≡ before)
          → Acquired before (resume_with (hand_out sys apply path c) x)
      unfolding hand_out
      opened before path c (raise e, k) p q = q e refl
      opened before path c (ok fd, k) p q =
          closed_up before fd (set_up sys apply (pos fd) path c k)
            (set_up-Keeps (pos fd) path c k ∙ p fd refl)

      open_fd-Acquired :
          (path : String) (c : SerialConfig) (k : K)
          → Acquired (descriptors k) (open_fd sys apply path c k)
      unfolding open_fd ◌>>=◌
      open_fd-Acquired path c k =
          opened (descriptors k) path c (sys.open_device path k) (law.opens path k)
            (law.refuses path k)

      closed_table :
          (others : List ℕ) (fd : ℤ) → not (is_negative fd) ≡ false → table fd others ≡ others
      closed_table others (pos n) h = ground arith
      closed_table others (negsuc n) h = refl

      pub closed-Owns :
          (others : List ℕ) (b : Posix K)
          → is_open b ≡ false
          → Owns others b
          → descriptors b.kernel ≡ others
      unfolding is_open
      closed-Owns others b q h = h ∙ closed_table others b.fd q

      kept_with :
          (others : List ℕ) (path : String) (c : SerialConfig) (b : Posix K) (x : Result ℕ × K)
          → is_open b ≡ false
          → Acquired others x
          → Owns others (keep sys apply path c b x).1
      unfolding is_open
      kept_with others path c b (ok fd, k) h a = a
      kept_with others path c b (raise e, k) h a = a ∙ sym (closed_table others b.fd h)

      -- Whatever fails on the way, and whichever way the platform's class configures a descriptor,
      -- an `open` leaves in the process exactly the descriptors that were there, and the one that
      -- the backend now holds if it holds one.
      pub open_port-Owns :
          (others : List ℕ) (path : String) (c : SerialConfig) (b : Posix K)
          → Owns others b
          → Owns others (open_port sys apply path c b).1
      unfolding open_port
      open_port-Owns others path c b h = split (is_open b) refl
        where
          split :
              (o : Bool)
              → is_open b ≡ o
              → Owns others
                  (if o
                    then (raise Exn.runtime_error, b)
                    else keep sys apply path c b (open_fd sys apply path c b.kernel)).1
          split true q = h
          split false q = kept_with others path c b (open_fd sys apply path c b.kernel) q (
              subst (λ fds. Acquired fds (open_fd sys apply path c b.kernel))
                (closed-Owns others b q h) (open_fd-Acquired path c b.kernel))

    -- A `close` gives the descriptor back and takes no other, also where `os.close` reports an error.
    pub close-Owns :
        (others : List ℕ) (b : Posix K)
        → Owns others b
        → descriptors (close sys b).1.kernel ≡ others
    unfolding close is_open
    close-Owns others b h = closing b.fd h
      where
        closing :
            (fd : ℤ)
            → descriptors b.kernel ≡ table fd others
            → descriptors
                (if not (is_negative fd)
                  then on_kernel (sys.close fd) (record b { fd = no_fd })
                  else (ok tt, b)).1.kernel
              ≡ others
        closing (pos fd) h = law.closes fd b.kernel ∙ ap (remove fd) h ∙ remove_first fd others
        closing (negsuc n) h = h
