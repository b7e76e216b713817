-- ===== src/Linux/Backend/Restore.antt =====
-- The RS-485 structure of the driver is what it was, once the backend is closed.
use anyserial.Base.{
  ℕ, ◌≡◌, refl, sym, ap, ◌∙◌, subst, Bool, true, not, Option, none, some, List, pos, if◌then◌else◌,
  if_intro, is_negative,
}
use anyserial.Types.{UnsupportedPolicy}
use anyserial.Errors.{Result, ok, raise}
use anyserial.Config.{SerialConfig, Rs485Config}
use anyserial.Posix.Kernel.{pure, ◌>>=◌, suppressed}
use anyserial.Posix.Kernel.Rules.{
  Preserves, resume_with-Preserves, bind-Preserves, suppressed-Preserves,
}
use anyserial.Posix.Backend.{
  Posix, Platform, is_open, open_fd, hand_out, set_up, acquire_exclusive_lock, or_close, keep,
  keep_config,
}
use anyserial.Posix.Backend
use anyserial.Linux.Kernel.{LinuxKernel}
use anyserial.Linux.Rs485.{Rs485State, tiocsrs485, to_bytes, write_rs485, write_packed, written}
use anyserial.Linux.Backend.{
  Linux, on_sys, on_posix, assign, restore_originals, restore_low_latency, restore_flags,
  restore_timer, restore_rs485, close, configure, reconfigure_rs485, apply_config_to_fd,
}
use anyserial.Linux.Backend.Untouched.{Untouched, apply_config_to_fd-Keeps}
use anyserial.Linux.Backend.Remembers.{KeepsRs485, Remembers, Holds, carry, apply_rs485-Holds}

module _ {K : Type 0} (sys : LinuxKernel K) (little : Bool) (view : K → Rs485State) where
  -- The structure can be written back: it has bytes, and TIOCSRS485 on an open descriptor takes
  -- them.
  pub record Accepts (original : Rs485State) : Type 0 where
    pub payload : List ℕ
    pub packs : to_bytes little original ≡ ok payload
    pub takes :
        (fd : ℕ) (k : K) → (r : List ℕ) × ((sys.ioctl_bytes (pos fd) tiocsrs485 payload k).0 ≡ ok r)

  module _ (law : KeepsRs485 sys little view) (host : Platform) (rest : Untouched sys view)
      (original : Rs485State) (accepts : Accepts original) where
    abbrev pub AsFound : Linux K → Type 0
    AsFound b = view b.posix.kernel ≡ original

    written_state : (x : Result (List ℕ) × K) → (written x).1 ≡ x.1
    written_state (ok r, k) = refl
    written_state (raise e, k) = refl

    write_back :
        (fd : ℕ) (k : K)
        → view (write_rs485 sys.ioctl_bytes little (pos fd) original k).1 ≡ original
    unfolding write_rs485 write_packed
    write_back fd k =
        let (r, p) = accepts.takes fd k in
        let done = law.puts (pos fd) original accepts.payload k r accepts.packs p in
        rw accepts.packs
          (ap view (written_state (sys.ioctl_bytes (pos fd) tiocsrs485 accepts.payload k)) ∙ done)

    module _ (n : ℕ) where
      abbrev pub Held : Linux K → Type 0
      Held = Holds sys little view law host rest original n

      restore_rs485-AsFound :
          (saved : Option Rs485State) (b : Linux K)
          → Remembers sys little view law host rest original saved b.posix.kernel
          → AsFound (restore_rs485 sys host little (pos n) saved b).1
      unfolding restore_rs485
      restore_rs485-AsFound none b h = h
      restore_rs485-AsFound (some s) b h =
          suppressed-Preserves AsFound
            (on_sys (write_rs485 sys.ioctl_bytes little (pos n) s)
              (record b { saved_rs485 = none }))
            (rw h (write_back n b.posix.kernel))

      nothing_to_restore :
          (b : Linux K) → Held b → restore_low_latency sys host little (pos n) b ≡ (ok tt, b)
      unfolding restore_low_latency ◌>>=◌ restore_flags restore_timer
      nothing_to_restore b h = rw (h.no_flags, h.no_timer)

      restore_originals-AsFound :
          (b : Linux K) → Held b → AsFound (restore_originals sys host little (pos n) b).1
      unfolding restore_originals ◌>>=◌
      restore_originals-AsFound b h =
          rw (nothing_to_restore b h) (restore_rs485-AsFound b.saved_rs485 b h.remembers)

      descriptor_closed : Preserves AsFound (on_posix (Backend.close sys.posix))
      unfolding Backend.close
      descriptor_closed b h =
          if_intro (λ (x : Result (Unit {0}) × Posix K). view x.1.kernel ≡ original)
            (is_open b.posix) _ _ (rest.closing b.posix.fd b.posix.kernel ∙ h) h

      is_open_lem : (b : Linux K) → b.posix.fd ≡ pos n → is_open b.posix ≡ true
      unfolding is_open
      is_open_lem b h = ap (λ fd. not (is_negative fd)) h

      pub close-AsFound : (b : Linux K) → Held b → AsFound (close sys host little b).1
      unfolding close ◌>>=◌
      close-AsFound b h =
          resume_with-Preserves AsFound _
            ((if is_open b.posix then restore_originals sys host little b.posix.fd else pure tt) b)
            (subst
              (λ o.
                AsFound ((if o then restore_originals sys host little b.posix.fd else pure tt) b).1)
              (sym (is_open_lem b h.descriptor))
              (subst (λ fd. AsFound (restore_originals sys host little fd b).1) (sym h.descriptor)
                (restore_originals-AsFound b h)))
            (λ u. descriptor_closed)

      -- `configure`
      kept_config :
          (c : SerialConfig) (x : Result (Unit {0}) × Posix K)
          → let p = (keep_config sys.posix (apply_config_to_fd sys host little) c x).1 in
            (p.fd ≡ x.1.fd) × (p.kernel ≡ x.1.kernel)
      kept_config c (ok u, p) = (refl, refl)
      kept_config c (raise e, p) = (refl, refl)

      termios-Held :
          (c : SerialConfig)
          → Preserves Held
              (on_posix (Backend.configure sys.posix (apply_config_to_fd sys host little) c))
      unfolding Backend.configure
      termios-Held c b h =
          let x = Backend.on_kernel (apply_config_to_fd sys host little b.posix.fd c) b.posix in
          let (same_fd, same_kernel) = kept_config c x in
          record {
            descriptor = same_fd ∙ h.descriptor;
            no_flags = h.no_flags;
            no_timer = h.no_timer;
            remembers =
                carry sys little view law host rest original b.saved_rs485 b.posix.kernel _
                  (ap view same_kernel
                    ∙ apply_config_to_fd-Keeps sys view rest host little b.posix.fd c
                        b.posix.kernel)
                  h.remembers;
          }

      -- The state between the write that drops RS-485 and the end of `configure`.
      Dropped : Linux K → Type 0
      Dropped b = Held b × AsFound b

      write-Dropped :
          (s : Rs485State)
          → s ≡ original
          → (b : Linux K) → Held b
          → b.saved_rs485 ≡ some s
          → Dropped (suppressed (on_sys (write_rs485 sys.ioctl_bytes little b.posix.fd s) b)).1
      unfolding Dropped
      write-Dropped s e b h o =
          suppressed-Preserves Dropped (on_sys (write_rs485 sys.ioctl_bytes little b.posix.fd s) b)
            (
              (record {
                descriptor = h.descriptor;
                no_flags = h.no_flags;
                no_timer = h.no_timer;
                remembers =
                    subst
                      (λ t.
                        Remembers sys little view law host rest original t
                          (write_rs485 sys.ioctl_bytes little b.posix.fd s b.posix.kernel).1)
                      (sym o) e;
              }),
              subst
                  (λ fd. view (write_rs485 sys.ioctl_bytes little fd s b.posix.kernel).1 ≡ original)
                  (sym h.descriptor) (rw e (write_back n b.posix.kernel)),
            )

      forgotten : Preserves Dropped (assign (λ b. record b { saved_rs485 = none }))
      unfolding Dropped
      forgotten b (h, v) = (
        (record {
          descriptor = h.descriptor;
          no_flags = h.no_flags;
          no_timer = h.no_timer;
          remembers = v;
        }),
        v,
      )

      reconfigure-Held :
          (o : Option Rs485Config) (policy : UnsupportedPolicy) (saved : Option Rs485State)
          (b : Linux K)
          → b.saved_rs485 ≡ saved
          → Held b
          → Held (reconfigure_rs485 sys host little o policy saved b).1
      unfolding reconfigure_rs485 ◌>>=◌ Dropped
      reconfigure-Held (some c) policy saved b e h =
          apply_rs485-Holds sys little view law host rest original n c policy b h
      reconfigure-Held none policy none b e h = h
      reconfigure-Held none policy (some s) b e h =
          let same : s ≡ original =
            subst (λ t. Remembers sys little view law host rest original t b.posix.kernel) e
              h.remembers in
          (resume_with-Preserves Dropped _
            (suppressed (on_sys (write_rs485 sys.ioctl_bytes little b.posix.fd s) b))
            (write-Dropped s same b h e) (λ u. forgotten)).0

      pub configure-Held : (c : SerialConfig) → Preserves Held (configure sys host little c)
      unfolding configure
      configure-Held c =
          bind-Preserves Held _ _ (termios-Held c)
            (λ u b h. reconfigure-Held c.rs485 c.unsupported_policy b.saved_rs485 b refl h)
