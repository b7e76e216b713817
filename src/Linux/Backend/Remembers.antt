-- ===== src/Linux/Backend/Remembers.antt =====
-- The copy of the driver's RS-485 structure: the structure is the one that the backend found, or
-- the backend has a copy of that.
use anyserial.Base.{
  ℕ, ◌≡◌, refl, sym, ap, ◌∙◌, subst, Bool, String, Option, none, some, List, ℤ, pos, if_intro,
}
use anyserial.Types.{UnsupportedPolicy}
use anyserial.Errors.{Exn, Result, ok, raise, is_os_error, first_ok}
use anyserial.Config.{Rs485Config}
use anyserial.Posix.Kernel.Rules.{Keeps, Preserves, bind-Preserves, handle-Preserves}
use anyserial.Posix.Backend.{Platform}
use anyserial.Linux.Kernel.{LinuxKernel}
use anyserial.Linux.Rs485.{
  Rs485State, tiocgrs485, tiocsrs485, to_bytes, from_bytes, read_rs485, write_rs485, zeroes,
  struct_size,
}
use anyserial.Linux.Backend.{
  Linux, on_sys, handle_unsupported, commit_rs485, apply_read, apply_rs485, first_saved,
}
use anyserial.Linux.Backend.Untouched.{Untouched, handle_unsupported-Keeps}

module _ {K : Type 0} (sys : LinuxKernel K) (little : Bool) (view : K → Rs485State) where
  -- The driver's side of the two requests: TIOCGRS485 copies the structure out, and a TIOCSRS485
  -- that succeeds puts the one it is given in its place.
  pub record KeepsRs485 : Type 0 where
    pub gets :
        (fd : ℤ) (buf : List ℕ) (k : K) (r : List ℕ)
        → (sys.ioctl_bytes fd tiocgrs485 buf k).0 ≡ ok r
        → from_bytes little r ≡ ok (view k)
    pub only_reads : (fd : ℤ) (buf : List ℕ) → Keeps view (sys.ioctl_bytes fd tiocgrs485 buf)
    pub puts :
        (fd : ℤ) (s : Rs485State) (payload : List ℕ) (k : K) (r : List ℕ)
        → to_bytes little s ≡ ok payload
        → (sys.ioctl_bytes fd tiocsrs485 payload k).0 ≡ ok r
        → view (sys.ioctl_bytes fd tiocsrs485 payload k).1 ≡ s

  module _ (law : KeepsRs485) (host : Platform) (rest : Untouched sys view)
      (original : Rs485State) where
    -- The structure is the original, or the backend has a copy of that.
    abbrev pub Remembers : Option Rs485State → K → Type 0
    Remembers none k = view k ≡ original
    Remembers (some saved) k = saved ≡ original

    pub carry :
        (saved : Option Rs485State) (k k' : K)
        → view k' ≡ view k
        → Remembers saved k
        → Remembers saved k'
    carry none k k' e h = e ∙ h
    carry (some s) k k' e h = h

    pub record Holds (n : ℕ) (b : Linux K) : Type 0 where
      pub descriptor : b.posix.fd ≡ pos n
      pub no_flags : b.saved_async_flags ≡ none
      pub no_timer : b.ftdi_timer ≡ none
      pub remembers : Remembers b.saved_rs485 b.posix.kernel

    module _ (n : ℕ) where
      pub on_sys-Holds :
          {A : Type 0} (f : K → Result A × K) → Keeps view f → Preserves (Holds n) (on_sys f)
      on_sys-Holds f keeps b h = record {
        descriptor = h.descriptor;
        no_flags = h.no_flags;
        no_timer = h.no_timer;
        remembers =
            carry b.saved_rs485 b.posix.kernel (f b.posix.kernel).1 (keeps b.posix.kernel)
              h.remembers;
      }

      reject-Holds :
          (feature : String) (policy : UnsupportedPolicy) (e : Exn)
          → Preserves (Holds n) (on_sys (handle_unsupported sys feature policy e))
      reject-Holds feature policy e =
          on_sys-Holds (handle_unsupported sys feature policy e)
            (handle_unsupported-Keeps sys view rest feature policy e)

      -- With the copy taken, no call on the system matters.
      record Saved (b : Linux K) : Type 0 where
        pub descriptor : b.posix.fd ≡ pos n
        pub no_flags : b.saved_async_flags ≡ none
        pub no_timer : b.ftdi_timer ≡ none
        pub copy : b.saved_rs485 ≡ some original

      on_sys-Saved : {A : Type 0} (f : K → Result A × K) → Preserves Saved (on_sys f)
      on_sys-Saved f b h = record {
        descriptor = h.descriptor;
        no_flags = h.no_flags;
        no_timer = h.no_timer;
        copy = h.copy;
      }

      Saved-Holds : (b : Linux K) → Saved b → Holds n b
      Saved-Holds b h = record {
        descriptor = h.descriptor;
        no_flags = h.no_flags;
        no_timer = h.no_timer;
        remembers = subst (λ o. Remembers o b.posix.kernel) (sym h.copy) refl;
      }

      first_saved_lem :
          (current : Rs485State) (saved : Option Rs485State) (k : K)
          → current ≡ view k
          → Remembers saved k
          → first_saved current saved ≡ some original
      first_saved_lem current none k e h = ap (λ s. some s) (e ∙ h)
      first_saved_lem current (some s) k e h = ap (λ t. some t) h

      commit-Holds :
          (c : Rs485Config) (policy : UnsupportedPolicy) (current : Rs485State) (b : Linux K)
          → current ≡ view b.posix.kernel
          → Holds n b
          → Holds n (commit_rs485 sys host little c policy current b).1
      unfolding commit_rs485
      commit-Holds c policy current b e h = Saved-Holds _ (
          bind-Preserves Saved _ _ (λ d q. q)
            (λ merged d q.
              handle-Preserves Saved is_os_error _ _
                (on_sys-Saved (write_rs485 sys.ioctl_bytes little d.posix.fd merged) d q)
                (λ e. on_sys-Saved (handle_unsupported sys "TIOCSRS485" policy e)))
            (record b { saved_rs485 = first_saved current b.saved_rs485 })
            (record {
              descriptor = h.descriptor;
              no_flags = h.no_flags;
              no_timer = h.no_timer;
              copy = first_saved_lem current b.saved_rs485 b.posix.kernel e h.remembers;
            }))

      -- A read and what is done with it; the read changes nothing.
      read_on : Linux K → Result Rs485State × Linux K
      read_on b = on_sys (read_rs485 sys.ioctl_bytes little b.posix.fd) b

      read-Holds : (b : Linux K) → Holds n b → Holds n (read_on b).1
      unfolding read_on read_rs485
      read-Holds b h =
          on_sys-Holds (read_rs485 sys.ioctl_bytes little b.posix.fd) (law.only_reads b.posix.fd _)
            b h

      read_current :
          (b : Linux K) (current : Rs485State)
          → (read_on b).0 ≡ ok current
          → current ≡ view (read_on b).1.posix.kernel
      unfolding read_on read_rs485
      read_current b current h =
          let fd = b.posix.fd in
          let k = b.posix.kernel in
          let x = sys.ioctl_bytes fd tiocgrs485 (zeroes struct_size) k in
          let (bytes, p, q) = first_ok x.0 (from_bytes little) h in
          let there = law.gets fd (zeroes struct_size) k bytes p in
          let same : current ≡ view k = cc in same ∙ sym (law.only_reads fd (zeroes struct_size) k)

      apply_read-Holds :
          (c : Rs485Config) (policy : UnsupportedPolicy) (x : Result Rs485State × Linux K)
          → ((current : Rs485State) → x.0 ≡ ok current → current ≡ view x.1.posix.kernel)
          → Holds n x.1
          → Holds n (apply_read sys host little c policy x).1
      unfolding apply_read
      apply_read-Holds c policy (ok current, b) e h =
          commit-Holds c policy current b (e current refl) h
      apply_read-Holds c policy (raise f, b) e h =
          if_intro (λ (x : Result (Unit {0}) × Linux K). Holds n x.1) (is_os_error f) _ _
            (reject-Holds _ policy f b h) h

      pub apply_rs485-Holds :
          (c : Rs485Config) (policy : UnsupportedPolicy)
          → Preserves (Holds n) (apply_rs485 sys host little c policy)
      unfolding apply_rs485 read_on
      apply_rs485-Holds c policy b h =
          apply_read-Holds c policy (read_on b) (read_current b) (read-Holds b h)
