-- ===== src/Opening/Closed.antt =====
-- A port on a backend derived from the POSIX one, from its opening to its closing.
use anyserial.Base.{
  ℕ, ◌≡◌, ◌∙◌, sym, subst, refl, Bool, true, false, String, Option, none, some, List, [], ℤ,
  if◌then◌else◌,
}
use anyserial.Errors.{Exn, Context, Result, ok, raise, is_os_error, errno_to_exception}
use anyserial.Config.{SerialConfig}
use anyserial.Backend.Protocol.{Call, SyncBackend}
use anyserial.Posix.Kernel.{Kernel, resume_with, ◌>>=◌, ◌>>◌}
use anyserial.Posix.Kernel.Rules.{Keeps}
use anyserial.Posix.Backend.{Posix, close, is_open, open_port, on_kernel, keep}
use anyserial.Posix.Backend.Descriptors.{TracksDescriptors, Owns, open_port-Owns, closed-Owns}
use anyserial.Posix.Backend.Port.{aclose_releases}
use anyserial.Discovery.{PortInfo}
use anyserial.Stream.Port.{Port, ready, new_port}
use anyserial.Stream.Control
use anyserial.Stream.Loop.{Op, Event, call, wake, World, start, settle, pull, step, run}
use anyserial.Opening.{
  Resolver, OpenPort, found, wrapped, mapped_open, resolve_port_info_for_path, config_or_default,
  open_sync,
}

-- The lookup of metadata raises nothing but an OSError.
abbrev pub RaisesOsErrors : Resolver → Type 0
RaisesOsErrors none = Unit
RaisesOsErrors (some resolver) =
    (path : String) (e : Exn) → resolver path ≡ raise e → is_os_error e ≡ true

-- An OSError that is no SerialError.
abbrev pub is_unmapped : Exn → Bool
is_unmapped (Exn.os_error e) = true
is_unmapped _ = false

mapped_once :
    (e : Exn) (path : String)
    → is_unmapped (if is_os_error e then errno_to_exception e Context.opening (some path) else e)
      ≡ false
unfolding errno_to_exception is_os_error
mapped_once (Exn.os_error e) path = refl
mapped_once (Exn.serial c e) path = refl
mapped_once _ path = refl

module _ {K : Type 0} (descriptors : K → List ℕ) where
  -- The port, closed once its `aclose` has had its turn, leaves nothing behind, whatever is called or
  -- resumed later.
  abbrev pub ClosesTo : List ℕ → SyncBackend (Posix K) → Port (Posix K) → Type 0
  ClosesTo others be p =
      (es : List Event)
      → let w : World (Posix K) = record { port = p; tasks = []; results = [] } in
        let after = run be (step be (step be w (call Op.close)) (wake 0 ready)) es in
        descriptors after.port.backend.kernel ≡ others

  -- An exception leaves nothing behind and is no bare OSError.
  abbrev pub Unharmed : List ℕ → Exn → Posix K → Type 0
  Unharmed others e b = (descriptors b.kernel ≡ others) × (is_unmapped e ≡ false)

  abbrev pub Ended :
      List ℕ → SyncBackend (Posix K) → Result (OpenPort (Port (Posix K))) × Posix K → Type 0
  Ended others be (raise e, b) = Unharmed others e b
  Ended others be (ok o, b) = ClosesTo others be o.port

module _ {K : Type 0} (sys : Kernel K) (descriptors : K → List ℕ)
    (law : TracksDescriptors sys descriptors) where
  -- A class of backend with the `close` of the POSIX backend and its `open`, after what the class
  -- itself refuses.
  module _ (be : SyncBackend (Posix K)) (apply : ℤ → SerialConfig → Call K (Unit {0}))
      (reject : SerialConfig → Call K (Unit {0})) (closes : be.close ≡ close sys)
      (opens : be.open_port ≡ (λ path c. on_kernel (reject c) >> open_port sys apply path c))
      (kept : (fd : ℤ) (c : SerialConfig) → Keeps descriptors (apply fd c))
      (spared : (c : SerialConfig) → Keeps descriptors (reject c)) where
    -- What a failed `open` or a successful one leaves.
    Held : List ℕ → Result (Unit {0}) × Posix K → Type 0
    Held others x =
        Owns sys descriptors others x.1 × ((e : Exn) → x.0 ≡ raise e → is_open x.1 ≡ false)

    new_port-ClosesTo :
        (others : List ℕ) (c : SerialConfig) (b : Posix K)
        → Owns sys descriptors others b
        → ClosesTo descriptors others be (new_port be b c)
    unfolding new_port step start settle pull Control.aclose
    new_port-ClosesTo others c b o es =
        (aclose_releases sys descriptors law be others
          (step be (record { port = new_port be b c; tasks = []; results = [] }) (call Op.close)) 0
          [] es closes refl refl refl o).1

    looked_up-Ended :
        (others : List ℕ) (c : SerialConfig) (r : Result (Option PortInfo)) (b : Posix K)
        → ((e : Exn) → r ≡ raise e → is_os_error e ≡ true)
        → Owns sys descriptors others b
        → Ended descriptors others be (wrapped (λ b. new_port be b c) (found r) b)
    looked_up-Ended others c (ok info) b h o = new_port-ClosesTo others c b o
    looked_up-Ended others c (raise e) b h o = rw (h e refl) (new_port-ClosesTo others c b o)

    resolved-Ended :
        (others : List ℕ) (resolver : Resolver) (path : String) (c : SerialConfig) (b : Posix K)
        → RaisesOsErrors resolver
        → Owns sys descriptors others b
        → Ended descriptors others be
            (wrapped (λ b. new_port be b c) (resolve_port_info_for_path resolver path) b)
    unfolding resolve_port_info_for_path
    resolved-Ended others none path c b h o = new_port-ClosesTo others c b o
    resolved-Ended others (some resolver) path c b h o =
        looked_up-Ended others c (resolver path) b (h path) o

    after_open-Ended :
        (others : List ℕ) (resolver : Resolver) (path : String) (c : SerialConfig)
        (x : Result (Unit {0}) × Posix K)
        → RaisesOsErrors resolver
        → Held others x
        → Ended descriptors others be (
            resume_with
              (λ u. wrapped (λ b. new_port be b c) (resolve_port_info_for_path resolver path))
              (mapped_open path x))
    unfolding Held
    after_open-Ended others resolver path c (ok u, b) h o =
        resolved-Ended others resolver path c b h o.0
    after_open-Ended others resolver path c (raise e, b) h (o, f) =
        (closed-Owns sys descriptors law apply kept others b (f e refl) o, mapped_once e path)

    kept_closed :
        (path : String) (c : SerialConfig) (b : Posix K) (x : Result ℕ × K) (e : Exn)
        → is_open b ≡ false
        → (keep sys apply path c b x).0 ≡ raise e
        → is_open (keep sys apply path c b x).1 ≡ false
    unfolding is_open
    kept_closed path c b (ok fd, k) e h f = absurd (cc)
    kept_closed path c b (raise g, k) e h f = h

    -- A backend that did not open stays closed.
    raised_closed :
        (path : String) (c : SerialConfig) (b : Posix K) (e : Exn)
        → is_open b ≡ false
        → (open_port sys apply path c b).0 ≡ raise e
        → is_open (open_port sys apply path c b).1 ≡ false
    unfolding open_port
    raised_closed path c b e h = rw h (λ f. kept_closed path c b _ e h f)

    refused-Held :
        (others : List ℕ) (path : String) (c : SerialConfig) (b : Posix K)
        (x : Result (Unit {0}) × K)
        → is_open b ≡ false
        → Owns sys descriptors others b
        → descriptors x.1 ≡ descriptors b.kernel
        → Held others
            (resume_with (λ _. open_port sys apply path c) (x.0, record b { kernel = x.1 }))
    unfolding Held is_open
    refused-Held others path c b (raise e, k) q o s = (s ∙ o, λ f p. q)
    refused-Held others path c b (ok u, k) q o s = (
      open_port-Owns sys descriptors law apply kept others path c (record b { kernel = k }) (s ∙ o),
      λ e f. raised_closed path c (record b { kernel = k }) e q f,
    )

    open_port-Held :
        (others : List ℕ) (path : String) (c : SerialConfig) (b : Posix K)
        → is_open b ≡ false
        → Owns sys descriptors others b
        → Held others (be.open_port path c b)
    unfolding ◌>>=◌
    open_port-Held others path c b q o =
        subst (λ f. Held others (f path c b)) (sym opens)
          (refused-Held others path c b (reject c b.kernel) q o (spared c b.kernel))

    pub open_sync-Ended :
        (others : List ℕ) (resolver : Resolver) (path : String) (config : Option SerialConfig)
        (b : Posix K)
        → RaisesOsErrors resolver
        → is_open b ≡ false
        → Owns sys descriptors others b
        → Ended descriptors others be (open_sync be resolver path config b)
    unfolding open_sync
    open_sync-Ended others resolver path config b h q o =
        let c = config_or_default config in
        after_open-Ended others resolver path c (be.open_port path c b) h
          (open_port-Held others path c b q o)
