-- ===== src/Windows/Backend/Lifetime.antt =====
-- `open` and then `aclose` on the Windows backend.
use anyserial.Base.{◌⊎◌, inl, inr, ℕ, ◌≡◌, refl, ap, ◌∙◌, false, String, List}
use anyserial.Errors.{Exn, Result, ok, raise}
use anyserial.Config.{SerialConfig}
use anyserial.Posix.Backend.Descriptors.{remove}
use anyserial.Windows.Errors.{WinErrors}
use anyserial.Windows.Kernel32.{Kernel32}
use anyserial.Windows.Backend.{Windows, open_port, aclose}
use anyserial.Windows.Backend.Calls.{TracksHandles, FailsAsOsError}
use anyserial.Windows.Backend.Handles.{
  Opened, IsLeft, win_open-Opened, tear_down-closes, tear_down_returns, remove_first,
}

module _ {K : Type 0} (sys : Kernel32 K) (host : WinErrors) (handles : K → List ℕ) where
  module _ (law : TracksHandles sys host handles) (fails : FailsAsOsError sys host handles) where
    -- The closing returns, the backend is closed, and the handles are those, or a handle was left
    -- after that exception of the opening.
    pub record Shut (before : List ℕ) (o : Result (Unit {0})) (x : Result (Unit {0}) × Windows K)
        : Type 0 where
      pub returned : x.0 ≡ ok tt
      pub closed : x.1.is_open ≡ false
      pub left :
          (handles x.1.kernel ≡ before)
          ⊎ ((e : Exn) × (o ≡ raise e) × IsLeft sys host handles law fails before e x.1)

    aclose-Shut :
        (before : List ℕ) (x : Result (Unit {0}) × Windows K)
        → Opened sys host handles law fails before x
        → Shut before x.0 (aclose sys host x.1)
    unfolding aclose
    aclose-Shut before (ok u, b) (p, q) = rw p (record {
      returned = tear_down_returns sys host handles law fails b.handle b.kernel;
      closed = refl;
      left = inl (
          tear_down-closes sys host handles law fails b.handle b.kernel
          ∙ ap (remove b.handle) q
          ∙ remove_first sys host handles law b.handle before);
    })
    aclose-Shut before (raise e, b) (p, inl q) =
        rw p (record { returned = refl; closed = refl; left = inl q })
    aclose-Shut before (raise e, b) (p, inr q) =
        rw p (record { returned = refl; closed = refl; left = inr (e, refl, q) })

    -- Where the calls of the set-up and of the closing fail only with an OSError: an `aclose` after an
    -- `open` of a closed backend, whether this returned or raised, returns and leaves the backend
    -- closed, with exactly the handles that were there before both; unless the `open` raised what the
    -- runtime's registration or `SetCommMask` for the events raised, in which case its handle may
    -- still be open.
    pub win_aclose-open :
        (path : String) (c : SerialConfig) (b : Windows K)
        → b.is_open ≡ false
        → Shut
            (handles b.kernel)
            (open_port sys host path c b).0
            (aclose sys host (open_port sys host path c b).1)
    win_aclose-open path c b h =
        aclose-Shut (handles b.kernel) (open_port sys host path c b)
          (win_open-Opened sys host handles law fails path c b h)
