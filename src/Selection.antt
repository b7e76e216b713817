-- ===== src/Selection.antt =====
-- The choice by `sys.platform`: src/anyserial/_backend/selector.py and `_select_discovery` of
-- src/anyserial/discovery.py.
use anyserial.Base.{Bool, true, false, ◌||◌, String, Option, none, some, if◌then◌else◌}
use anyserial.Errors.{Exn, SerialClass, Result, ok, raise, no_attributes}
use text.Mathlib.Text.{starts_with, find?, ◌==◌ as is_text}

-- The platforms that have a backend and an enumerator of their own.
pub data Platform : Type 0 where
  linux darwin bsd windows : Platform

abbrev pub contains : String → String → Bool
contains s t = elim (find? s t) [ none ↦ false | some n ↦ true ]

-- The cascade of tests on `sys.platform`.
unfoldable pub platform_of : String → Option Platform
platform_of platform =
    if starts_with platform "linux"
    then some Platform.linux
    else if is_text platform "darwin"
    then some Platform.darwin
    else if contains platform "bsd" || starts_with platform "dragonfly"
    then some Platform.bsd
    else if is_text platform "win32"
    then some Platform.windows
    else none

abbrev pub unsupported_platform : Exn
unsupported_platform = Exn.serial SerialClass.unsupported_platform no_attributes

abbrev chosen : {A : Type 0} → (Platform → A) → Option Platform → Result A
chosen f none = raise unsupported_platform
chosen f (some p) = ok (f p)

-- The class of backend that `select_backend` instantiates.
unfoldable pub select_backend : String → Result Platform
unfolding platform_of
select_backend platform = chosen (λ p. p) (platform_of platform)

pub data DiscoveryBackend : Type 0 where
  native pyudev pyserial : DiscoveryBackend

-- Whose `enumerate_ports`.
pub data Enumerator : Type 0 where
  of_pyserial of_pyudev : Enumerator
  of_platform : Platform → Enumerator

unfoldable pub select_discovery : String → DiscoveryBackend → Result Enumerator
unfolding platform_of
select_discovery platform DiscoveryBackend.pyserial = ok Enumerator.of_pyserial
select_discovery platform DiscoveryBackend.pyudev = ok Enumerator.of_pyudev
select_discovery platform DiscoveryBackend.native =
    chosen Enumerator.of_platform (platform_of platform)
