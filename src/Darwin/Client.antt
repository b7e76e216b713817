-- ===== src/Darwin/Client.antt =====
-- src/anyserial/_darwin/_iokit.py: `_CtypesIOKitClient`, over the calls of IOKit and CoreFoundation.
pub mod Balance
pub mod Instance
pub mod Walks
pub mod Values
use anyserial.Base.{
  ℕ, zero, suc, ◌+◌, ◌*◌, ◌==◌, Bool, true, false, not, ◌||◌, String, Option, none, some, List, ℤ,
  pos, negsuc, if◌then◌else◌,
}
use anyserial.Errors.{Result, ok}
use anyserial.Discovery.{Text}
use anyserial.Discovery.Texts.{or_none}
use anyserial.Darwin.Discovery.{IoKit}

-- The two frameworks on a state `W`. Objects and CoreFoundation values go by number, and 0 is NULL;
-- no call raises.
pub record Frameworks (W : Type 0) : Type 0 where
  -- `IOServiceMatching("IOSerialBSDClient")`, and `IOServiceGetMatchingServices`: its code, and the
  -- iterator that it wrote
  pub matching : W → ℕ × W
  pub matching_services : ℕ → W → ℤ × ℕ × W
  pub iterator_next : ℕ → W → ℕ × W
  -- `IOObjectRelease`, of an iterator and of an entry of the registry
  pub release_iterator : ℕ → W → W
  pub release_entry : ℕ → W → W
  -- `IORegistryEntryGetParentEntry`: its code, and the parent that it wrote
  pub parent_entry : ℕ → W → ℤ × ℕ × W
  -- `IORegistryEntryCreateCFProperty`, `CFStringCreateWithCString` and `CFRelease`
  pub create_property : ℕ → ℕ → W → ℕ × W
  pub create_string : String → W → ℕ × W
  pub cf_release : ℕ → W → W
  -- `CFStringGetLength`; `CFStringGetCString` into so many bytes, `none` where it fails; the decoding
  -- of these bytes; `CFNumberGetValue`
  pub string_length : ℕ → W → ℤ
  pub c_string : ℕ → ℕ → W → Option (List ℕ)
  pub decoded : List ℕ → Text
  pub number_value : ℕ → W → Option ℤ

-- The generator of `_iter_serial_services`: not started, waiting at its `yield`, or finished.
pub data Walk : Type 0 where
  fresh : Walk
  iterating : ℕ → Walk
  over : Walk

pub record Client (W : Type 0) : Type 0 where
  pub world : W
  pub walk : Walk

abbrev pub is_zero : ℤ → Bool
is_zero (pos n) = n == 0
is_zero (negsuc n) = false

module _ {W : Type 0} (lib : Frameworks W) where
  -- `_cfstring_to_str`
  abbrev pub text_of : Option (List ℕ) → Option Text
  text_of none = none
  text_of (some bytes) = or_none (lib.decoded bytes)

  abbrev pub sized_text : ℕ → ℤ → W → Option Text
  sized_text value (negsuc n) w = none
  sized_text value (pos n) w = text_of (lib.c_string value (n * 4 + 1) w)

  abbrev pub cfstring_to_str : ℕ → W → Option Text
  cfstring_to_str value w = sized_text value (lib.string_length value w) w

  -- `_read_property`: the value that was created, which the caller is to release, or 0.
  unfoldable pub read_property : ℕ → String → W → ℕ × W
  read_property service key w =
      let (cf_key, w1) = lib.create_string key w in
      if cf_key == 0
      then (0, w1)
      else (let (value, w2) = lib.create_property service cf_key w1 in
          (value, lib.cf_release cf_key w2))

  -- What `get_string` and `get_int` make of a property, which they release.
  abbrev pub decode_property : {A : Type 0} → (ℕ → W → Option A) → ℕ × W → Option A × W
  decode_property decode (value, w) =
      if value == 0 then (none, w) else (decode value w, lib.cf_release value w)

  unfoldable pub get_string : ℕ → String → W → Option Text × W
  unfolding read_property
  get_string service key w = decode_property cfstring_to_str (read_property service key w)

  unfoldable pub get_int : ℕ → String → W → Option ℤ × W
  unfolding read_property
  get_int service key w = decode_property lib.number_value (read_property service key w)

  abbrev pub max_hops : ℕ
  max_hops = 32

  -- A round of the loop: the parent that was found, the property read of it, and the climb from it.
  abbrev pub or_climb : ℕ → (ℕ → W → Option ℕ × W) → ℕ × W → Option ℕ × W
  or_climb parent climb (value, w) =
      if value == 0 then climb parent (lib.release_entry parent w) else (some parent, w)

  abbrev pub at_parent : (ℕ → W → Option ℕ × W) → ℤ × ℕ × W → Option ℕ × W
  at_parent climb (kr, parent, w) =
      if not (is_zero kr) || (parent == 0)
      then (none, w)
      else or_climb parent climb (read_property parent "idVendor" w)

  unfoldable pub climb : ℕ → ℕ → W → Option ℕ × W
  unfolding read_property
  climb zero cursor w = (none, w)
  climb (suc hops) cursor w =
      at_parent (λ parent w'. climb hops parent w') (lib.parent_entry cursor w)

  unfoldable pub find_usb_parent : ℕ → W → Option ℕ × W
  unfolding climb
  find_usb_parent service w = climb max_hops service w

  -- The `while True` of the generator, up to its `yield` or its end.
  abbrev pub at_raw : ℕ → ℕ × W → Option ℕ × Client W
  at_raw iterator (raw, w) =
      if raw == 0
      then (none, record { world = lib.release_iterator iterator w; walk = Walk.over })
      else (some raw, record { world = w; walk = Walk.iterating iterator })

  unfoldable pub step_iterator : ℕ → W → Option ℕ × Client W
  step_iterator iterator w = at_raw iterator (lib.iterator_next iterator w)

  abbrev pub begun : ℤ × ℕ × W → Option ℕ × Client W
  begun (kr, iterator, w) =
      if is_zero kr
      then step_iterator iterator w
      else (none, record { world = w; walk = Walk.over })

  abbrev pub matched : ℕ × W → Option ℕ × Client W
  matched (matching, w) =
      if matching == 0
      then (none, record { world = w; walk = Walk.over })
      else begun (lib.matching_services matching w)

  unfoldable pub iter_serial_services : Walk → W → Option ℕ × Client W
  unfolding step_iterator
  iter_serial_services Walk.fresh w = matched (lib.matching w)
  iter_serial_services (Walk.iterating iterator) w = step_iterator iterator w
  iter_serial_services Walk.over w = (none, record { world = w; walk = Walk.over })

  abbrev pub on_world : {A : Type 0} → (W → A × W) → Client W → Result A × Client W
  on_world call c = let (a, w) = call c.world in (ok a, record c { world = w })

  -- The identifiers of USB are 16 bits, of which the walk keeps the number.
  abbrev pub id_of : Option ℤ → Option ℕ
  id_of (some (pos n)) = some n
  id_of (some (negsuc n)) = none
  id_of none = none

  abbrev pub get_id : ℕ → String → W → Option ℕ × W
  get_id service key w = let (value, w') = get_int service key w in (id_of value, w')

  -- The client, as the walks use it.
  abbrev pub ctypes_client : IoKit (Client W)
  ctypes_client = record {
    next_service = λ c. let (service, c') = iter_serial_services c.walk c.world in (ok service, c');
    get_string = λ service key. on_world (get_string service key);
    get_id = λ service key. on_world (get_id service key);
    get_int = λ service key. on_world (get_int service key);
    find_usb_parent = λ service. on_world (find_usb_parent service);
    release = λ service. on_world (λ w. (tt, lib.release_entry service w));
  }
