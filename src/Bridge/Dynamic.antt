-- ===== src/Bridge/Dynamic.antt =====
-- `nativeSetAnnotation`, and the state that every native call keeps well formed.
use crashkit.Prelude.{
  ◌≡◌, sym, ap, ◌∙◌, subst, Bool, true, false, Option, none, some, List, arith, if◌then◌else◌,
  length, take, some_cancel, ℕ, ◌==◌,
}
use crashkit.Prelude.Bytes.{Bytes, NulFree, ◌=b◌}
use crashkit.Dictionary.{Entry, get_value_for_key, set_key_value, new}
use crashkit.Dictionary.Entries.{IsKey}
use crashkit.Dictionary.Shape.{
  IsDictionary, set_key_value-IsDictionary, new-IsDictionary, length-set_key_value, length-new,
}
use crashkit.Dictionary.Laws.{get-set, has_room}
use crashkit.Bridge.{
  JString, null_ref, text, Bridge, Crashpad, InitArgs, StartCall, key_size, value_size, num_entries,
}
use crashkit.Bridge.Marker.{IsMarkerPath, IsCString, set_marker_path_lem}
use crashkit.Bridge.Initialize.{initialize_crashpad}
use crashkit.Bridge.Initialize.Outcome.{Ends, Started, initialize_crashpad-Ends}

-- `if (key && val) g_dynamic_annotations->SetKeyValue(key, val)`
set_pair : Option Bytes → Option Bytes → List Entry → List Entry
set_pair none value d = d
set_pair (some key) none d = d
set_pair (some key) (some value) d = set_key_value key_size value_size (some key) (some value) d

-- Before the dictionary exists the call does nothing, and it does not look at its strings.
set_dynamic : Option (List Entry) → JString → JString → Bridge → Option Bridge
unfolding set_pair
set_dynamic none j_key j_value s = some s
set_dynamic (some d) null_ref j_value s = none
set_dynamic (some d) (text key) null_ref s = none
set_dynamic (some d) (text key) (text value) s =
    some (record s { dynamic_annotations = some (set_pair key value d) })

unfoldable pub native_set_annotation : JString → JString → Bridge → Option Bridge
unfolding set_dynamic
native_set_annotation j_key j_value s = set_dynamic s.dynamic_annotations j_key j_value s

read_dynamic : Option (List Entry) → Bytes → Option Bytes
read_dynamic none key = none
read_dynamic (some d) key = get_value_for_key key_size (some key) d

-- The value under a key of the dictionary of `g_dynamic_annotations`, registered or not.
unfoldable pub annotation_of : Bridge → Bytes → Option Bytes
unfolding read_dynamic
annotation_of s key = read_dynamic s.dynamic_annotations key

-- A key of the dictionary at a registered address, where this dictionary stands at that address.
read_registered : Option ℕ → ℕ → Option (List Entry) → Bytes → Option Bytes
unfolding read_dynamic
read_registered none address d key = none
read_registered (some registered) address d key =
    let value = read_dynamic d key in if registered == address then value else none

-- What the handler reads under a key when it looks at the process's memory: it finds the dictionary
-- by the pointer of the `CrashpadInfo`, so there is nothing to read unless that pointer leads to the
-- bridge's dictionary.
unfoldable pub handler_reads : Bridge → Bytes → Option Bytes
unfolding read_registered
handler_reads s key =
    read_registered s.info.simple_annotations s.dynamic_address s.dynamic_annotations key

abbrev pub IsDynamic : Option (List Entry) → Type 0
IsDynamic none = Unit
IsDynamic (some d) = IsDictionary key_size value_size d × (length d ≡ num_entries)

-- The globals of the bridge: the marker path is a C string in its buffer, and the dictionary, once
-- it exists, has 64 entries of C strings.
pub record IsBridge (s : Bridge) : Type 0 where
  pub marker : IsMarkerPath s.crash_marker_path
  pub dynamic : IsDynamic s.dynamic_annotations

set_pair-IsDynamic :
    (key value : Option Bytes) (d : List Entry)
    → IsDynamic (some d)
    → IsDynamic (some (set_pair key value d))
unfolding set_pair
set_pair-IsDynamic none value d w = w
set_pair-IsDynamic (some key) none d w = w
set_pair-IsDynamic (some key) (some value) d w = (
  set_key_value-IsDictionary key_size value_size (some key) (some value) d w.0,
  length-set_key_value key_size value_size (some key) (some value) d ∙ w.1,
)

set_dynamic-IsBridge :
    (o : Option (List Entry)) (key value : JString) (s t : Bridge)
    → set_dynamic o key value s ≡ some t
    → IsBridge s
    → IsDynamic o
    → IsBridge t
unfolding set_dynamic
set_dynamic-IsBridge none key value s t h w v = subst IsBridge (some_cancel h) w
set_dynamic-IsBridge (some d) null_ref value s t h w v = cc
set_dynamic-IsBridge (some d) (text key) null_ref s t h w v = cc
set_dynamic-IsBridge (some d) (text key) (text value) s t h w v =
    subst IsBridge (some_cancel h)
      (record { marker = w.marker; dynamic = set_pair-IsDynamic key value d v })

-- Setting an annotation, whatever the strings, keeps the globals well formed: the dictionary keeps
-- its 64 entries, and in each the key and the value end inside their 256 bytes.
pub native_set_annotation-IsBridge :
    (key value : JString) (s t : Bridge)
    → native_set_annotation key value s ≡ some t
    → IsBridge s
    → IsBridge t
unfolding native_set_annotation
native_set_annotation-IsBridge key value s t h w =
    set_dynamic-IsBridge s.dynamic_annotations key value s t h w w.dynamic

Started-IsBridge :
    (c : Crashpad) (a : InitArgs) (call : StartCall) (s t : Bridge)
    → IsCString a.marker_path
    → IsBridge s
    → Started c a call s t
    → IsBridge t
Started-IsBridge c a call s t m w h = record {
  marker = subst IsMarkerPath (sym h.marker) (set_marker_path_lem a.marker_path s m w.marker).1;
  dynamic = subst IsDynamic (sym h.dynamic) (new_dynamic c.has_crashpad_info);
}
  where
    new_dynamic :
        (b : Bool)
        → IsDynamic
            (if b then some (new key_size value_size num_entries) else s.dynamic_annotations)
    new_dynamic true = (
      new-IsDictionary key_size value_size num_entries (omega arith) (omega arith),
      length-new key_size value_size num_entries,
    )
    new_dynamic false = w.dynamic

Ends-IsBridge :
    (c : Crashpad) (a : InitArgs) (call : StartCall) (s : Bridge) (r : Bool × Bridge)
    → IsCString a.marker_path
    → IsBridge s
    → Ends c a call s r
    → IsBridge r.1
Ends-IsBridge c a call s (true, t) m w h = Started-IsBridge c a call s t m w h
Ends-IsBridge c a call s (false, t) m w h = record {
  marker = subst IsMarkerPath (sym h.marker) w.marker;
  dynamic = subst IsDynamic (sym h.dynamic) w.dynamic;
}

-- Initialising, successful or not, keeps the globals well formed.
pub initialize_crashpad-IsBridge :
    (c : Crashpad) (a : InitArgs) (cmdline : Option Bytes) (s : Bridge) (r : Bool × Bridge)
    → initialize_crashpad c a cmdline s ≡ some r
    → IsCString a.marker_path
    → IsBridge s
    → IsBridge r.1
initialize_crashpad-IsBridge c a cmdline s r h m w =
    let (call, e, k) = initialize_crashpad-Ends c a cmdline s r h in
    Ends-IsBridge c a call _ r m (record { marker = w.marker; dynamic = w.dynamic }) k

set_dynamic-text :
    (key value : Bytes) (s t : Bridge) (o : Option (List Entry)) (d : List Entry)
    → o ≡ some d
    → set_dynamic o (text (some key)) (text (some value)) s ≡ some t
    → t.dynamic_annotations ≡ some (set_key_value key_size value_size (some key) (some value) d)
unfolding set_dynamic
set_dynamic-text key value s t none d e h = cc
set_dynamic-text key value s t (some d') d e h =
    sym (ap (λ r. r.dynamic_annotations) (some_cancel h))
    ∙ ap (λ x. some (set_key_value key_size value_size (some key) (some value) x)) (some_cancel e)

-- For keys of 1 to 255 bytes without NUL and a value without NUL, with globals that are well formed:
-- once the dictionary exists, it holds the value's first 255 bytes under the key that was set, if it
-- had an entry or one was free, and nothing otherwise; any other key holds what it held.
pub annotation_of-set :
    (key j value : Bytes) (s t : Bridge) (d : List Entry)
    → s.dynamic_annotations ≡ some d
    → native_set_annotation (text (some key)) (text (some value)) s ≡ some t
    → IsBridge s
    → IsKey key_size key
    → IsKey key_size j
    → NulFree value
    → annotation_of t j ≡ (
        if key =b j
        then (if has_room key d then some (take 255 value) else none)
        else annotation_of s j)
unfolding native_set_annotation annotation_of
annotation_of-set key j value s t d e h w k n v =
    rw (set_dynamic-text key value s t s.dynamic_annotations d e h, e)
      (get-set key_size value_size key j value d (subst IsDynamic e w.dynamic).0 k n v)

set_dynamic-registered :
    (o : Option (List Entry)) (key value : JString) (s t : Bridge)
    → set_dynamic o key value s ≡ some t
    → (t.info ≡ s.info) × (t.dynamic_address ≡ s.dynamic_address)
unfolding set_dynamic
set_dynamic-registered none key value s t h =
    (ap (λ b. b.info) (sym (some_cancel h)), ap (λ b. b.dynamic_address) (sym (some_cancel h)))
set_dynamic-registered (some d) null_ref value s t h = cc
set_dynamic-registered (some d) (text key) null_ref s t h = cc
set_dynamic-registered (some d) (text key) (text value) s t h =
    (ap (λ b. b.info) (sym (some_cancel h)), ap (λ b. b.dynamic_address) (sym (some_cancel h)))

-- The handler reads the bridge's dictionary, where it is registered, and still after a set.
pub handler_reads-set :
    (key value : JString) (s t : Bridge) (j : Bytes)
    → native_set_annotation key value s ≡ some t
    → s.info.simple_annotations ≡ some s.dynamic_address
    → handler_reads t j ≡ annotation_of t j
unfolding native_set_annotation handler_reads read_registered annotation_of
handler_reads-set key value s t j h e =
    let (i, a) = set_dynamic-registered s.dynamic_annotations key value s t h in
    let there : t.info.simple_annotations ≡ some t.dynamic_address =
      ap (λ info. info.simple_annotations) i ∙ e ∙ ap some (sym a) in
    rw there (ground arith)
