-- ===== src/Handler/Shown.antt =====
-- From `setAnnotation` through the handler's minidump to what the collection server shows.
use crashkit.Prelude.{
  Occurs, here, later, Occurs-append_left, Occurs-append_right, ℕ, ◌≤◌, ◌≡◌, refl, sym, ap, ◌∙◌,
  subst, true, false, Option, some, List, [], ◌∷◌, length, take, take_all, some_cancel, Bool-cases,
  inl, inr,
}
use crashkit.Prelude.Bytes.{Bytes, NulFree, ◌=b◌, =b_iff}
use crashkit.StdMap.{StdMap, lookup, elem}
use crashkit.Dictionary.Entries.{IsKey}
use crashkit.Bridge.{text, Crashpad, StartCall, Bridge, InitArgs, key_size}
use crashkit.Bridge.Arguments.{texts}
use crashkit.Bridge.Marker.{IsCString}
use crashkit.Bridge.Initialize.{initialize_crashpad}
use crashkit.Bridge.Dynamic.{IsBridge, native_set_annotation, handler_reads}
use crashkit.Handler.{ModuleSnapshot, module_annotations, read_options}
use crashkit.Handler.Options.{IsGetopt}
use crashkit.Handler.Survives.{dynamic_annotation_survives}
use crashkit.Minidump.Extensions.{crashpad_info_stream}
use crashkit.Minidump.Reader.{Text, Codecs, is_empty}
use crashkit.Minidump.Reader.Annotations.{Annotations}
use crashkit.Minidump.Reader.Parse.{Metadata, parse_minidump}
use crashkit.Minidump.Format.{ModuleInfo, CrashpadContent, HoldsCrashpadInfo}
use crashkit.Minidump.Content.Texts.{entry_texts, module_texts}
use crashkit.Minidump.Content.Directory.{HoldsDump, last_location}
use crashkit.Minidump.Content.Results.{parse_minidump-Reports}

lookup-Occurs : (k v : Bytes) (m : StdMap) → lookup k m ≡ some v → Occurs (k, v) m
unfolding lookup
lookup-Occurs k v [] h = cc
lookup-Occurs k v ((j, w) ∷ m) h = elim (Bool-cases (k =b j)) [
  | inl e ↦ let p : w ≡ v = some_cancel (rw e at h) in here (λ i. ((=b_iff k j).0 e i, sym p i))
  | inr e ↦ later (lookup-Occurs k v m (rw e at h))
]

module _ (c : Codecs) {k v : Bytes} (named : is_empty (c.decode_utf8 k) ≡ false) where
  -- An entry with a name is among the texts.
  entry_texts-Occurs :
      {es : List (Bytes × Bytes)}
      → Occurs (k, v) es
      → Occurs (c.decode_utf8 k, c.decode_utf8 v) (entry_texts c es)
  unfolding entry_texts
  entry_texts-Occurs (here {x} {xs} e) =
      subst
        (λ (y : Bytes × Bytes). Occurs (c.decode_utf8 k, c.decode_utf8 v) (entry_texts c (y ∷ xs)))
        e (rw named (here refl))
  entry_texts-Occurs (later {x} {xs} h) = Occurs-append_right _ (entry_texts-Occurs h)

  module_texts-Occurs :
      {m : ModuleInfo} {ms : List ModuleInfo}
      → Occurs m ms
      → Occurs (k, v) (take 512 m.simple_annotations)
      → Occurs (c.decode_utf8 k, c.decode_utf8 v) (module_texts c ms)
  unfolding module_texts
  module_texts-Occurs {m} {ms} (here {x} {xs} e) h =
      subst
        (λ (y : ModuleInfo). Occurs (c.decode_utf8 k, c.decode_utf8 v) (module_texts c (y ∷ xs))) e
        (Occurs-append_left _ (entry_texts-Occurs h))
  module_texts-Occurs (later {x} {xs} o) h =
      Occurs-append_right _ (Occurs-append_right _ (module_texts-Occurs o h))

-- A value that is set under one of the dynamic keys after a successful initialisation with a
-- `CrashpadInfo` is shown by the collection server: its first 255 bytes, decoded, stand under the
-- decoded key among the typed annotations of the parsed minidump. The conditions: the key has 1 to
-- 255 bytes and does not decode to the empty text, neither string holds a NUL, the marker path is a C
-- string if it is not null, the globals were well formed before, `getopt_long` knows the option, the
-- snapshot's simple map holds under the key what the handler reads from the process's memory, through
-- the dictionary that is registered, and the file is a minidump whose last stream of crashpad's type
-- holds, for one of the first 256 modules, the simple annotations that the handler writes with the
-- arguments of the call that started it, at most 512.
pub dynamic_annotation_shown :
    (getopt_long : Bytes → Option Bytes) (c : Crashpad) (a : InitArgs) (cmdline : Option Bytes)
    (s t u : Bridge) (key value : Bytes) (m : ModuleSnapshot) (call : StartCall) (codecs : Codecs)
    (bytes : Bytes) (dir : List (ℕ × ℕ)) (rva : ℕ) (content : CrashpadContent)
    (written : ModuleInfo)
    → IsGetopt getopt_long
    → initialize_crashpad c a cmdline s ≡ some (true, t)
    → c.has_crashpad_info ≡ true
    → IsBridge s
    → IsCString a.marker_path
    → native_set_annotation (text (some key)) (text (some value)) t ≡ some u
    → IsKey key_size key
    → NulFree value
    → elem key (texts a.dynamic_annotation_keys) ≡ true
    → lookup key m.simple_map ≡ handler_reads u key
    → t.client ≡ some call
    → HoldsDump bytes dir
    → last_location crashpad_info_stream dir ≡ some rva
    → HoldsCrashpadInfo bytes rva content
    → Occurs written (take 256 content.module_list)
    → written.simple_annotations
      ≡ (module_annotations (some (read_options getopt_long [] call.arguments)) m).simple_map
    → length written.simple_annotations ≤ 512
    → is_empty (codecs.decode_utf8 key) ≡ false
    → (r : Metadata) × (shown : Annotations) × (parse_minidump codecs (some bytes) ≡ some r)
      × (r.annotations ≡ some shown)
      × Occurs (codecs.decode_utf8 key, codecs.decode_utf8 (take 255 value)) shown.typed
dynamic_annotation_shown getopt_long c a cmdline s t u key value m call codecs bytes dir rva content
      written g h info w path set k v dyn reads client dump last held occurs wrote small named =
    let (call', client', kept) =
      dynamic_annotation_survives getopt_long c a cmdline s t u key value m g h info w path set k v
        dyn reads in
    let same : call' ≡ call = some_cancel (sym client' ∙ client) in
    let found : lookup key written.simple_annotations ≡ some (take 255 value) =
      ap (lookup key) wrote
      ∙ subst
          (λ (x : StartCall).
            lookup key
              (module_annotations (some (read_options getopt_long [] x.arguments)) m).simple_map
            ≡ some (take 255 value))
          same kept in
    let (r, shown, e, f, reports) =
      parse_minidump-Reports codecs bytes dir rva content dump last held in
    let inside : Occurs (key, take 255 value) (take 512 written.simple_annotations) =
      subst (λ (l : List (Bytes × Bytes)). Occurs (key, take 255 value) l)
        (sym (take_all 512 written.simple_annotations small))
        (lookup-Occurs key (take 255 value) written.simple_annotations found) in
    (
      r,
      shown,
      e,
      f,
      subst
          (λ (l : List (Text × Text)).
            Occurs (codecs.decode_utf8 key, codecs.decode_utf8 (take 255 value)) l)
          (sym reports.typed) (module_texts-Occurs codecs named occurs inside),
    )
