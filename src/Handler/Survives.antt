-- ===== src/Handler/Survives.antt =====
-- The way of a dynamic annotation from `setAnnotation` to the minidump.
use crashkit.Prelude.{
  ◌≡◌, refl, ◌∙◌, Bool, true, ◌||◌, Option, none, some, [], take, arith, if◌then◌else◌,
}
use crashkit.Prelude.Bytes.{Bytes, NulFree, =b_refl}
use crashkit.Process.{get_process_name}
use crashkit.StdMap.{lookup, keys, elem}
use crashkit.Dictionary.{new}
use crashkit.Dictionary.Entries.{IsKey}
use crashkit.Dictionary.Laws.{has_room-new}
use crashkit.Bridge.{
  text, Crashpad, StartCall, Bridge, InitArgs, key_size, value_size, num_entries, passthrough,
}
use crashkit.Bridge.Arguments.{texts}
use crashkit.Bridge.Marker.{IsCString}
use crashkit.Bridge.Initialize.{initialize_crashpad}
use crashkit.Bridge.Initialize.Outcome.{initialize_crashpad-Ends, prepare_lem}
use crashkit.Bridge.Dynamic.{
  IsBridge, native_set_annotation, handler_reads, handler_reads-set, annotation_of-set,
  initialize_crashpad-IsBridge,
}
use crashkit.Handler.{ModuleSnapshot, module_annotations, read_options}
use crashkit.Handler.Options.{IsGetopt}
use crashkit.Handler.Kept.{build_arguments-Keeps}

-- A value of a dynamic key is what the handler then finds through the registered dictionary.
readable :
    (c : Crashpad) (a : InitArgs) (cmdline : Option Bytes) (s t u : Bridge) (key value : Bytes)
    → initialize_crashpad c a cmdline s ≡ some (true, t)
    → c.has_crashpad_info ≡ true
    → IsBridge s
    → IsCString a.marker_path
    → native_set_annotation (text (some key)) (text (some value)) t ≡ some u
    → IsKey key_size key
    → NulFree value
    → handler_reads u key ≡ some (take 255 value)
readable c a cmdline s t u key value h info w m set k v =
    let (call, e, started) = initialize_crashpad-Ends c a cmdline s (true, t) h in
    let d = new key_size value_size num_entries in
    let there : t.dynamic_annotations ≡ some d = rw info at started.dynamic in
    let registered : t.info.simple_annotations ≡ some t.dynamic_address =
      rw info at started.registered in
    handler_reads-set (text (some key)) (text (some value)) t u key set registered
    ∙ annotation_of-set key key value t u d there set
        (initialize_crashpad-IsBridge c a cmdline s (true, t) h m w) k k v
    ∙ (rw (=b_refl key, has_room-new key_size value_size num_entries key (omega arith)) refl)

-- After a successful initialisation with a `CrashpadInfo`, a value that is set under one of the
-- dynamic keys reaches the minidump: with the set that the handler reads from its arguments, the
-- annotations of the module that it writes hold the value's first 255 bytes under that key. The
-- conditions: the key has 1 to 255 bytes, neither string holds a NUL, the marker path is a C string
-- if it is not null, the globals were well formed before, `getopt_long` knows the option, and the
-- snapshot's simple map holds under the key what the handler reads from the process's memory, through
-- the dictionary that is registered.
pub dynamic_annotation_survives :
    (getopt_long : Bytes → Option Bytes) (c : Crashpad) (a : InitArgs) (cmdline : Option Bytes)
    (s t u : Bridge) (key value : Bytes) (m : ModuleSnapshot)
    → IsGetopt getopt_long
    → initialize_crashpad c a cmdline s ≡ some (true, t)
    → c.has_crashpad_info ≡ true
    → IsBridge s
    → IsCString a.marker_path
    → native_set_annotation (text (some key)) (text (some value)) t ≡ some u
    → IsKey key_size key
    → NulFree value
    → elem key (texts a.dynamic_annotation_keys) ≡ true
    → lookup key m.simple_map ≡ handler_reads u key
    → (call : StartCall) × (t.client ≡ some call)
      × (lookup key
            (module_annotations (some (read_options getopt_long [] call.arguments)) m).simple_map
          ≡ some (take 255 value))
dynamic_annotation_survives getopt_long c a cmdline s t u key value m g h info w path set k v dyn
      reads =
    let (call, e, started) = initialize_crashpad-Ends c a cmdline s (true, t) h in
    let (annotations, arguments) = prepare_lem a (get_process_name cmdline s.names).0 call e in
    let kept =
      build_arguments-Keeps getopt_long [] a.no_rate_limit call.annotations
        a.dynamic_annotation_keys call.arguments key [] (record { annotations = []; modules = [] })
        m g arguments in
    (
      call,
      started.client,
      kept.module_annotation
          ∙ passes _ (elem key (keys call.annotations) || elem key passthrough) _ _ dyn
              (reads ∙ readable c a cmdline s t u key value h info w path set k v),
    )
  where
    passes :
        (found : Option Bytes) (b b' : Bool) (value : Option Bytes)
        → b' ≡ true
        → found ≡ value
        → (if b || b' then found else none) ≡ value
    passes found b b' value p q = ground (arith, p, q)
