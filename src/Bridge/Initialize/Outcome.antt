-- ===== src/Bridge/Initialize/Outcome.antt =====
-- What `initializeCrashpad` returns and leaves behind, on every branch.
use crashkit.Prelude.{
  suc, ◌≤◌, ◌≡◌, refl, sym, subst, ◌||◌, Bool, true, false, ◌&&◌, Option, none, some, [], ◌∷◌, ◌++◌,
  ◌⊎◌, arith, if◌then◌else◌, length, All, bind-eq-some, some_cancel,
}
use crashkit.Prelude.Bytes.{Bytes}
use crashkit.Process.{get_process_name}
use crashkit.StdMap.{lookup, keys, elem}
use crashkit.Dictionary
use crashkit.Bridge.{
  JString, null_ref, text, get_or_unknown, disabled, StartCall, Crashpad, Bridge, InitArgs,
  key_size, value_size, num_entries, merge_annotations, build_arguments, passthrough,
}
use crashkit.Bridge.Annotations.{
  IsText, given, or_else, required, merge_annotations_total, merge_annotations-lookup,
}
use crashkit.Bridge.Arguments.{
  texts, allows, build_arguments-allows, build_arguments_total, NotNull,
}
use crashkit.Bridge.Marker.{set_marker_path}
use crashkit.Bridge.Initialize.{make_call, required_of, prepare, open_database, initialize_crashpad}

-- What the Kotlin side passes: strings that can be read, and a value for each key.
pub record IsKotlinArgs (a : InitArgs) : Type 0 where
  pub keys_text : All IsText a.annotation_keys
  pub values_text : All IsText a.annotation_values
  pub paired : length a.annotation_keys ≤ length a.annotation_values
  pub dynamic_text : All NotNull a.dynamic_annotation_keys

prepare_total :
    (a : InitArgs) (process : Bytes)
    → IsKotlinArgs a
    → (call : StartCall) × (prepare a process ≡ some call)
unfolding prepare
prepare_total a process h =
    let (m, e) =
      merge_annotations_total a.annotation_keys a.annotation_values (required_of a process)
        h.keys_text h.values_text h.paired in
    let (args, f) =
      build_arguments_total a.no_rate_limit m a.dynamic_annotation_keys h.dynamic_text in
    (make_call a m args, rw (e, f))

-- With strings that can be read and a value for each annotation key, `initializeCrashpad` always
-- returns.
pub initialize_crashpad_total :
    (c : Crashpad) (a : InitArgs) (cmdline : Option Bytes) (s : Bridge)
    → IsKotlinArgs a
    → (r : Bool × Bridge) × (initialize_crashpad c a cmdline s ≡ some r)
unfolding initialize_crashpad
initialize_crashpad_total c a cmdline s h =
    let (call, e) = prepare_total a (get_process_name cmdline s.names).0 h in
    (open_database c a call (record s { names = (get_process_name cmdline s.names).1 }), rw e)

-- The client library accepts the database, has its settings and starts the handler.
abbrev pub accepts : Crashpad → StartCall → Bool
accepts c call = c.initialize_database call.database && (c.has_settings && c.start_handler call)

-- The state after the client library accepted everything.
pub record Started (c : Crashpad) (a : InitArgs) (call : StartCall) (s t : Bridge) : Type 0 where
  pub accepted : accepts c call ≡ true
  pub client : t.client ≡ some call
  pub uploads : t.uploads_enabled ≡ some a.uploads_enabled
  pub started : t.started ≡ s.started ++ call ∷ []
  pub names : t.names ≡ s.names
  pub dumps : t.dumps ≡ s.dumps
  pub gather :
      t.info.gather_indirectly_referenced_memory
      ≡ (if c.has_crashpad_info then disabled else s.info.gather_indirectly_referenced_memory)
  pub memory_cap :
      t.info.indirectly_referenced_memory_cap
      ≡ (if c.has_crashpad_info then 0 else s.info.indirectly_referenced_memory_cap)
  pub registered :
      t.info.simple_annotations
      ≡ (if c.has_crashpad_info then some t.dynamic_address else s.info.simple_annotations)
  pub address :
      t.dynamic_address ≡ (if c.has_crashpad_info then suc s.dynamic_address else s.dynamic_address)
  pub handler_behavior : t.info.crashpad_handler_behavior ≡ s.info.crashpad_handler_behavior
  pub forwarding : t.info.system_crash_reporter_forwarding ≡ s.info.system_crash_reporter_forwarding
  pub extra_memory : t.info.has_extra_memory_ranges ≡ s.info.has_extra_memory_ranges
  pub annotations_list : t.info.has_annotations_list ≡ s.info.has_annotations_list
  pub dynamic : t.dynamic_annotations ≡ (
      if c.has_crashpad_info
      then some (Dictionary.new key_size value_size num_entries)
      else s.dynamic_annotations)
  pub marker : t.crash_marker_path ≡ (set_marker_path a.marker_path s).crash_marker_path
  pub first_chance : t.first_chance ≡ (set_marker_path a.marker_path s).first_chance

-- The state after the client library refused something: the uploads setting is written before a
-- handler is started, and nothing else is.
pub record Refused (c : Crashpad) (a : InitArgs) (call : StartCall) (s t : Bridge) : Type 0 where
  pub refused : accepts c call ≡ false
  pub client : t.client ≡ s.client
  pub names : t.names ≡ s.names
  pub dumps : t.dumps ≡ s.dumps
  pub info : t.info ≡ s.info
  pub dynamic : t.dynamic_annotations ≡ s.dynamic_annotations
  pub address : t.dynamic_address ≡ s.dynamic_address
  pub marker : t.crash_marker_path ≡ s.crash_marker_path
  pub first_chance : t.first_chance ≡ s.first_chance
  pub uploads_first :
      ((t.started ≡ s.started) × (t.uploads_enabled ≡ s.uploads_enabled))
      ⊎ ((t.started ≡ s.started ++ call ∷ []) × (t.uploads_enabled ≡ some a.uploads_enabled))

abbrev pub Ends : Crashpad → InitArgs → StartCall → Bridge → Bool × Bridge → Type 0
Ends c a call s (true, t) = Started c a call s t
Ends c a call s (false, t) = Refused c a call s t

Started-accepts :
    (c : Crashpad) (a : InitArgs) (call : StartCall) (s : Bridge) (marker : JString)
    → accepts c call ≡ true
    → a.marker_path ≡ marker
    → Started c a call s (open_database c a call s).1
unfolding open_database set_marker_path
Started-accepts c a call s null_ref h e = ground arith
Started-accepts c a call s (text none) h e = ground arith
Started-accepts c a call s (text (some chars)) h e = ground arith

Refused-Ends :
    (c : Crashpad) (a : InitArgs) (call : StartCall) (s : Bridge)
    → accepts c call ≡ false
    → Refused c a call s (open_database c a call s).1
unfolding open_database
Refused-Ends c a call s h = ground arith

open_database-result :
    (c : Crashpad) (a : InitArgs) (call : StartCall) (s : Bridge)
    → (open_database c a call s).0 ≡ accepts c call
unfolding open_database
open_database-result c a call s = ground arith

Ends-of_result :
    (c : Crashpad) (a : InitArgs) (call : StartCall) (s : Bridge) (r : Bool × Bridge)
    → r.0 ≡ accepts c call
    → (accepts c call ≡ true → Started c a call s r.1)
    → (accepts c call ≡ false → Refused c a call s r.1)
    → Ends c a call s r
Ends-of_result c a call s (true, t) h f g = f (sym h)
Ends-of_result c a call s (false, t) h f g = g (sym h)

pub initialize_crashpad-Ends :
    (c : Crashpad) (a : InitArgs) (cmdline : Option Bytes) (s : Bridge) (r : Bool × Bridge)
    → initialize_crashpad c a cmdline s ≡ some r
    → (call : StartCall) × (prepare a (get_process_name cmdline s.names).0 ≡ some call)
      × Ends c a call (record s { names = (get_process_name cmdline s.names).1 }) r
unfolding initialize_crashpad
initialize_crashpad-Ends c a cmdline s r h =
    let s' : Bridge = record s { names = (get_process_name cmdline s.names).1 } in
    let (call, e, k) = bind-eq-some (prepare a (get_process_name cmdline s.names).0) _ h in
    (
      call,
      e,
      subst (Ends c a call s') (some_cancel k) (
          Ends-of_result c a call s' (open_database c a call s') (open_database-result c a call s')
            (λ q. Started-accepts c a call s' a.marker_path q refl) (Refused-Ends c a call s')),
    )

abbrev pub IsMade : InitArgs → Bytes → StartCall → Type 0
IsMade a process call =
    (merge_annotations a.annotation_keys a.annotation_values (required_of a process)
      ≡ some call.annotations)
    × (build_arguments a.no_rate_limit call.annotations a.dynamic_annotation_keys
        ≡ some call.arguments)

-- The annotations and the arguments of a prepared call.
pub prepare_lem :
    (a : InitArgs) (process : Bytes) (call : StartCall)
    → prepare a process ≡ some call
    → IsMade a process call
unfolding prepare make_call
prepare_lem a process call h =
    let (m, e, h') =
      bind-eq-some (merge_annotations a.annotation_keys a.annotation_values (required_of a process))
        _ h in
    let (args, f, h'') =
      bind-eq-some (build_arguments a.no_rate_limit m a.dynamic_annotation_keys) _ h' in
    let q : make_call a m args ≡ call = some_cancel h'' in subst (IsMade a process) q (e, f)

-- In a prepared call each annotation has the last value that the caller gave for its key, or else
-- its required value, the role of the process among them; and the arguments let a key through
-- exactly if it is a key of these annotations, `ptype` or `osarch`, or a dynamic key.
pub prepare-allows :
    (a : InitArgs) (process k : Bytes) (call : StartCall)
    → prepare a process ≡ some call
    → (lookup k call.annotations
        ≡ or_else (given k a.annotation_keys a.annotation_values) (
            required process
              (get_or_unknown a.platform)
              (get_or_unknown a.version)
              (get_or_unknown a.os_version)
              k))
      × (allows call.arguments k
          ≡ (elem k (keys call.annotations) || elem k passthrough)
            || elem k (texts a.dynamic_annotation_keys))
prepare-allows a process k call h =
    let (m, g) = prepare_lem a process call h in
    (
      (merge_annotations-lookup _ _ _ _ _ _ k call.annotations m).0,
      build_arguments-allows _ _ _ _ k g,
    )
