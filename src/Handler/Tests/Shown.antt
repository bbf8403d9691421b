-- ===== src/Handler/Tests/Shown.antt =====
-- The annotation of the tests of the handler, in a minidump and at the collection server.
use crashkit.Prelude.{
  ℕ, ◌≡◌, refl, false, Option, some, none, List, [], ◌∷◌, take, inl, inr, arith, Occurs, here,
}
use crashkit.Prelude.Bytes.{Bytes, codes, ◌=b◌, is_nul_free→NulFree}
use crashkit.Bridge.{StartCall, build_arguments, merge_annotations}
use crashkit.Bridge.Initialize.{initialize_crashpad, prepare, open_database}
use crashkit.Handler.{read_options, module_annotations}
use crashkit.Handler.Shown.{dynamic_annotation_shown}
use crashkit.Handler.Tests.{
  getopt, accepting, args, fresh, started, annotated, module_snapshot, getopt-IsGetopt, started_lem,
  fresh-IsBridge, annotated_lem, tab-IsKey, tab_is_dynamic, snapshot_lem,
}
use crashkit.Minidump.Layout.{
  size_of, member, find_field, struct_field, field_at, number_at, unpack, slice, little_endian,
}
use crashkit.Minidump.Extensions.{crashpad_info_stream}
use crashkit.Minidump.Reader.{Codecs}
use crashkit.Minidump.Reader.Annotations.{Annotations}
use crashkit.Minidump.Reader.Parse.{Metadata, parse_minidump}
use crashkit.Minidump.Format.{
  ModuleInfo, CrashpadContent, HoldsArray, HoldsString, HoldsCrashpadInfo,
}
use crashkit.Minidump.Content.Directory.{HoldsDump, last_location}

abbrev dump : Bytes
dump =
    77 ∷ 68 ∷ 77 ∷ 80 ∷ 147 ∷ 167 ∷ 0 ∷ 0 ∷ 1 ∷ 0 ∷ 0 ∷ 0 ∷ 32 ∷ 0 ∷ 0 ∷ 0 ∷ 0 ∷ 0 ∷ 0 ∷ 0 ∷ 0 ∷ 0
    ∷ 0 ∷ 0 ∷ 0 ∷ 0 ∷ 0 ∷ 0 ∷ 0 ∷ 0 ∷ 0 ∷ 0 ∷ 1 ∷ 0 ∷ 80 ∷ 67 ∷ 64 ∷ 0 ∷ 0 ∷ 0 ∷ 44 ∷ 0 ∷ 0 ∷ 0 ∷ 1
    ∷ 0 ∷ 0 ∷ 0 ∷ 0 ∷ 0 ∷ 0 ∷ 0 ∷ 0 ∷ 0 ∷ 0 ∷ 0 ∷ 0 ∷ 0 ∷ 0 ∷ 0 ∷ 0 ∷ 0 ∷ 0 ∷ 0 ∷ 0 ∷ 0 ∷ 0 ∷ 0 ∷ 0
    ∷ 0 ∷ 0 ∷ 0 ∷ 0 ∷ 0 ∷ 0 ∷ 0 ∷ 0 ∷ 0 ∷ 0 ∷ 0 ∷ 0 ∷ 0 ∷ 0 ∷ 0 ∷ 0 ∷ 0 ∷ 0 ∷ 0 ∷ 16 ∷ 0 ∷ 0 ∷ 0
    ∷ 108 ∷ 0 ∷ 0 ∷ 0 ∷ 0 ∷ 0 ∷ 0 ∷ 0 ∷ 0 ∷ 0 ∷ 0 ∷ 0 ∷ 0 ∷ 0 ∷ 0 ∷ 0 ∷ 1 ∷ 0 ∷ 0 ∷ 0 ∷ 0 ∷ 0 ∷ 0
    ∷ 0 ∷ 28 ∷ 0 ∷ 0 ∷ 0 ∷ 124 ∷ 0 ∷ 0 ∷ 0 ∷ 1 ∷ 0 ∷ 0 ∷ 0 ∷ 0 ∷ 0 ∷ 0 ∷ 0 ∷ 0 ∷ 0 ∷ 0 ∷ 0 ∷ 12 ∷ 0
    ∷ 0 ∷ 0 ∷ 152 ∷ 0 ∷ 0 ∷ 0 ∷ 0 ∷ 0 ∷ 0 ∷ 0 ∷ 0 ∷ 0 ∷ 0 ∷ 0 ∷ 1 ∷ 0 ∷ 0 ∷ 0 ∷ 164 ∷ 0 ∷ 0 ∷ 0
    ∷ 172 ∷ 0 ∷ 0 ∷ 0 ∷ 3 ∷ 0 ∷ 0 ∷ 0 ∷ 116 ∷ 97 ∷ 98 ∷ 0 ∷ 1 ∷ 0 ∷ 0 ∷ 0 ∷ 51 ∷ []

abbrev ascii : Codecs
ascii = record { decode_utf8 = λ b. b; decode_utf16 = λ b. b; basename = λ s. s }

abbrev directory : List (ℕ × ℕ)
directory = (0x43500001, 44) ∷ []

abbrev written : ModuleInfo
written = record { simple_annotations = (codes "tab", codes "3") ∷ []; annotation_objects = [] }

abbrev content : CrashpadContent
content = record { simple_annotations = []; module_list = written ∷ [] }

dump-HoldsDump : HoldsDump dump directory
unfolding field_at number_at member find_field struct_field ◌=b◌ size_of unpack slice little_endian
    HoldsArray
dump-HoldsDump = record {
  signature = refl;
  flags = 0;
  flags_field = refl;
  dir_rva = 32;
  count = refl;
  dir_field = refl;
  entries = ((refl, refl), tt);
}

last_crashpad : last_location crashpad_info_stream directory ≡ some 44
unfolding last_location
last_crashpad = refl

tab_held : HoldsString dump 164 (codes "tab")
unfolding field_at number_at member find_field struct_field ◌=b◌ size_of unpack slice little_endian
    HoldsArray
tab_held = (omega arith, refl, refl)

value_held : HoldsString dump 172 (codes "3")
unfolding field_at number_at member find_field struct_field ◌=b◌ size_of unpack slice little_endian
    HoldsArray
value_held = (omega arith, refl, refl)

dump-HoldsCrashpadInfo : HoldsCrashpadInfo dump 44 content
unfolding field_at number_at member find_field struct_field ◌=b◌ size_of unpack slice little_endian
    HoldsArray
dump-HoldsCrashpadInfo = (
  0,
  108,
  refl,
  refl,
  inl (refl, refl),
  inr (
    omega arith,
    (
      refl,
      (
        (
          124,
          refl,
          (
            152,
            0,
            refl,
            refl,
            inr (omega arith, (refl, ((164, 172, refl, refl, tab_held, value_held), tt))),
            inl (refl, refl),
          ),
        ),
        tt,
      ),
    ),
  ),
)

abbrev call_of : Option StartCall → StartCall
call_of none = record {
  handler = [];
  database = [];
  metrics_dir = [];
  url = [];
  annotations = [];
  arguments = [];
  restartable = false;
  asynchronous_start = false;
  attachments = [];
}
call_of (some call) = call

abbrev call : StartCall
call = call_of started.client

client_lem : started.client ≡ some call
unfolding initialize_crashpad prepare open_database merge_annotations build_arguments
client_lem = refl

written_lem :
    written.simple_annotations
    ≡ (module_annotations (some (read_options getopt [] call.arguments)) module_snapshot).simple_map
unfolding initialize_crashpad prepare open_database merge_annotations build_arguments read_options
    ◌=b◌ module_annotations crashkit.Handler.filter_simple_map crashkit.Bridge.Initialize.make_call
    crashkit.Bridge.required_annotations crashkit.StdMap.put crashkit.Prelude.Bytes.bytes_lt
written_lem = refl

dynamic_annotation_shown_example :
    (r : Metadata) × (shown : Annotations) × (parse_minidump ascii (some dump) ≡ some r)
    × (r.annotations ≡ some shown)
    × Occurs (codes "tab", take 255 (codes "3")) shown.typed
dynamic_annotation_shown_example =
    dynamic_annotation_shown getopt accepting args none fresh started annotated (codes "tab")
      (codes "3") module_snapshot call ascii dump directory 44 content written getopt-IsGetopt
      started_lem refl fresh-IsBridge tt annotated_lem tab-IsKey
      (is_nul_free→NulFree (codes "3") refl) tab_is_dynamic snapshot_lem client_lem dump-HoldsDump
      last_crashpad dump-HoldsCrashpadInfo (here refl) written_lem (omega arith) refl
