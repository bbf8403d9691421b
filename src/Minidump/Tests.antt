-- ===== src/Minidump/Tests.antt =====
-- Examples: a minidump of one thread that crashed, with annotations in all three places.
mod Parsed
use crashkit.Prelude.{
  true, false, not, ◌||◌, ℕ, ◌≡◌, refl, some, List, [], ◌∷◌, ◌==◌, if◌then◌else◌, arith, inr, take,
  map,
}
use crashkit.Prelude.Bytes.{Bytes, codes, ◌=b◌}
use crashkit.Minidump.Layout.{
  size_of, member, find_field, struct_field, field_at, number_at, unpack, slice, little_endian,
}
use crashkit.Minidump.Structs
use crashkit.Minidump.Extensions
use crashkit.Minidump.Streams.{minidump_misc_info_5}
use crashkit.Minidump.Dict.{get_item, set_item}
use crashkit.Minidump.Reader.{
  Text, Codecs, arch_str, exception_code_str, module_named, read_string, read_directory,
  with_stream, read_exception, read_thread_count, read_arch, read_modules, read_module_list,
}
use crashkit.Minidump.Reader.Annotations.{
  Annotations, parse_crashpad_annotations, read_crashpad_info, read_string_dictionary, read_entries,
  read_module_infos, read_links, read_module_info, read_annotation_objects, read_objects,
  read_object,
}
use crashkit.Minidump.Reader.Parse.{Metadata, streams_of, parse_streams, parse_minidump}
use crashkit.Minidump.Format.{CrashpadContent, HoldsArray, HasField, HoldsString, HoldsCrashpadInfo}
use crashkit.StdMap.{elem}
use crashkit.Minidump.Page.{
  in_process, in_module, Row, item_keys, insert_item, sorted_items, typed_rows, dmp_rows, set_union,
  all_dmp_keys, count, filtered_count, sent_count,
}
use crashkit.Minidump.Page.Counts.{row_keys, count_rows}
use crashkit.Minidump.Page.Parsed.{dmp_rows-parsed}
use crashkit.Minidump.Total.{Returns}
use crashkit.Minidump.Total.Parse.{parse_minidump-Returns}
use crashkit.Minidump.Content.Texts.{entry_texts, object_texts, module_texts, last_value}
use crashkit.Minidump.Content.Directory.{HoldsDump, last_location}
use crashkit.Minidump.Content.Results.{Reports, parse_minidump-Reports}
use crashkit.Minidump.Content.Crash.{HoldsException, parse_minidump-crash, parse_minidump-system}
use crashkit.Minidump.Content.ModuleList.{Image, listed, HoldsModuleList, parse_minidump-modules}

abbrev dump : Bytes
dump =
    77 ∷ 68 ∷ 77 ∷ 80 ∷ 147 ∷ 167 ∷ 0 ∷ 0 ∷ 5 ∷ 0 ∷ 0 ∷ 0 ∷ 32 ∷ 0 ∷ 0 ∷ 0 ∷ 0 ∷ 0 ∷ 0 ∷ 0 ∷ 0 ∷ 0
    ∷ 0 ∷ 0 ∷ 0 ∷ 0 ∷ 0 ∷ 0 ∷ 0 ∷ 0 ∷ 0 ∷ 0 ∷ 1 ∷ 0 ∷ 80 ∷ 67 ∷ 64 ∷ 0 ∷ 0 ∷ 0 ∷ 0 ∷ 1 ∷ 0 ∷ 0 ∷ 6
    ∷ 0 ∷ 0 ∷ 0 ∷ 168 ∷ 0 ∷ 0 ∷ 0 ∷ 92 ∷ 0 ∷ 0 ∷ 0 ∷ 3 ∷ 0 ∷ 0 ∷ 0 ∷ 4 ∷ 0 ∷ 0 ∷ 0 ∷ 124 ∷ 0 ∷ 0 ∷ 0
    ∷ 7 ∷ 0 ∷ 0 ∷ 0 ∷ 56 ∷ 0 ∷ 0 ∷ 0 ∷ 128 ∷ 0 ∷ 0 ∷ 0 ∷ 4 ∷ 0 ∷ 0 ∷ 0 ∷ 112 ∷ 0 ∷ 0 ∷ 0 ∷ 132 ∷ 0
    ∷ 0 ∷ 0 ∷ 7 ∷ 0 ∷ 0 ∷ 0 ∷ 0 ∷ 0 ∷ 0 ∷ 0 ∷ 11 ∷ 0 ∷ 0 ∷ 0 ∷ 0 ∷ 0 ∷ 0 ∷ 0 ∷ 34 ∷ 17 ∷ 0 ∷ 0 ∷ 0
    ∷ 0 ∷ 0 ∷ 0 ∷ 0 ∷ 16 ∷ 0 ∷ 127 ∷ 0 ∷ 0 ∷ 0 ∷ 0 ∷ 3 ∷ 0 ∷ 0 ∷ 0 ∷ 12 ∷ 0 ∷ 0 ∷ 0 ∷ 1 ∷ 0 ∷ 0 ∷ 0
    ∷ 0 ∷ 16 ∷ 0 ∷ 0 ∷ 0 ∷ 0 ∷ 0 ∷ 0 ∷ 64 ∷ 0 ∷ 0 ∷ 0 ∷ 0 ∷ 0 ∷ 0 ∷ 0 ∷ 0 ∷ 0 ∷ 0 ∷ 0 ∷ 244 ∷ 0 ∷ 0
    ∷ 0 ∷ 0 ∷ 0 ∷ 0 ∷ 0 ∷ 0 ∷ 0 ∷ 0 ∷ 0 ∷ 0 ∷ 0 ∷ 0 ∷ 0 ∷ 0 ∷ 0 ∷ 0 ∷ 0 ∷ 0 ∷ 0 ∷ 0 ∷ 0 ∷ 0 ∷ 0 ∷ 0
    ∷ 0 ∷ 0 ∷ 0 ∷ 0 ∷ 0 ∷ 0 ∷ 0 ∷ 0 ∷ 0 ∷ 0 ∷ 0 ∷ 0 ∷ 0 ∷ 0 ∷ 0 ∷ 0 ∷ 0 ∷ 0 ∷ 0 ∷ 0 ∷ 0 ∷ 0 ∷ 0 ∷ 0
    ∷ 0 ∷ 0 ∷ 0 ∷ 0 ∷ 0 ∷ 0 ∷ 0 ∷ 0 ∷ 0 ∷ 0 ∷ 0 ∷ 0 ∷ 0 ∷ 0 ∷ 0 ∷ 0 ∷ 0 ∷ 0 ∷ 0 ∷ 0 ∷ 0 ∷ 0 ∷ 0 ∷ 0
    ∷ 0 ∷ 0 ∷ 0 ∷ 0 ∷ 0 ∷ 0 ∷ 0 ∷ 0 ∷ 0 ∷ 0 ∷ 0 ∷ 0 ∷ 0 ∷ 6 ∷ 0 ∷ 0 ∷ 0 ∷ 97 ∷ 0 ∷ 47 ∷ 0 ∷ 98 ∷ 0
    ∷ 0 ∷ 0 ∷ 1 ∷ 0 ∷ 0 ∷ 0 ∷ 0 ∷ 1 ∷ 2 ∷ 3 ∷ 4 ∷ 5 ∷ 6 ∷ 7 ∷ 8 ∷ 9 ∷ 10 ∷ 11 ∷ 12 ∷ 13 ∷ 14 ∷ 15
    ∷ 0 ∷ 1 ∷ 2 ∷ 3 ∷ 4 ∷ 5 ∷ 6 ∷ 7 ∷ 8 ∷ 9 ∷ 10 ∷ 11 ∷ 12 ∷ 13 ∷ 14 ∷ 15 ∷ 20 ∷ 0 ∷ 0 ∷ 0 ∷ 64 ∷ 1
    ∷ 0 ∷ 0 ∷ 16 ∷ 0 ∷ 0 ∷ 0 ∷ 84 ∷ 1 ∷ 0 ∷ 0 ∷ 0 ∷ 0 ∷ 0 ∷ 0 ∷ 0 ∷ 0 ∷ 0 ∷ 0 ∷ 0 ∷ 0 ∷ 0 ∷ 0 ∷ 2
    ∷ 0 ∷ 0 ∷ 0 ∷ 168 ∷ 1 ∷ 0 ∷ 0 ∷ 176 ∷ 1 ∷ 0 ∷ 0 ∷ 168 ∷ 1 ∷ 0 ∷ 0 ∷ 184 ∷ 1 ∷ 0 ∷ 0 ∷ 1 ∷ 0 ∷ 0
    ∷ 0 ∷ 0 ∷ 0 ∷ 0 ∷ 0 ∷ 28 ∷ 0 ∷ 0 ∷ 0 ∷ 100 ∷ 1 ∷ 0 ∷ 0 ∷ 1 ∷ 0 ∷ 0 ∷ 0 ∷ 0 ∷ 0 ∷ 0 ∷ 0 ∷ 0 ∷ 0
    ∷ 0 ∷ 0 ∷ 12 ∷ 0 ∷ 0 ∷ 0 ∷ 128 ∷ 1 ∷ 0 ∷ 0 ∷ 28 ∷ 0 ∷ 0 ∷ 0 ∷ 140 ∷ 1 ∷ 0 ∷ 0 ∷ 1 ∷ 0 ∷ 0 ∷ 0
    ∷ 176 ∷ 1 ∷ 0 ∷ 0 ∷ 184 ∷ 1 ∷ 0 ∷ 0 ∷ 2 ∷ 0 ∷ 0 ∷ 0 ∷ 168 ∷ 1 ∷ 0 ∷ 0 ∷ 1 ∷ 0 ∷ 0 ∷ 0 ∷ 176 ∷ 1
    ∷ 0 ∷ 0 ∷ 168 ∷ 1 ∷ 0 ∷ 0 ∷ 3 ∷ 0 ∷ 0 ∷ 0 ∷ 176 ∷ 1 ∷ 0 ∷ 0 ∷ 1 ∷ 0 ∷ 0 ∷ 0 ∷ 112 ∷ 0 ∷ 0 ∷ 0
    ∷ 1 ∷ 0 ∷ 0 ∷ 0 ∷ 120 ∷ 0 ∷ 0 ∷ 0 ∷ 1 ∷ 0 ∷ 0 ∷ 0 ∷ 121 ∷ 0 ∷ 0 ∷ 0 ∷ []

-- Decoders that are right for ASCII.
abbrev low_bytes : Bytes → Text
low_bytes [] = []
low_bytes (a ∷ []) = a ∷ []
low_bytes (a ∷ b ∷ s) = a ∷ low_bytes s

abbrev after_slash : Text → Text → Text
after_slash [] last = last
after_slash (b ∷ s) last = after_slash s (if b == 47 then s else last)

abbrev ascii : Codecs
ascii = record { decode_utf8 = λ b. b; decode_utf16 = low_bytes; basename = λ s. after_slash s s }

abbrev directory : List (ℕ × ℕ)
directory = (0x43500001, 256) ∷ (6, 92) ∷ (3, 124) ∷ (7, 128) ∷ (4, 132) ∷ []

dump-HoldsDump : HoldsDump dump directory
unfolding field_at number_at member find_field struct_field ◌=b◌ size_of unpack slice little_endian
    HoldsArray
dump-HoldsDump = record {
  signature = refl;
  flags = 0;
  flags_field = refl;
  dir_rva = 32;
  count = refl;
  dir_field = refl;
  entries = ((refl, refl), ((refl, refl), ((refl, refl), ((refl, refl), ((refl, refl), tt)))));
}

last_crashpad : last_location 0x43500001 directory ≡ some 256
unfolding last_location
last_crashpad = refl

last_exception : last_location 6 directory ≡ some 92
unfolding last_location
last_exception = refl

last_threads : last_location 3 directory ≡ some 124
unfolding last_location
last_threads = refl

last_system : last_location 7 directory ≡ some 128
unfolding last_location
last_system = refl

last_modules : last_location 4 directory ≡ some 132
unfolding last_location
last_modules = refl

threads_field : HasField Structs.minidump_thread_list ("NumberOfThreads" ∷ []) dump 124 3
unfolding field_at number_at member find_field struct_field ◌=b◌ size_of unpack slice little_endian
    HoldsArray
threads_field = refl

system_field : HasField Structs.minidump_system_info ("ProcessorArchitecture" ∷ []) dump 128 12
unfolding field_at number_at member find_field struct_field ◌=b◌ size_of unpack slice little_endian
    HoldsArray
system_field = refl

abbrev content : CrashpadContent
content = record {
  simple_annotations = (codes "p", codes "x") ∷ (codes "p", codes "y") ∷ [];
  module_list =
      record {
        simple_annotations = (codes "x", codes "y") ∷ [];
        annotation_objects =
            record { name = codes "p"; type = 1; value = codes "x" }
            ∷ record { name = codes "p"; type = 3; value = codes "x" }
            ∷ [];
      }
      ∷ [];
}

p_held : HoldsString dump 424 (codes "p")
unfolding field_at number_at member find_field struct_field ◌=b◌ size_of unpack slice little_endian
    HoldsArray
p_held = (omega arith, refl, refl)

x_held : HoldsString dump 432 (codes "x")
unfolding field_at number_at member find_field struct_field ◌=b◌ size_of unpack slice little_endian
    HoldsArray
x_held = (omega arith, refl, refl)

y_held : HoldsString dump 440 (codes "y")
unfolding field_at number_at member find_field struct_field ◌=b◌ size_of unpack slice little_endian
    HoldsArray
y_held = (omega arith, refl, refl)

dump-HoldsCrashpadInfo : HoldsCrashpadInfo dump 256 content
unfolding field_at number_at member find_field struct_field ◌=b◌ size_of unpack slice little_endian
    HoldsArray
dump-HoldsCrashpadInfo = (
  320,
  340,
  refl,
  refl,
  inr (
    omega arith,
    (refl, ((424, 432, refl, refl, p_held, x_held), ((424, 440, refl, refl, p_held, y_held), tt))),
  ),
  inr (
    omega arith,
    (
      refl,
      (
        (
          356,
          refl,
          (
            384,
            396,
            refl,
            refl,
            inr (omega arith, (refl, ((432, 440, refl, refl, x_held, y_held), tt))),
            inr (
              omega arith,
              (
                refl,
                (
                  (424, 432, refl, refl, refl, p_held, x_held),
                  ((424, 432, refl, refl, refl, p_held, x_held), tt),
                ),
              ),
            ),
          ),
        ),
        tt,
      ),
    ),
  ),
)

parse_minidump-Reports_example :
    (r : Metadata) × (a : Annotations) × (parse_minidump ascii (some dump) ≡ some r)
    × (r.annotations ≡ some a)
    × Reports ascii content a
parse_minidump-Reports_example =
    parse_minidump-Reports ascii dump directory 256 content dump-HoldsDump last_crashpad
      dump-HoldsCrashpadInfo

-- What it reports: the value that was set last, and the annotations of the module.
last_p : last_value (codes "p") (entry_texts ascii content.simple_annotations) ≡ some (codes "y")
unfolding last_value entry_texts ◌=b◌
last_p = refl

typed_texts :
    module_texts ascii content.module_list ≡ (codes "x", codes "y") ∷ (codes "p", codes "x") ∷ []
unfolding module_texts entry_texts object_texts
typed_texts = refl

dump-HoldsException : HoldsException dump 92 7 11 0x1122 0x7f001000
unfolding field_at number_at member find_field struct_field ◌=b◌ size_of unpack slice little_endian
    HoldsArray
dump-HoldsException = record {
  thread_id = refl;
  exception_code = refl;
  exception_record = refl;
  exception_address = refl;
}

parse_minidump-crash_example :
    (r : Metadata) × (parse_minidump ascii (some dump) ≡ some r)
    × (r.crash
        ≡ some record {
          crash_thread_id = 7;
          exception_code = 11;
          exception_code_str = exception_code_str 11;
          exception_address = 0x1122;
        })
parse_minidump-crash_example =
    parse_minidump-crash ascii dump directory 92 7 11 0x1122 0x7f001000 dump-HoldsDump
      last_exception dump-HoldsException

parse_minidump-system_example :
    (r : Metadata) × (parse_minidump ascii (some dump) ≡ some r)
    × (r.num_threads ≡ some 3)
    × (r.processor_arch ≡ some (arch_str 12))
parse_minidump-system_example =
    parse_minidump-system ascii dump directory 124 128 3 12 dump-HoldsDump last_threads
      threads_field last_system system_field

abbrev images : List Image
images = record { base = 0x1000; size = 64; name = 97 ∷ 0 ∷ 47 ∷ 0 ∷ 98 ∷ 0 ∷ [] } ∷ []

dump-HoldsModuleList : HoldsModuleList dump 132 images
unfolding field_at number_at member find_field struct_field ◌=b◌ size_of unpack slice little_endian
    HoldsArray
dump-HoldsModuleList = (refl, ((244, refl, refl, refl, (omega arith, refl, refl), 0, refl), tt))

parse_minidump-modules_example :
    (r : Metadata) × (parse_minidump ascii (some dump) ≡ some r)
    × (r.modules ≡ some (map (listed ascii) images))
parse_minidump-modules_example =
    parse_minidump-modules ascii dump directory 132 images dump-HoldsDump last_modules
      dump-HoldsModuleList

parse_minidump-Returns_example : Returns (parse_minidump ascii (some (take 100 dump)))
parse_minidump-Returns_example = parse_minidump-Returns ascii (some (take 100 dump))
