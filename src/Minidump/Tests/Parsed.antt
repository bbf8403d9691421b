-- ===== src/Minidump/Tests/Parsed.antt =====
-- Tests of the reader on the minidump, and of the table that the server shows.
use crashkit.Prelude.{true, false, not, ◌||◌, ◌≡◌, refl, some, [], ◌∷◌, if◌then◌else◌}
use crashkit.Prelude.Bytes.{codes, ◌=b◌}
use crashkit.Minidump.Layout.{size_of, unpack, slice, little_endian}
use crashkit.Minidump.Structs
use crashkit.Minidump.Extensions
use crashkit.Minidump.Streams.{minidump_misc_info_5}
use crashkit.Minidump.Dict.{get_item, set_item}
use crashkit.Minidump.Reader.{
  Text, arch_str, exception_code_str, module_named, read_string, read_directory, with_stream,
  read_exception, read_thread_count, read_arch, read_modules, read_module_list,
}
use crashkit.Minidump.Reader.Annotations.{
  Annotations, parse_crashpad_annotations, read_crashpad_info, read_string_dictionary, read_entries,
  read_module_infos, read_links, read_module_info, read_annotation_objects, read_objects,
  read_object,
}
use crashkit.Minidump.Reader.Parse.{Metadata, streams_of, parse_streams, parse_minidump}
use crashkit.StdMap.{elem}
use crashkit.Minidump.Page.{
  in_process, in_module, item_keys, insert_item, sorted_items, typed_rows, dmp_rows, set_union,
  all_dmp_keys, count, filtered_count, sent_count,
}
use crashkit.Minidump.Page.Counts.{row_keys, count_rows}
use crashkit.Minidump.Page.Parsed.{dmp_rows-parsed}
use crashkit.Minidump.Tests.{dump, ascii}

-- The processors of the devices: the names are those of other ones.
arm64_name : arch_str 12 ≡ codes "arm"
unfolding arch_str
arm64_name = refl

arm_name : arch_str 5 ≡ codes "arch_5"
unfolding arch_str
arm_name = refl

sigsegv_name : exception_code_str 11 ≡ codes "SIGSEGV"
unfolding exception_code_str
sigsegv_name = refl

unknown_name : exception_code_str 0xDEAD10CC ≡ codes "0xDEAD10CC"
unfolding exception_code_str
unknown_name = refl

-- Sizes of the structures.
module_size : size_of Structs.minidump_module ≡ 108
unfolding size_of
module_size = refl

crashpad_info_size : size_of Extensions.minidump_crashpad_info ≡ 64
unfolding size_of
crashpad_info_size = refl

misc_info_size : size_of minidump_misc_info_5 ≡ 1364
unfolding size_of
misc_info_size = refl

abbrev shown : Annotations
shown = record {
  simple = (codes "p", codes "y") ∷ [];
  typed = (codes "x", codes "y") ∷ (codes "p", codes "x") ∷ [];
}

abbrev result : Metadata
result = record {
  crash = some record {
    crash_thread_id = 7;
    exception_code = 11;
    exception_code_str = codes "SIGSEGV";
    exception_address = 0x1122;
  };
  num_threads = some 3;
  processor_arch = some (codes "arm");
  modules = some (record { name = codes "b"; base = 0x1000; size = 64 } ∷ []);
  annotations = some shown;
}

parsed : parse_minidump ascii (some dump) ≡ some result
unfolding parse_minidump ◌=b◌ streams_of unpack slice read_directory little_endian parse_streams
    with_stream get_item set_item read_exception read_thread_count read_arch read_module_list
    read_modules read_string parse_crashpad_annotations read_crashpad_info read_string_dictionary
    read_entries read_module_infos read_links read_module_info read_annotation_objects read_objects
    read_object exception_code_str arch_str module_named
parsed = refl

dmp_rows-parsed_example :
    (count_rows (λ b. b) (dmp_rows (codes "x" ∷ []) shown) ≡ filtered_count (codes "x" ∷ []) shown)
    × (count_rows not (dmp_rows (codes "x" ∷ []) shown) ≡ sent_count (codes "x" ∷ []) shown)
    × ((k : Text)
        → count (λ j. k =b j) (row_keys (dmp_rows (codes "x" ∷ []) shown))
          ≡ (if elem k (item_keys shown.simple) || elem k (item_keys shown.typed) then 1 else 0))
dmp_rows-parsed_example =
    dmp_rows-parsed ascii (some dump) (codes "x" ∷ []) result shown parsed refl

-- The second value of p is that of the module, which has no row of its own.
rows :
    dmp_rows (codes "x" ∷ []) shown
    ≡ record { key = codes "p"; value = codes "y"; filtered = true; place = in_process }
      ∷ record { key = codes "x"; value = codes "y"; filtered = false; place = in_module }
      ∷ []
unfolding dmp_rows sorted_items insert_item typed_rows ◌=b◌
rows = refl

badges : (filtered_count (codes "x" ∷ []) shown ≡ 1) × (sent_count (codes "x" ∷ []) shown ≡ 1)
unfolding filtered_count sent_count all_dmp_keys set_union count ◌=b◌
badges = (refl, refl)
