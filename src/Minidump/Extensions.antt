-- ===== src/Minidump/Extensions.antt =====
-- minidump/minidump_extensions.h: the structures that crashpad adds to the format, with `UUID`.
use crashkit.Prelude.{ℕ, [], ◌∷◌}
use crashkit.Minidump.Layout.{CType, u8, u16, u32, u64, array, struct, fields}
use crashkit.Minidump.Structs.{rva, minidump_location_descriptor}

abbrev pub minidump_utf8_string : CType
minidump_utf8_string = struct (fields (("Length", u32) ∷ ("Buffer", array u8 0) ∷ []))

abbrev pub minidump_byte_array : CType
minidump_byte_array = struct (fields (("length", u32) ∷ ("data", array u8 0) ∷ []))

abbrev pub minidump_rva_list : CType
minidump_rva_list = struct (fields (("count", u32) ∷ ("children", array rva 0) ∷ []))

abbrev pub minidump_simple_string_dictionary_entry : CType
minidump_simple_string_dictionary_entry = struct (fields (("key", rva) ∷ ("value", rva) ∷ []))

abbrev pub minidump_simple_string_dictionary : CType
minidump_simple_string_dictionary =
    struct
      (fields (("count", u32) ∷ ("entries", array minidump_simple_string_dictionary_entry 0) ∷ []))

abbrev pub minidump_annotation : CType
minidump_annotation =
    struct (fields (("name", rva) ∷ ("type", u16) ∷ ("reserved", u16) ∷ ("value", rva) ∷ []))

abbrev pub minidump_annotation_list : CType
minidump_annotation_list =
    struct (fields (("count", u32) ∷ ("objects", array minidump_annotation 0) ∷ []))

abbrev pub minidump_module_crashpad_info : CType
minidump_module_crashpad_info = struct (
    fields (
      ("version", u32)
      ∷ ("list_annotations", minidump_location_descriptor)
      ∷ ("simple_annotations", minidump_location_descriptor)
      ∷ ("annotation_objects", minidump_location_descriptor)
      ∷ []))

abbrev pub minidump_module_crashpad_info_link : CType
minidump_module_crashpad_info_link =
    struct (
      fields
        (("minidump_module_list_index", u32) ∷ ("location", minidump_location_descriptor) ∷ []))

abbrev pub minidump_module_crashpad_info_list : CType
minidump_module_crashpad_info_list =
    struct (fields (("count", u32) ∷ ("modules", array minidump_module_crashpad_info_link 0) ∷ []))

abbrev pub uuid : CType
uuid = struct (
    fields (
      ("data_1", u32)
      ∷ ("data_2", u16)
      ∷ ("data_3", u16)
      ∷ ("data_4", array u8 2)
      ∷ ("data_5", array u8 6)
      ∷ []))

abbrev pub minidump_crashpad_info : CType
minidump_crashpad_info = struct (
    fields (
      ("version", u32)
      ∷ ("report_id", uuid)
      ∷ ("client_id", uuid)
      ∷ ("simple_annotations", minidump_location_descriptor)
      ∷ ("module_list", minidump_location_descriptor)
      ∷ ("reserved", u32)
      ∷ ("address_mask", u64)
      ∷ []))

-- `MinidumpStreamType`, of which these are read.
abbrev pub thread_list_stream : ℕ
thread_list_stream = 3

abbrev pub module_list_stream : ℕ
module_list_stream = 4

abbrev pub exception_stream : ℕ
exception_stream = 6

abbrev pub system_info_stream : ℕ
system_info_stream = 7

abbrev pub crashpad_info_stream : ℕ
crashpad_info_stream = 0x43500001
