-- ===== src/Minidump/Streams.antt =====
-- compat/non_win/dbghelp.h, with winnt.h, minwinbase.h and timezoneapi.h: the structures of the
-- streams that the reader leaves alone.
use Prim.Native.String.{String}
use crashkit.Prelude.{List, [], ◌∷◌, ◌++◌}
use crashkit.Minidump.Layout.{CType, u16, u32, u64, array, struct, fields}
use crashkit.Minidump.Structs.{rva, rva64, minidump_memory_descriptor}

abbrev pub minidump_memory_list : CType
minidump_memory_list = struct (
    fields
      (("NumberOfMemoryRanges", u32) ∷ ("MemoryRanges", array minidump_memory_descriptor 0) ∷ []))

abbrev pub minidump_handle_descriptor_parts : List (String × CType)
minidump_handle_descriptor_parts =
    ("Handle", u64)
    ∷ ("TypeNameRva", rva)
    ∷ ("ObjectNameRva", rva)
    ∷ ("Attributes", u32)
    ∷ ("GrantedAccess", u32)
    ∷ ("HandleCount", u32)
    ∷ ("PointerCount", u32)
    ∷ []

abbrev pub minidump_handle_descriptor : CType
minidump_handle_descriptor = struct (fields minidump_handle_descriptor_parts)

abbrev pub minidump_handle_descriptor_2_parts : List (String × CType)
minidump_handle_descriptor_2_parts =
    minidump_handle_descriptor_parts ++ (("ObjectInfoRva", rva) ∷ ("Reserved0", u32) ∷ [])

abbrev pub minidump_handle_descriptor_2 : CType
minidump_handle_descriptor_2 = struct (fields minidump_handle_descriptor_2_parts)

abbrev pub minidump_handle_data_stream : CType
minidump_handle_data_stream = struct (
    fields (
      ("SizeOfHeader", u32)
      ∷ ("SizeOfDescriptor", u32)
      ∷ ("NumberOfDescriptors", u32)
      ∷ ("Reserved", u32)
      ∷ []))

abbrev pub minidump_unloaded_module : CType
minidump_unloaded_module = struct (
    fields (
      ("BaseOfImage", u64)
      ∷ ("SizeOfImage", u32)
      ∷ ("CheckSum", u32)
      ∷ ("TimeDateStamp", u32)
      ∷ ("ModuleNameRva", rva)
      ∷ []))

abbrev pub minidump_unloaded_module_list : CType
minidump_unloaded_module_list =
    struct (fields (("SizeOfHeader", u32) ∷ ("SizeOfEntry", u32) ∷ ("NumberOfEntries", u32) ∷ []))

abbrev pub xstate_feature : CType
xstate_feature = struct (fields (("Offset", u32) ∷ ("Size", u32) ∷ []))

-- `MAXIMUM_XSTATE_FEATURES` is 64.
abbrev pub xstate_config_feature_msc_info : CType
xstate_config_feature_msc_info = struct (
    fields (
      ("SizeOfInfo", u32)
      ∷ ("ContextSize", u32)
      ∷ ("EnabledFeatures", u64)
      ∷ ("Features", array xstate_feature 64)
      ∷ []))

abbrev pub systemtime : CType
systemtime = struct (
    fields (
      ("wYear", u16)
      ∷ ("wMonth", u16)
      ∷ ("wDayOfWeek", u16)
      ∷ ("wDay", u16)
      ∷ ("wHour", u16)
      ∷ ("wMinute", u16)
      ∷ ("wSecond", u16)
      ∷ ("wMilliseconds", u16)
      ∷ []))

abbrev pub time_zone_information : CType
time_zone_information = struct (
    fields (
      ("Bias", u32)
      ∷ ("StandardName", array u16 32)
      ∷ ("StandardDate", systemtime)
      ∷ ("StandardBias", u32)
      ∷ ("DaylightName", array u16 32)
      ∷ ("DaylightDate", systemtime)
      ∷ ("DaylightBias", u32)
      ∷ []))

abbrev pub minidump_misc_info_parts : List (String × CType)
minidump_misc_info_parts =
    ("SizeOfInfo", u32)
    ∷ ("Flags1", u32)
    ∷ ("ProcessId", u32)
    ∷ ("ProcessCreateTime", u32)
    ∷ ("ProcessUserTime", u32)
    ∷ ("ProcessKernelTime", u32)
    ∷ []

abbrev pub minidump_misc_info : CType
minidump_misc_info = struct (fields minidump_misc_info_parts)

abbrev pub minidump_misc_info_2_parts : List (String × CType)
minidump_misc_info_2_parts =
    minidump_misc_info_parts
    ++ (("ProcessorMaxMhz", u32)
        ∷ ("ProcessorCurrentMhz", u32)
        ∷ ("ProcessorMhzLimit", u32)
        ∷ ("ProcessorMaxIdleState", u32)
        ∷ ("ProcessorCurrentIdleState", u32)
        ∷ [])

abbrev pub minidump_misc_info_2 : CType
minidump_misc_info_2 = struct (fields minidump_misc_info_2_parts)

abbrev pub minidump_misc_info_3_parts : List (String × CType)
minidump_misc_info_3_parts =
    minidump_misc_info_2_parts
    ++ (("ProcessIntegrityLevel", u32)
        ∷ ("ProcessExecuteFlags", u32)
        ∷ ("ProtectedProcess", u32)
        ∷ ("TimeZoneId", u32)
        ∷ ("TimeZone", time_zone_information)
        ∷ [])

abbrev pub minidump_misc_info_3 : CType
minidump_misc_info_3 = struct (fields minidump_misc_info_3_parts)

abbrev pub minidump_misc_info_4_parts : List (String × CType)
minidump_misc_info_4_parts =
    minidump_misc_info_3_parts
    ++ (("BuildString", array u16 260) ∷ ("DbgBldStr", array u16 40) ∷ [])

abbrev pub minidump_misc_info_4 : CType
minidump_misc_info_4 = struct (fields minidump_misc_info_4_parts)

abbrev pub minidump_misc_info_5_parts : List (String × CType)
minidump_misc_info_5_parts =
    minidump_misc_info_4_parts
    ++ (("XStateData", xstate_config_feature_msc_info) ∷ ("ProcessCookie", u32) ∷ [])

abbrev pub minidump_misc_info_5 : CType
minidump_misc_info_5 = struct (fields minidump_misc_info_5_parts)

abbrev pub minidump_memory_info : CType
minidump_memory_info = struct (
    fields (
      ("BaseAddress", u64)
      ∷ ("AllocationBase", u64)
      ∷ ("AllocationProtect", u32)
      ∷ ("__alignment1", u32)
      ∷ ("RegionSize", u64)
      ∷ ("State", u32)
      ∷ ("Protect", u32)
      ∷ ("Type", u32)
      ∷ ("__alignment2", u32)
      ∷ []))

abbrev pub minidump_memory_info_list : CType
minidump_memory_info_list =
    struct (fields (("SizeOfHeader", u32) ∷ ("SizeOfEntry", u32) ∷ ("NumberOfEntries", u64) ∷ []))

abbrev pub minidump_thread_name : CType
minidump_thread_name = struct (fields (("ThreadId", u32) ∷ ("RvaOfThreadName", rva64) ∷ []))

abbrev pub minidump_thread_name_list : CType
minidump_thread_name_list =
    struct
      (fields (("NumberOfThreadNames", u32) ∷ ("ThreadNames", array minidump_thread_name 0) ∷ []))
