-- ===== src/Minidump/Structs.antt =====
-- compat/non_win/dbghelp.h, with verrsrc.h: the structures that the reader goes through.
use crashkit.Prelude.{[], ◌∷◌}
use crashkit.Minidump.Layout.{CType, u8, u16, u32, u64, array, struct, union, fields}

-- `RVA` and `RVA64`: an offset in the file.
abbrev pub rva : CType
rva = u32

abbrev pub rva64 : CType
rva64 = u64

abbrev pub minidump_location_descriptor : CType
minidump_location_descriptor = struct (fields (("DataSize", u32) ∷ ("Rva", rva) ∷ []))

abbrev pub minidump_location_descriptor64 : CType
minidump_location_descriptor64 = struct (fields (("DataSize", u64) ∷ ("Rva", rva64) ∷ []))

abbrev pub minidump_memory_descriptor : CType
minidump_memory_descriptor =
    struct (fields (("StartOfMemoryRange", u64) ∷ ("Memory", minidump_location_descriptor) ∷ []))

abbrev pub minidump_header : CType
minidump_header = struct (
    fields (
      ("Signature", u32)
      ∷ ("Version", u32)
      ∷ ("NumberOfStreams", u32)
      ∷ ("StreamDirectoryRva", rva)
      ∷ ("CheckSum", u32)
      ∷ ("TimeDateStamp", u32)
      ∷ ("Flags", u64)
      ∷ []))

abbrev pub minidump_directory : CType
minidump_directory =
    struct (fields (("StreamType", u32) ∷ ("Location", minidump_location_descriptor) ∷ []))

abbrev pub minidump_string : CType
minidump_string = struct (fields (("Length", u32) ∷ ("Buffer", array u16 0) ∷ []))

abbrev pub x86_cpu_info : CType
x86_cpu_info = struct (
    fields (
      ("VendorId", array u32 3)
      ∷ ("VersionInformation", u32)
      ∷ ("FeatureInformation", u32)
      ∷ ("AMDExtendedCpuFeatures", u32)
      ∷ []))

abbrev pub other_cpu_info : CType
other_cpu_info = struct (fields (("ProcessorFeatures", array u64 2) ∷ []))

abbrev pub cpu_information : CType
cpu_information =
    union (fields (("X86CpuInfo", x86_cpu_info) ∷ ("OtherCpuInfo", other_cpu_info) ∷ []))

abbrev pub minidump_system_info : CType
minidump_system_info = struct (
    fields (
      ("ProcessorArchitecture", u16)
      ∷ ("ProcessorLevel", u16)
      ∷ ("ProcessorRevision", u16)
      ∷ ("NumberOfProcessors", u8)
      ∷ ("ProductType", u8)
      ∷ ("MajorVersion", u32)
      ∷ ("MinorVersion", u32)
      ∷ ("BuildNumber", u32)
      ∷ ("PlatformId", u32)
      ∷ ("CSDVersionRva", rva)
      ∷ ("SuiteMask", u16)
      ∷ ("Reserved2", u16)
      ∷ ("Cpu", cpu_information)
      ∷ []))

abbrev pub minidump_thread : CType
minidump_thread = struct (
    fields (
      ("ThreadId", u32)
      ∷ ("SuspendCount", u32)
      ∷ ("PriorityClass", u32)
      ∷ ("Priority", u32)
      ∷ ("Teb", u64)
      ∷ ("Stack", minidump_memory_descriptor)
      ∷ ("ThreadContext", minidump_location_descriptor)
      ∷ []))

abbrev pub minidump_thread_list : CType
minidump_thread_list =
    struct (fields (("NumberOfThreads", u32) ∷ ("Threads", array minidump_thread 0) ∷ []))

-- `EXCEPTION_MAXIMUM_PARAMETERS` is 15.
abbrev pub minidump_exception : CType
minidump_exception = struct (
    fields (
      ("ExceptionCode", u32)
      ∷ ("ExceptionFlags", u32)
      ∷ ("ExceptionRecord", u64)
      ∷ ("ExceptionAddress", u64)
      ∷ ("NumberParameters", u32)
      ∷ ("__unusedAlignment", u32)
      ∷ ("ExceptionInformation", array u64 15)
      ∷ []))

abbrev pub minidump_exception_stream : CType
minidump_exception_stream = struct (
    fields (
      ("ThreadId", u32)
      ∷ ("__alignment", u32)
      ∷ ("ExceptionRecord", minidump_exception)
      ∷ ("ThreadContext", minidump_location_descriptor)
      ∷ []))

abbrev pub vs_fixedfileinfo : CType
vs_fixedfileinfo = struct (
    fields (
      ("dwSignature", u32)
      ∷ ("dwStrucVersion", u32)
      ∷ ("dwFileVersionMS", u32)
      ∷ ("dwFileVersionLS", u32)
      ∷ ("dwProductVersionMS", u32)
      ∷ ("dwProductVersionLS", u32)
      ∷ ("dwFileFlagsMask", u32)
      ∷ ("dwFileFlags", u32)
      ∷ ("dwFileOS", u32)
      ∷ ("dwFileType", u32)
      ∷ ("dwFileSubtype", u32)
      ∷ ("dwFileDateMS", u32)
      ∷ ("dwFileDateLS", u32)
      ∷ []))

abbrev pub minidump_module : CType
minidump_module = struct (
    fields (
      ("BaseOfImage", u64)
      ∷ ("SizeOfImage", u32)
      ∷ ("CheckSum", u32)
      ∷ ("TimeDateStamp", u32)
      ∷ ("ModuleNameRva", rva)
      ∷ ("VersionInfo", vs_fixedfileinfo)
      ∷ ("CvRecord", minidump_location_descriptor)
      ∷ ("MiscRecord", minidump_location_descriptor)
      ∷ ("Reserved0", u64)
      ∷ ("Reserved1", u64)
      ∷ []))

abbrev pub minidump_module_list : CType
minidump_module_list =
    struct (fields (("NumberOfModules", u32) ∷ ("Modules", array minidump_module 0) ∷ []))
