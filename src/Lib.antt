-- ===== src/Lib.antt =====
-- crashkit: the crash reporting library for Android of the repository, its JNI bridge, the process
-- name, the dynamic annotations, the Kotlin object in front of them, what the repository's patch adds to the
-- crash handler, the annotations, the ring buffer, the address ranges and the minidump structures of
-- the crashpad headers that are shipped with them, and the minidump reader of the collection server.
--
-- How the parts work together: an application calls `Crashpad.init`. That consumes the marker file
-- that a crash of the last process left, calls `onCrash`, and calls `initializeCrashpad`, which
-- prepares the paths, the annotations and the handler's arguments, starts crashpad's handler,
-- registers the dictionary of dynamic annotations and the marker path. `setAnnotation` writes to the
-- dictionary, which the handler finds by the pointer that was registered. A crash runs the first chance handler, which creates the marker file; crashpad's
-- handler writes the minidump and uploads it, both through the allowlist that the arguments made. The
-- server reads the minidump's streams and lists what the crash was and the annotations.
--
-- Which file models what (paths from the repository's root):
--
-- - Process, with Process/Role and Process/Cmdline: crashkit/src/main/cpp/process.cpp.
--   `read_cmdline`, `process_role_from_name` and `get_process_name` keep their names; `g_once` and
--   `g_cached` are the record `NameCache`. /proc/self/cmdline is an argument.
-- - StdMap: the `std::map<std::string, std::string>` of the bridge, in the order of its keys.
-- - Dictionary and the modules below it: crashkit/src/main/cpp/crashpad/include/client/
--   simple_string_dictionary.h. This is code of crashpad, but a template that is compiled into the
--   bridge. `SetKeyValue` is `set_key_value`, `GetValueForKey` is `get_value_for_key`, and so on; the
--   sizes are parameters, and 256, 256 and 64 in the bridge. A buffer is its list of bytes.
-- - Bridge: crashkit/src/main/cpp/native-bridge.cpp. The record `Bridge` holds its globals and what
--   its calls left in crashpad. Bridge/Annotations and Bridge/Arguments are about the two loops of
--   `initializeCrashpad` that build annotations and arguments, Bridge/Initialize is the function,
--   Bridge/Initialize/Outcome what it does on every branch, Bridge/Marker the crash marker and
--   `FirstChanceHandler`, Bridge/Dynamic `nativeSetAnnotation`, Bridge/Crash the other two functions.
--   The setters of crashpad's `CrashpadInfo` (client/crashpad_info.h) are here too. Its pointer to
--   the dictionary is an address; `handler_reads` is what the handler finds through that pointer.
-- - Handler: patches/crashpad/0001-annotation-allowlist-for-upload-filter-and-minidump-write.patch,
--   with the option `--allow-annotation` (`read_options`), the upload filter (`form_data`) and the
--   two minidump filters (`minidump_annotations`, `module_annotations`).
-- - Api: crashkit/src/main/java/com/duckduckgo/android_crashkit/Crashpad.kt. The record `Api` holds
--   the flags, the files and the native globals; `init`, `set_annotation`, `crash` and
--   `dump_without_crash` are its functions. Api/Session has the processes of an application as a step
--   relation, Api/Report follows one crash to its callback, Api/Quiet a process without one.
-- - RingBuffer: crashkit/src/main/cpp/crashpad/include/client/length_delimited_ring_buffer.h, with
--   `CheckLsh` of mini_chromium. `WriteBytesToRingBuffer` is `write_bytes`,
--   `ReadBase128VarintFromRingBuffer` is `read_varint`, and so on; a reference that a function sets is
--   a part of its result. RingBuffer/Circular and RingBuffer/Splice read a list round its end,
--   RingBuffer/Copies is about the two functions that copy bytes, RingBuffer/Varint about the lengths.
--   RingBuffer/Queue is the abstract queue; below it are `Push` (Room, Writer), `Pop` (Reader), both
--   together (Exchange), and what it does to large messages (Oversized). RingBuffer/Image is `DeserializeFromBuffer` and the bytes that it reads.
-- - Annotation: client/annotation.h, with Annotation/SpinGuard (util/synchronization/
--   scoped_spin_guard.h) and Annotation/Ring (client/ring_buffer_annotation.h), all below
--   crashkit/src/main/cpp/crashpad/include. `TryCreateScopedSpinGuard` is
--   `try_create_scoped_spin_guard` on a lock, and `guard_annotation` on an annotation.
-- - Ranges: util/numeric/checked_range.h, with Ranges/Bag (client/simple_address_range_bag.h), in the
--   same directory. `Insert`, `Remove` and `GetCount` are `insert_range`, `remove_range`, `bag_count`.
-- - Minidump: Minidump/Layout has C structures as lists of fields, with `size_of`, the offset of a
--   field (`member`) and the value of a field of a structure in a file (`field_at`). Minidump/Structs
--   and Minidump/Streams are compat/non_win/dbghelp.h with the structures that it takes from winnt.h,
--   verrsrc.h, minwinbase.h and timezoneapi.h, Minidump/Extensions is minidump/minidump_extensions.h,
--   all below crashkit/src/main/cpp/crashpad/include. MINIDUMP_HEADER is `minidump_header`, and so on.
--   A field has its width only: char16_t and signed integers are unsigned ones. A base class's fields
--   stand in front (the lists that end in _parts).
-- - Minidump/Reader, with Reader/Annotations and Reader/Parse: server/crashpad_server.py.
--   `parse_minidump` and `_parse_crashpad_annotations` keep their names; the part of the former for
--   each stream is a function (`read_exception`, `read_modules`), and so is each loop of the latter.
--   Minidump/Dict is Python's `dict`. A call that raises `struct.error` is `none`. Minidump/Format
--   says what stands in a file by the structures of the headers alone; Minidump/Content and the
--   modules below it compare the reader with it, Minidump/Total shows that it never raises.
--   Minidump/Page is the table of annotations of `_detail_page`, with the keys that the form did not
--   bring marked, as rows without their HTML. Handler/Shown follows an annotation from the bridge through the handler to this reader.
-- - Prelude: the names of the library that the modules share, lists and bytes.
--
-- Strings: a string is the list of its bytes. A Kotlin string stands as the bytes that
-- `GetStringUTFChars` gives for it (modified UTF-8, in which no byte is 0); a `jstring` is a null
-- reference or one for which that call gives null or a string. The path that `Context` gives is
-- absolute. Where C or JNI leaves behaviour open (a null reference to `GetStringUTFChars`, a null
-- pointer made into a `std::string`, the write of `crash`, `value()` of an annotation whose size goes
-- past its buffer), the model has `none`; `read_memory` is a read that may not leave its buffer.
-- `ReleaseStringUTFChars` of a null pointer does nothing.
--
-- Bounds: outside RingBuffer and Annotation all loops run over finite lists, so there is no fuel. The numbers are
-- natural numbers: the sizes that are added stay below 1,000 there, so no C type wraps around. In
-- RingBuffer the sums and differences wrap at 2 ^ 32, in Ranges the ends at 2 ^ 64, in Annotation the
-- deadlines at 2 ^ 64 and the types at 2 ^ 16. A 32-bit value has at most five groups of seven
-- bits, so the three loops over them have five or six rounds; the loop of `Push` has one round more
-- than the ring has bytes, since each round frees one. The ring of the theorems has at most 2 ^ 31
-- bytes. The attempts to take a lock have fuel as well, timeout / 10 + 2 rounds: the loop sleeps 10
-- nanoseconds between two of them. The loops of the minidump reader have as many rounds as the count
-- that they read allows, at most 512 or 256 where the code says so. Python's integers do not wrap.
--
-- Parameters: the crashpad client library is the record `Crashpad`, which answers each call; opening
-- and deleting the marker file are tests on its path; `getopt_long` is a function with the documented
-- behaviour `IsGetopt` on the two forms of argument that the bridge builds. `SetSize` of an
-- annotation is a function with the documented behaviour `IsSetSize`; other threads that hold a lock,
-- and the clock, are functions of the number of the attempt. Python's decoders of UTF-8 and UTF-16 and
-- `os.path.basename` are the record `Codecs`, of which nothing is assumed.
--
-- Not modelled: the rest of crashpad (its other headers, static libraries and handler binaries below
-- crashkit/src/main/cpp/crashpad), which is a copy of another project; two threads in `init` at the
-- same time; the writer of minidumps, which is in the handler's binary (what it wrote is a hypothesis
-- on the file); the rest of server/crashpad_server.py, which serves HTTP, parses forms, runs
-- tools and prints; the thread contexts of minidump/minidump_context.h; the sample application; the
-- build files and scripts.
pub mod Prelude
pub mod Process
pub mod StdMap
pub mod Dictionary
pub mod Bridge
pub mod Handler
pub mod RingBuffer
pub mod Ranges
pub mod Annotation
pub mod Api
pub mod Minidump
