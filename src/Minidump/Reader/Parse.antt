-- ===== src/Minidump/Reader/Parse.antt =====
-- server/crashpad_server.py: `parse_minidump`.
use crashkit.Prelude.{
  ℕ, not, ◌||◌, Option, none, some, List, [], ltb, if◌then◌else◌, length, take, ◌>>=◌,
}
use crashkit.Prelude.Bytes.{Bytes, codes, ◌=b◌}
use crashkit.Minidump.Layout.{unpack}
use crashkit.Minidump.Reader.{
  Text, Codecs, Directory, with_stream, read_directory, Crash, Module, read_exception,
  read_thread_count, read_arch, read_module_list,
}
use crashkit.Minidump.Reader.Annotations.{Annotations, parse_crashpad_annotations}

-- The result's keys, `none` for a key that is not there.
pub record Metadata : Type 0 where
  pub crash : Option Crash
  pub num_threads : Option ℕ
  pub processor_arch : Option Text
  pub modules : Option (List Module)
  pub annotations : Option Annotations

abbrev pub no_metadata : Metadata
no_metadata = record {
  crash = none;
  num_threads = none;
  processor_arch = none;
  modules = none;
  annotations = none;
}

-- The streams of a file with a header.
unfoldable pub streams_of : Bytes → Option Directory
streams_of bytes = do
  num_streams ← unpack 4 bytes 8
  stream_dir_rva ← unpack 4 bytes 12
  read_directory bytes stream_dir_rva num_streams 0 []

unfoldable pub parse_streams : Codecs → Bytes → Directory → Option Metadata
parse_streams c bytes streams = do
  crash ← with_stream 6 streams none (read_exception bytes)
  num_threads ← with_stream 3 streams none (read_thread_count bytes)
  arch ← with_stream 7 streams none (read_arch bytes)
  modules ← with_stream 4 streams none (read_module_list c bytes)
  cp ← parse_crashpad_annotations c bytes streams
  some record {
    crash = crash;
    num_threads = num_threads;
    processor_arch = arch;
    modules = modules;
    annotations = some cp;
  }

-- The file is `none` if it cannot be read.
unfoldable pub parse_minidump : Codecs → Option Bytes → Option Metadata
parse_minidump c none = some no_metadata
parse_minidump c (some bytes) =
    if ltb (length bytes) 32 || not (take 4 bytes =b codes "MDMP")
    then some no_metadata
    else streams_of bytes >>= λ (streams : Directory). parse_streams c bytes streams
