-- ===== src/Minidump/Total/Parse.antt =====
-- `parse_minidump` has a result for every file.
use crashkit.Prelude.{
  ◌≤◌, ◌==◌, ℕ, not, Option, none, some, [], ltb, length, take, arith, inl, inr, Bool-cases,
}
use crashkit.Prelude.Bytes.{Bytes, codes, ◌=b◌}
use crashkit.Minidump.Dict.{get_item}
use crashkit.Minidump.Total.{Returns, some-Returns, if-Returns, bind-Returns, unpack-Returns}
use crashkit.Minidump.Total.Streams.{
  read_directory-Returns, read_exception-Returns, read_thread_count-Returns, read_arch-Returns,
  read_module_list-Returns,
}
use crashkit.Minidump.Total.Annotations.{read_crashpad_info-Returns}
use crashkit.Minidump.Reader.{
  Codecs, Directory, found, with_stream, read_exception, read_thread_count, read_arch,
  read_module_list,
}
use crashkit.Minidump.Reader.Annotations.{
  no_annotations, read_crashpad_info, parse_crashpad_annotations,
}
use crashkit.Minidump.Reader.Parse.{no_metadata, streams_of, parse_streams, parse_minidump}

found-Returns :
    {A : Type 0} (o : Option (ℕ × ℕ)) (absent : A) (read : ℕ → Option A)
    → ((rva : ℕ) → Returns (read rva))
    → Returns (found absent read o)
found-Returns none absent read h = some-Returns absent
found-Returns (some (rva, size)) absent read h = h rva

pub with_stream-Returns :
    {A : Type 0} (stype : ℕ) (streams : Directory) (absent : A) (read : ℕ → Option A)
    → ((rva : ℕ) → Returns (read rva))
    → Returns (with_stream stype streams absent read)
unfolding with_stream
with_stream-Returns stype streams absent read h =
    found-Returns (get_item ◌==◌ stype streams) absent read h

pub parse_streams-Returns :
    (c : Codecs) (bytes : Bytes) (streams : Directory) → Returns (parse_streams c bytes streams)
unfolding parse_streams parse_crashpad_annotations
parse_streams-Returns c bytes streams =
    bind-Returns (with_stream 6 streams none (read_exception bytes))
      (with_stream-Returns 6 streams none (read_exception bytes) (read_exception-Returns bytes))
      (λ crash.
        bind-Returns (with_stream 3 streams none (read_thread_count bytes))
          (with_stream-Returns 3 streams none (read_thread_count bytes)
            (read_thread_count-Returns bytes))
          (λ num_threads.
            bind-Returns (with_stream 7 streams none (read_arch bytes))
              (with_stream-Returns 7 streams none (read_arch bytes) (read_arch-Returns bytes))
              (λ arch.
                bind-Returns (with_stream 4 streams none (read_module_list c bytes))
                  (with_stream-Returns 4 streams none (read_module_list c bytes)
                    (read_module_list-Returns c bytes))
                  (λ modules.
                    bind-Returns
                      (with_stream 0x43500001 streams no_annotations (read_crashpad_info c bytes))
                      (with_stream-Returns 0x43500001 streams no_annotations
                        (read_crashpad_info c bytes) (read_crashpad_info-Returns c bytes))
                      (λ cp. some-Returns (record {
                        crash = crash;
                        num_threads = num_threads;
                        processor_arch = arch;
                        modules = modules;
                        annotations = some cp;
                      }))))))

-- A file of 32 bytes has the header's fields.
pub streams_of-Returns : (bytes : Bytes) → 32 ≤ length bytes → Returns (streams_of bytes)
unfolding streams_of
streams_of-Returns bytes l = unpack-Returns 4 bytes 8 (omega (arith, l)) (λ num_streams.
    unpack-Returns 4 bytes 12 (omega (arith, l))
      (λ stream_dir_rva. read_directory-Returns bytes stream_dir_rva num_streams 0 []))

-- Parsing a minidump has a result for any bytes of the file, and for a file that cannot be read:
-- it never unpacks outside the file, so `struct.error` is not raised.
pub parse_minidump-Returns : (c : Codecs) (file : Option Bytes) → Returns (parse_minidump c file)
unfolding parse_minidump
parse_minidump-Returns c none = some-Returns no_metadata
parse_minidump-Returns c (some bytes) = elim (Bool-cases (ltb (length bytes) 32)) [
  | inl e ↦ rw e (some-Returns no_metadata)
  | inr e ↦ rw e (
      if-Returns (not (take 4 bytes =b codes "MDMP")) (some-Returns no_metadata) (
        bind-Returns (streams_of bytes) (streams_of-Returns bytes (ground (arith, e)))
          (λ streams. parse_streams-Returns c bytes streams)))
]
