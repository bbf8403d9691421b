-- ===== src/Minidump/Content/Crash.antt =====
-- What `parse_minidump` says of the exception, the threads and the processor.
use crashkit.Prelude.{
  ℕ, ◌+◌, ◌≡◌, refl, sym, ap, ◌∙◌, true, none, some, List, [], ◌∷◌, length, leb, arith, some_cancel,
}
use crashkit.Prelude.Bytes.{Bytes, ◌=b◌}
use crashkit.Minidump.Layout.{uint, size_of, member, find_field, struct_field}
use crashkit.Minidump.Structs.{
  minidump_exception_stream, minidump_system_info, minidump_thread_list,
}
use crashkit.Minidump.Extensions.{exception_stream, system_info_stream, thread_list_stream}
use crashkit.Minidump.Reader.{
  Codecs, arch_str, exception_code_str, read_exception, read_thread_count, read_arch,
}
use crashkit.Minidump.Reader.Parse.{Metadata, parse_minidump}
use crashkit.Minidump.Format.{HasField}
use crashkit.Minidump.Format.Fields.{unpack-field, unpack-le, unpack_defined}
use crashkit.Minidump.Content.Directory.{HoldsDump, last_location}
use crashkit.Minidump.Content.Parsed.{at_stream, parse_minidump-IsParsed}

thread_field : member ("ThreadId" ∷ []) minidump_exception_stream ≡ some (0, uint 4)
unfolding member find_field struct_field ◌=b◌
thread_field = refl

code_field :
    member ("ExceptionRecord" ∷ "ExceptionCode" ∷ []) minidump_exception_stream ≡ some (8, uint 4)
unfolding member find_field struct_field ◌=b◌ size_of
code_field = refl

record_field :
    member ("ExceptionRecord" ∷ "ExceptionRecord" ∷ []) minidump_exception_stream
    ≡ some (16, uint 8)
unfolding member find_field struct_field ◌=b◌ size_of
record_field = refl

address_field :
    member ("ExceptionRecord" ∷ "ExceptionAddress" ∷ []) minidump_exception_stream
    ≡ some (24, uint 8)
unfolding member find_field struct_field ◌=b◌ size_of
address_field = refl

-- A MINIDUMP_EXCEPTION_STREAM, as far as the address of the exception.
pub record HoldsException (bytes : Bytes) (rva thread code record_rva address : ℕ) : Type 0 where
  pub thread_id : HasField minidump_exception_stream ("ThreadId" ∷ []) bytes rva thread
  pub exception_code :
      HasField minidump_exception_stream ("ExceptionRecord" ∷ "ExceptionCode" ∷ []) bytes rva code
  pub exception_record :
      HasField minidump_exception_stream
        ("ExceptionRecord" ∷ "ExceptionRecord" ∷ [])
        bytes
        rva
        record_rva
  pub exception_address :
      HasField minidump_exception_stream
        ("ExceptionRecord" ∷ "ExceptionAddress" ∷ [])
        bytes
        rva
        address

read_exception-held :
    (bytes : Bytes) (rva : ℕ) {thread code chained address : ℕ}
    → HoldsException bytes rva thread code chained address
    → read_exception bytes rva
      ≡ some (
          some record {
            crash_thread_id = thread;
            exception_code = code;
            exception_code_str = exception_code_str code;
            exception_address = chained;
          })
unfolding read_exception
read_exception-held bytes rva h =
    let ut =
      unpack-field minidump_exception_stream ("ThreadId" ∷ []) bytes rva 4 0 rva thread_field
        (omega arith) h.thread_id in
    let uc =
      unpack-field minidump_exception_stream ("ExceptionRecord" ∷ "ExceptionCode" ∷ []) bytes rva 4
        8 (rva + 8) code_field refl h.exception_code in
    let ur =
      unpack-field minidump_exception_stream ("ExceptionRecord" ∷ "ExceptionRecord" ∷ []) bytes rva
        8 16 (rva + 16) record_field refl h.exception_record in
    let l = unpack-le 8 bytes (rva + 24) (
      unpack-field minidump_exception_stream ("ExceptionRecord" ∷ "ExceptionAddress" ∷ []) bytes rva
        8 24 (rva + 24) address_field refl h.exception_address) in
    let (v1, u1) = unpack_defined 4 bytes (rva + 4) (omega (arith, l)) in
    let (v2, u2) = unpack_defined 4 bytes (rva + 12) (omega (arith, l)) in
    let b : leb (rva + 28) (length bytes) ≡ true = ground (arith, l) in
    rw (b, ut, u1, uc, u2, ur) refl

-- Parsing a minidump whose last exception stream is complete as far as the address of the exception
-- reports the thread and the code of that stream, but as the address of the exception it reports the
-- field ExceptionRecord, whatever ExceptionAddress is.
pub parse_minidump-crash :
    (c : Codecs) (bytes : Bytes) (dir : List (ℕ × ℕ)) (rva thread code chained address : ℕ)
    → HoldsDump bytes dir
    → last_location exception_stream dir ≡ some rva
    → HoldsException bytes rva thread code chained address
    → (r : Metadata) × (parse_minidump c (some bytes) ≡ some r)
      × (r.crash
          ≡ some record {
            crash_thread_id = thread;
            exception_code = code;
            exception_code_str = exception_code_str code;
            exception_address = chained;
          })
parse_minidump-crash c bytes dir rva thread code chained address h l held =
    let (r, e, p) = parse_minidump-IsParsed c bytes dir h in
    (
      r,
      e,
      some_cancel (
          sym p.crash_part
          ∙ ap (at_stream none (read_exception bytes)) l
          ∙ read_exception-held bytes rva held),
    )

count_field : member ("NumberOfThreads" ∷ []) minidump_thread_list ≡ some (0, uint 4)
unfolding member find_field struct_field ◌=b◌
count_field = refl

arch_field : member ("ProcessorArchitecture" ∷ []) minidump_system_info ≡ some (0, uint 2)
unfolding member find_field struct_field ◌=b◌
arch_field = refl

-- Parsing a minidump with a thread list and a system information reports the number of threads and
-- the name that the table has for the processor's architecture.
pub parse_minidump-system :
    (c : Codecs) (bytes : Bytes) (dir : List (ℕ × ℕ)) (threads_rva system_rva threads arch : ℕ)
    → HoldsDump bytes dir
    → last_location thread_list_stream dir ≡ some threads_rva
    → HasField minidump_thread_list ("NumberOfThreads" ∷ []) bytes threads_rva threads
    → last_location system_info_stream dir ≡ some system_rva
    → HasField minidump_system_info ("ProcessorArchitecture" ∷ []) bytes system_rva arch
    → (r : Metadata) × (parse_minidump c (some bytes) ≡ some r)
      × (r.num_threads ≡ some threads)
      × (r.processor_arch ≡ some (arch_str arch))
unfolding read_thread_count read_arch
parse_minidump-system c bytes dir threads_rva system_rva threads arch h lt ht ls hs =
    let (r, e, p) = parse_minidump-IsParsed c bytes dir h in
    let ut =
      unpack-field minidump_thread_list ("NumberOfThreads" ∷ []) bytes threads_rva 4 0 threads_rva
        count_field (omega arith) ht in
    let us =
      unpack-field minidump_system_info ("ProcessorArchitecture" ∷ []) bytes system_rva 2 0
        system_rva arch_field (omega arith) hs in
    let bt : leb (threads_rva + 4) (length bytes) ≡ true =
      ground (arith, unpack-le 4 bytes threads_rva ut) in
    let bs : leb (system_rva + 2) (length bytes) ≡ true =
      ground (arith, unpack-le 2 bytes system_rva us) in
    (
      r,
      e,
      some_cancel (
          sym p.threads_part ∙ ap (at_stream none (read_thread_count bytes)) lt ∙ rw (bt, ut) refl),
      some_cancel (sym p.arch_part ∙ ap (at_stream none (read_arch bytes)) ls ∙ rw (bs, us) refl),
    )
