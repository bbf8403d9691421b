-- ===== src/Minidump/Content/Parsed.antt =====
-- What `parse_minidump` makes of a file with a header and a stream directory.
use crashkit.Prelude.{
  ℕ, ◌≡◌, refl, sym, ap, ◌∙◌, Option, none, some, List, [], ◌∷◌, ◌==◌, length, ltb-false, arith,
}
use crashkit.Prelude.Bytes.{Bytes, ◌=b◌}
use crashkit.Minidump.Structs.{minidump_header}
use crashkit.Minidump.Dict.{get_item}
use crashkit.Minidump.Reader.{
  Codecs, Directory, found, with_stream, read_exception, read_thread_count, read_arch,
  read_module_list,
}
use crashkit.Minidump.Reader.Annotations.{
  no_annotations, read_crashpad_info, parse_crashpad_annotations,
}
use crashkit.Minidump.Reader.Parse.{Metadata, parse_streams, parse_minidump}
use crashkit.Minidump.Total.Streams.{
  read_exception-Returns, read_thread_count-Returns, read_arch-Returns, read_module_list-Returns,
}
use crashkit.Minidump.Total.Annotations.{read_crashpad_info-Returns}
use crashkit.Minidump.Total.Parse.{with_stream-Returns}
use crashkit.Minidump.Format.Fields.{unpack-field, unpack-le}
use crashkit.Minidump.Content.Directory.{
  HoldsDump, last_location, located, header_flags, streams_of-held,
}

-- What a part of the result is, by the directory: `absent`, or what is read at the stream.
abbrev pub at_stream : {A : Type 0} → A → (ℕ → Option A) → Option ℕ → Option A
at_stream absent read none = some absent
at_stream absent read (some rva) = read rva

found-located :
    {A : Type 0} (o : Option (ℕ × ℕ)) (absent : A) (read : ℕ → Option A)
    → found absent read o ≡ at_stream absent read (located o)
unfolding located
found-located none absent read = refl
found-located (some (rva, size)) absent read = refl

-- The parts of a result.
pub record IsParsed (c : Codecs) (bytes : Bytes) (dir : List (ℕ × ℕ)) (r : Metadata) : Type 0 where
  pub crash_part : at_stream none (read_exception bytes) (last_location 6 dir) ≡ some r.crash
  pub threads_part :
      at_stream none (read_thread_count bytes) (last_location 3 dir) ≡ some r.num_threads
  pub arch_part : at_stream none (read_arch bytes) (last_location 7 dir) ≡ some r.processor_arch
  pub modules_part :
      at_stream none (read_module_list c bytes) (last_location 4 dir) ≡ some r.modules
  pub annotations_part :
      at_stream no_annotations (read_crashpad_info c bytes) (last_location 0x43500001 dir)
      ≡ r.annotations

module _ (c : Codecs) (bytes : Bytes) (dir : List (ℕ × ℕ)) (streams : Directory)
    (g : (t : ℕ) → located (get_item ◌==◌ t streams) ≡ last_location t dir) where
  with_stream-located :
      {A : Type 0} (t : ℕ) (absent : A) (read : ℕ → Option A)
      → with_stream t streams absent read ≡ at_stream absent read (last_location t dir)
  unfolding with_stream
  with_stream-located t absent read =
      found-located (get_item ◌==◌ t streams) absent read ∙ ap (at_stream absent read) (g t)

  parse_streams-held :
      (r : Metadata) × (parse_streams c bytes streams ≡ some r) × IsParsed c bytes dir r
  unfolding parse_streams parse_crashpad_annotations
  parse_streams-held =
      let (v1, e1) =
        with_stream-Returns 6 streams none (read_exception bytes) (read_exception-Returns bytes) in
      let (v2, e2) =
        with_stream-Returns 3 streams none (read_thread_count bytes)
          (read_thread_count-Returns bytes) in
      let (v3, e3) =
        with_stream-Returns 7 streams none (read_arch bytes) (read_arch-Returns bytes) in
      let (v4, e4) =
        with_stream-Returns 4 streams none (read_module_list c bytes)
          (read_module_list-Returns c bytes) in
      let (v5, e5) =
        with_stream-Returns 0x43500001 streams no_annotations (read_crashpad_info c bytes)
          (read_crashpad_info-Returns c bytes) in
      let r : Metadata = record {
        crash = v1;
        num_threads = v2;
        processor_arch = v3;
        modules = v4;
        annotations = some v5;
      } in
      (
        r,
        rw (e1, e2, e3, e4, e5) refl,
        record {
          crash_part = sym (with_stream-located 6 none (read_exception bytes)) ∙ e1;
          threads_part = sym (with_stream-located 3 none (read_thread_count bytes)) ∙ e2;
          arch_part = sym (with_stream-located 7 none (read_arch bytes)) ∙ e3;
          modules_part = sym (with_stream-located 4 none (read_module_list c bytes)) ∙ e4;
          annotations_part =
              sym (with_stream-located 0x43500001 no_annotations (read_crashpad_info c bytes)) ∙ e5;
        },
      )

-- A minidump with a header and a directory is parsed stream by stream.
pub parse_minidump-IsParsed :
    (c : Codecs) (bytes : Bytes) (dir : List (ℕ × ℕ))
    → HoldsDump bytes dir
    → (r : Metadata) × (parse_minidump c (some bytes) ≡ some r) × IsParsed c bytes dir r
unfolding parse_minidump ◌=b◌
parse_minidump-IsParsed c bytes dir h =
    let (streams, e, g) = streams_of-held bytes dir h in
    let (r, f, p) = parse_streams-held c bytes dir streams g in
    let l = unpack-le 8 bytes 24 (
      unpack-field minidump_header ("Flags" ∷ []) bytes 0 8 24 24 header_flags (omega arith)
        h.flags_field) in
    (r, rw (ltb-false (length bytes) 32 l, h.signature, e) f, p)
