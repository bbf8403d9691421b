-- ===== src/Minidump/Content/Results.antt =====
-- What `parse_minidump` says of a file that holds what the headers describe.
use crashkit.Prelude.{ℕ, ◌≡◌, sym, ap, ◌∙◌, some, List, [], take}
use crashkit.Prelude.Bytes.{Bytes, ◌=b◌}
use crashkit.Minidump.Extensions.{crashpad_info_stream}
use crashkit.Minidump.Dict.{get_item, or_else-none}
use crashkit.Minidump.Reader.{Text, Codecs}
use crashkit.Minidump.Reader.Annotations.{
  Annotations, no_annotations, set_simple, read_crashpad_info,
}
use crashkit.Minidump.Reader.Parse.{Metadata, parse_minidump}
use crashkit.Minidump.Format.{CrashpadContent, HoldsCrashpadInfo}
use crashkit.Minidump.Content.{add_entries}
use crashkit.Minidump.Content.Modules.{add_modules, read_crashpad_info-held}
use crashkit.Minidump.Content.Texts.{
  entry_texts, module_texts, last_value, add_modules-append, get_item-add_entries,
}
use crashkit.Minidump.Content.Directory.{HoldsDump, last_location}
use crashkit.Minidump.Content.Parsed.{at_stream, parse_minidump-IsParsed}

-- What the reader reports of the annotations: the last value of each simple one, and the list of
-- the typed ones.
pub record Reports (c : Codecs) (content : CrashpadContent) (a : Annotations) : Type 0 where
  pub simple :
      (k : Text)
      → get_item ◌=b◌ k a.simple
        ≡ last_value k (entry_texts c (take 512 content.simple_annotations))
  pub typed : a.typed ≡ module_texts c (take 256 content.module_list)

-- Parsing a minidump whose last stream of crashpad's type is a MinidumpCrashpadInfo reports its
-- annotations: under each simple key its last value, and for the modules, in their order, first
-- their simple annotations and then their string objects; entries whose key is the empty text are
-- left out. Of each list the first 512 entries count, and of the modules the first 256.
pub parse_minidump-Reports :
    (c : Codecs) (bytes : Bytes) (dir : List (ℕ × ℕ)) (rva : ℕ) (content : CrashpadContent)
    → HoldsDump bytes dir
    → last_location crashpad_info_stream dir ≡ some rva
    → HoldsCrashpadInfo bytes rva content
    → (r : Metadata) × (a : Annotations) × (parse_minidump c (some bytes) ≡ some r)
      × (r.annotations ≡ some a)
      × Reports c content a
unfolding get_item
parse_minidump-Reports c bytes dir rva content h l held =
    let (r, e, p) = parse_minidump-IsParsed c bytes dir h in
    let a : Annotations = record {
      simple = add_entries c set_simple (take 512 content.simple_annotations) [];
      typed = add_modules c (take 256 content.module_list) [];
    } in
    (
      r,
      a,
      e,
      sym p.annotations_part
          ∙ ap (at_stream no_annotations (read_crashpad_info c bytes)) l
          ∙ read_crashpad_info-held c bytes rva content held,
      record {
        simple = λ k.
            get_item-add_entries c (take 512 content.simple_annotations) k []
            ∙ or_else-none (last_value k (entry_texts c (take 512 content.simple_annotations)));
        typed = add_modules-append c (take 256 content.module_list) [];
      },
    )
