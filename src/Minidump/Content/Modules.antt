-- ===== src/Minidump/Content/Modules.antt =====
-- The reader's functions on a file that holds what the headers describe: the annotations of the
-- modules, and those of the whole MinidumpCrashpadInfo.
use crashkit.Prelude.{
  ℕ, suc, ◌+◌, ◌*◌, ◌≡◌, refl, true, some, List, [], ◌∷◌, length, leb, ltb-false, inl, inr, arith,
  min, take, length-take,
}
use crashkit.Prelude.Bytes.{Bytes}
use crashkit.Minidump.Layout.{size_of}
use crashkit.Minidump.Extensions.{
  minidump_module_crashpad_info, minidump_module_crashpad_info_link,
  minidump_module_crashpad_info_list, minidump_crashpad_info,
}
use crashkit.Minidump.Reader.{Text, Codecs}
use crashkit.Minidump.Reader.Annotations.{
  append_typed, set_simple, read_module_info, read_links, read_module_infos, read_crashpad_info,
}
use crashkit.Minidump.Format.{
  ModuleInfo, CrashpadContent, HoldsArray, HoldsUnlessNull, HoldsModuleInfo, HoldsLink,
  HoldsModuleInfos, HoldsCrashpadInfo,
}
use crashkit.Minidump.Format.Fields.{unpack-field, unpack-le, unpack_defined}
use crashkit.Minidump.Content.Offsets.{
  module_simple, module_objects, link_location, links_count, info_simple, info_modules,
}
use crashkit.Minidump.Content.Objects.{add_objects, read_annotation_objects-held}
use crashkit.Minidump.Content.{nonzero, HoldsArray-take, add_entries, read_string_dictionary-held}

module _ (c : Codecs) where
  -- What reading adds for a module.
  abbrev pub add_modules : List ModuleInfo → List (Text × Text) → List (Text × Text)
  add_modules [] typed = typed
  add_modules (m ∷ ms) typed = add_modules ms (
      add_objects c (take 512 m.annotation_objects)
        (add_entries c append_typed (take 512 m.simple_annotations) typed))

  module _ (bytes : Bytes) where
    read_module_info-held :
        (m : ModuleInfo) (rva : ℕ) (typed : List (Text × Text))
        → HoldsModuleInfo bytes rva m
        → read_module_info c bytes rva typed ≡ some (add_modules (m ∷ []) typed)
    unfolding read_module_info
    read_module_info-held m rva typed (sr, or, fs, fo, hs, ho) =
        let us =
          unpack-field minidump_module_crashpad_info ("simple_annotations" ∷ "Rva" ∷ []) bytes rva 4
            16 (rva + 16) module_simple refl fs in
        let uo =
          unpack-field minidump_module_crashpad_info ("annotation_objects" ∷ "Rva" ∷ []) bytes rva 4
            24 (rva + 24) module_objects refl fo in
        let b = unpack-le 4 bytes (rva + 24) uo in
        let (s1, u1) = unpack_defined 4 bytes (rva + 12) (omega (arith, b)) in
        let (s2, u2) = unpack_defined 4 bytes (rva + 20) (omega (arith, b)) in
        rw
          (
            ltb-false (length bytes) (rva + 28) (omega (arith, b)),
            u1,
            us,
            u2,
            uo,
            read_string_dictionary-held c append_typed bytes sr m.simple_annotations typed hs,
          )
          (read_annotation_objects-held c bytes or m.annotation_objects
            (add_entries c append_typed (take 512 m.simple_annotations) typed) ho)

    read_links-held :
        (ms : List ModuleInfo) (rva i at : ℕ) (typed : List (Text × Text))
        → at ≡ rva + 4 + i * 12
        → HoldsArray minidump_module_crashpad_info_link (HoldsLink bytes) at ms
        → read_links c bytes rva (length ms) i typed ≡ some (add_modules ms typed)
    unfolding read_links HoldsArray size_of
    read_links-held [] rva i at typed e h = refl
    read_links-held (m ∷ ms) rva i at typed e ((loc, fl, hm), h) =
        let ul =
          unpack-field minidump_module_crashpad_info_link ("location" ∷ "Rva" ∷ []) bytes at 4 8
            (rva + 4 + i * 12 + 8) link_location (omega (arith, e)) fl in
        let b = unpack-le 4 bytes (rva + 4 + i * 12 + 8) ul in
        let (s1, u1) = unpack_defined 4 bytes (rva + 4 + i * 12) (omega (arith, b)) in
        let (s2, u2) = unpack_defined 4 bytes (rva + 4 + i * 12 + 4) (omega (arith, b)) in
        rw
          (
            ltb-false (length bytes) (rva + 4 + i * 12 + 12) (omega (arith, b)),
            u1,
            u2,
            ul,
            read_module_info-held m loc typed hm,
          )
          (read_links-held ms rva (suc i) (at + 12) (add_modules (m ∷ []) typed) (omega (arith, e))
            h)

    read_module_infos-held :
        (rva : ℕ) (ms : List ModuleInfo) (typed : List (Text × Text))
        → HoldsUnlessNull (HoldsModuleInfos bytes) rva ms
        → read_module_infos c bytes rva typed ≡ some (add_modules (take 256 ms) typed)
    unfolding read_module_infos size_of
    read_module_infos-held rva ms typed (inl (p, q)) = rw (p, q) refl
    read_module_infos-held rva ms typed (inr (p, (e, h))) =
        let u =
          unpack-field minidump_module_crashpad_info_list ("count" ∷ []) bytes rva 4 0 rva
            links_count (omega arith) e in
        let m : min (length ms) 256 ≡ length (take 256 ms) =
          omega (arith, length-take {0} 256 ms) in
        let b : leb (rva + 4) (length bytes) ≡ true = ground (arith, unpack-le 4 bytes rva u) in
        rw (nonzero rva p, b, u, m)
          (read_links-held (take 256 ms) rva 0 (rva + 4) typed (omega arith) (
            HoldsArray-take minidump_module_crashpad_info_link (HoldsLink bytes) 256 ms (rva + 4)
              h))

    pub read_crashpad_info-held :
        (rva : ℕ) (content : CrashpadContent)
        → HoldsCrashpadInfo bytes rva content
        → read_crashpad_info c bytes rva
          ≡ some record {
            simple = add_entries c set_simple (take 512 content.simple_annotations) [];
            typed = add_modules (take 256 content.module_list) [];
          }
    unfolding read_crashpad_info
    read_crashpad_info-held rva content (sr, mr, fs, fm, hs, hm) =
        let us =
          unpack-field minidump_crashpad_info ("simple_annotations" ∷ "Rva" ∷ []) bytes rva 4 40
            (rva + 40) info_simple refl fs in
        let um =
          unpack-field minidump_crashpad_info ("module_list" ∷ "Rva" ∷ []) bytes rva 4 48 (rva + 48)
            info_modules refl fm in
        let b = unpack-le 4 bytes (rva + 48) um in
        let (v1, u1) = unpack_defined 4 bytes rva (omega (arith, b)) in
        let (v2, u2) = unpack_defined 4 bytes (rva + 36) (omega (arith, b)) in
        let (v3, u3) = unpack_defined 4 bytes (rva + 44) (omega (arith, b)) in
        rw
          (
            ltb-false (length bytes) (rva + 52) (omega (arith, b)),
            u1,
            u2,
            us,
            u3,
            um,
            read_string_dictionary-held c set_simple bytes sr content.simple_annotations [] hs,
            read_module_infos-held mr content.module_list [] hm,
          )
          refl
