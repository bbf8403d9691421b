-- ===== src/Minidump/Total/Annotations.antt =====
-- The annotations are read without an exception, for every file.
use crashkit.Prelude.{
  ℕ, zero, suc, ◌+◌, ◌*◌, not, List, [], ◌==◌, if◌then◌else◌, length, arith, min, inl, inr,
  Bool-cases,
}
use crashkit.Prelude.Bytes.{Bytes}
use crashkit.Minidump.Total.{
  Returns, some-Returns, if-Returns, ltb-Returns, leb-Returns, bind-Returns, unpack-Returns,
  read_string-Returns,
}
use crashkit.Minidump.Reader.{Text, Codecs, is_empty, read_utf8_string}
use crashkit.Minidump.Reader.Annotations.{
  no_annotations, is_string_type, append_typed, set_simple, read_entries, read_string_dictionary,
  read_object, read_objects, read_annotation_objects, read_module_info, read_links,
  read_module_infos, read_crashpad_info,
}

module _ (c : Codecs) (bytes : Bytes) where
  utf8-Returns : (rva : ℕ) → Returns (read_utf8_string c bytes rva)
  utf8-Returns = read_string-Returns c.decode_utf8 bytes

  module _ (add : Text → Text → List (Text × Text) → List (Text × Text)) where
    read_entries-Returns :
        (rva n i : ℕ) (found : List (Text × Text))
        → Returns (read_entries c add bytes rva n i found)
    unfolding read_entries
    read_entries-Returns rva zero i found = some-Returns found
    read_entries-Returns rva (suc n) i found =
        ltb-Returns (length bytes) (rva + 4 + i * 8 + 8) (some-Returns found) (λ l.
          unpack-Returns 4 bytes (rva + 4 + i * 8) (omega (arith, l)) (λ key_rva.
            unpack-Returns 4 bytes (rva + 4 + i * 8 + 4) (omega (arith, l)) (λ val_rva.
              bind-Returns (read_utf8_string c bytes key_rva) (utf8-Returns key_rva) (λ key.
                bind-Returns (read_utf8_string c bytes val_rva) (utf8-Returns val_rva) (λ val.
                  read_entries-Returns rva n (suc i)
                    (if is_empty key then found else add key val found))))))

    read_string_dictionary-Returns :
        (rva : ℕ) (found : List (Text × Text))
        → Returns (read_string_dictionary c add bytes rva found)
    unfolding read_string_dictionary
    read_string_dictionary-Returns rva found = elim (Bool-cases (rva == 0)) [
      | inl e ↦ rw e (some-Returns found)
      | inr e ↦ rw e (
          leb-Returns (rva + 4) (length bytes)
            (λ l.
              unpack-Returns 4 bytes rva l
                (λ count. read_entries-Returns rva (min count 512) 0 found))
            (some-Returns found))
    ]

  read_object-Returns :
      (name_rva ann_type val_rva : ℕ) (typed : List (Text × Text))
      → Returns (read_object c bytes name_rva ann_type val_rva typed)
  unfolding read_object
  read_object-Returns name_rva ann_type val_rva typed =
      if-Returns (not (is_string_type ann_type)) (some-Returns typed) (
        bind-Returns (read_utf8_string c bytes name_rva) (utf8-Returns name_rva) (λ name.
          bind-Returns (read_utf8_string c bytes val_rva) (utf8-Returns val_rva)
            (λ val. some-Returns (if is_empty name then typed else append_typed name val typed))))

  read_objects-Returns :
      (rva n i : ℕ) (typed : List (Text × Text)) → Returns (read_objects c bytes rva n i typed)
  unfolding read_objects
  read_objects-Returns rva zero i typed = some-Returns typed
  read_objects-Returns rva (suc n) i typed =
      ltb-Returns (length bytes) (rva + 4 + i * 12 + 12) (some-Returns typed) (λ l.
        unpack-Returns 4 bytes (rva + 4 + i * 12) (omega (arith, l)) (λ name_rva.
          unpack-Returns 2 bytes (rva + 4 + i * 12 + 4) (omega (arith, l)) (λ ann_type.
            unpack-Returns 2 bytes (rva + 4 + i * 12 + 6) (omega (arith, l)) (λ reserved.
              unpack-Returns 4 bytes (rva + 4 + i * 12 + 8) (omega (arith, l)) (λ val_rva.
                bind-Returns (read_object c bytes name_rva ann_type val_rva typed)
                  (read_object-Returns name_rva ann_type val_rva typed)
                  (λ later. read_objects-Returns rva n (suc i) later))))))

  read_annotation_objects-Returns :
      (rva : ℕ) (typed : List (Text × Text)) → Returns (read_annotation_objects c bytes rva typed)
  unfolding read_annotation_objects
  read_annotation_objects-Returns rva typed = elim (Bool-cases (rva == 0)) [
    | inl e ↦ rw e (some-Returns typed)
    | inr e ↦ rw e (
        ltb-Returns (length bytes) (rva + 4) (some-Returns typed) (λ l.
          unpack-Returns 4 bytes rva l (λ count. read_objects-Returns rva (min count 512) 0 typed)))
  ]

  read_module_info-Returns :
      (loc_rva : ℕ) (typed : List (Text × Text)) → Returns (read_module_info c bytes loc_rva typed)
  unfolding read_module_info
  read_module_info-Returns loc_rva typed =
      ltb-Returns (length bytes) (loc_rva + 28) (some-Returns typed) (λ l.
        unpack-Returns 4 bytes (loc_rva + 12) (omega (arith, l)) (λ ms_size.
          unpack-Returns 4 bytes (loc_rva + 16) (omega (arith, l)) (λ ms_rva.
            unpack-Returns 4 bytes (loc_rva + 20) (omega (arith, l)) (λ ao_size.
              unpack-Returns 4 bytes (loc_rva + 24) (omega (arith, l)) (λ ao_rva.
                bind-Returns (read_string_dictionary c append_typed bytes ms_rva typed)
                  (read_string_dictionary-Returns append_typed ms_rva typed)
                  (λ later. read_annotation_objects-Returns ao_rva later))))))

  read_links-Returns :
      (rva n i : ℕ) (typed : List (Text × Text)) → Returns (read_links c bytes rva n i typed)
  unfolding read_links
  read_links-Returns rva zero i typed = some-Returns typed
  read_links-Returns rva (suc n) i typed =
      ltb-Returns (length bytes) (rva + 4 + i * 12 + 12) (some-Returns typed) (λ l.
        unpack-Returns 4 bytes (rva + 4 + i * 12) (omega (arith, l)) (λ mod_idx.
          unpack-Returns 4 bytes (rva + 4 + i * 12 + 4) (omega (arith, l)) (λ loc_size.
            unpack-Returns 4 bytes (rva + 4 + i * 12 + 8) (omega (arith, l)) (λ loc_rva.
              bind-Returns (read_module_info c bytes loc_rva typed)
                (read_module_info-Returns loc_rva typed)
                (λ later. read_links-Returns rva n (suc i) later)))))

  read_module_infos-Returns :
      (rva : ℕ) (typed : List (Text × Text)) → Returns (read_module_infos c bytes rva typed)
  unfolding read_module_infos
  read_module_infos-Returns rva typed = elim (Bool-cases (rva == 0)) [
    | inl e ↦ rw e (some-Returns typed)
    | inr e ↦ rw e (
        leb-Returns (rva + 4) (length bytes)
          (λ l.
            unpack-Returns 4 bytes rva l (λ count. read_links-Returns rva (min count 256) 0 typed))
          (some-Returns typed))
  ]

  pub read_crashpad_info-Returns : (rva : ℕ) → Returns (read_crashpad_info c bytes rva)
  unfolding read_crashpad_info
  read_crashpad_info-Returns rva =
      ltb-Returns (length bytes) (rva + 52) (some-Returns no_annotations) (λ l.
        unpack-Returns 4 bytes rva (omega (arith, l)) (λ version.
          unpack-Returns 4 bytes (rva + 36) (omega (arith, l)) (λ sa_size.
            unpack-Returns 4 bytes (rva + 40) (omega (arith, l)) (λ sa_rva.
              unpack-Returns 4 bytes (rva + 44) (omega (arith, l)) (λ ml_size.
                unpack-Returns 4 bytes (rva + 48) (omega (arith, l)) (λ ml_rva.
                  bind-Returns (read_string_dictionary c set_simple bytes sa_rva [])
                    (read_string_dictionary-Returns set_simple sa_rva [])
                    (λ simple.
                      bind-Returns (read_module_infos c bytes ml_rva [])
                        (read_module_infos-Returns ml_rva [])
                        (λ typed. some-Returns record { simple = simple; typed = typed }))))))))
