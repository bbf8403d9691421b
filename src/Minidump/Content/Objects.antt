-- ===== src/Minidump/Content/Objects.antt =====
-- The reader's functions on a file that holds what the headers describe: the annotation
-- objects of a module.
use crashkit.Prelude.{
  ℕ, suc, ◌+◌, ◌*◌, ◌≡◌, refl, true, false, not, some, List, [], ◌∷◌, length, if◌then◌else◌,
  ltb-false, inl, inr, arith, min, take, length-take,
}
use crashkit.Prelude.Bytes.{Bytes}
use crashkit.Minidump.Layout.{size_of}
use crashkit.Minidump.Extensions.{minidump_annotation, minidump_annotation_list}
use crashkit.Minidump.Reader.{Text, Codecs, is_empty}
use crashkit.Minidump.Reader.Annotations.{
  append_typed, is_string_type, read_object, read_objects, read_annotation_objects,
}
use crashkit.Minidump.Format.{
  Object, HoldsArray, HoldsUnlessNull, HoldsString, HoldsObject, HoldsObjects,
}
use crashkit.Minidump.Format.Fields.{unpack-field, unpack-le, unpack_defined}
use crashkit.Minidump.Content.Offsets.{
  annotation_name, annotation_type, annotation_value, list_count,
}
use crashkit.Minidump.Content.{nonzero, HoldsArray-take, read_string-held}

module _ (c : Codecs) where
  -- What reading adds for an annotation object.
  abbrev pub add_object : Object → List (Text × Text) → List (Text × Text)
  add_object o typed =
      let name = c.decode_utf8 o.name in
      if not (is_string_type o.type)
      then typed
      else if is_empty name
      then typed
      else append_typed name (c.decode_utf8 o.value) typed

  abbrev pub add_objects : List Object → List (Text × Text) → List (Text × Text)
  add_objects [] typed = typed
  add_objects (o ∷ os) typed = add_objects os (add_object o typed)

  module _ (bytes : Bytes) where
    read_object-held :
        (o : Object) (name_rva value_rva : ℕ) (typed : List (Text × Text))
        → HoldsString bytes name_rva o.name
        → HoldsString bytes value_rva o.value
        → read_object c bytes name_rva o.type value_rva typed ≡ some (add_object o typed)
    unfolding read_object
    read_object-held o name_rva value_rva typed h k =
        rw
          (
            read_string-held c.decode_utf8 bytes name_rva o.name h,
            read_string-held c.decode_utf8 bytes value_rva o.value k,
          )
          (elim (is_string_type o.type)
            as (λ b.
              (if not b
                then some typed
                else some (
                    if is_empty (c.decode_utf8 o.name)
                    then typed
                    else append_typed (c.decode_utf8 o.name) (c.decode_utf8 o.value) typed))
              ≡ some (
                  if not b
                  then typed
                  else if is_empty (c.decode_utf8 o.name)
                  then typed
                  else append_typed (c.decode_utf8 o.name) (c.decode_utf8 o.value) typed)) [
                    | true ↦ refl
                    | false ↦ refl
                  ])

    read_objects-held :
        (os : List Object) (rva i at : ℕ) (typed : List (Text × Text))
        → at ≡ rva + 4 + i * 12
        → HoldsArray minidump_annotation (HoldsObject bytes) at os
        → read_objects c bytes rva (length os) i typed ≡ some (add_objects os typed)
    unfolding read_objects HoldsArray size_of
    read_objects-held [] rva i at typed e h = refl
    read_objects-held (o ∷ os) rva i at typed e ((nr, vr, fn, ft, fv, hn, hv), h) =
        let un =
          unpack-field minidump_annotation ("name" ∷ []) bytes at 4 0 (rva + 4 + i * 12)
            annotation_name (omega (arith, e)) fn in
        let ut =
          unpack-field minidump_annotation ("type" ∷ []) bytes at 2 4 (rva + 4 + i * 12 + 4)
            annotation_type (omega (arith, e)) ft in
        let uv =
          unpack-field minidump_annotation ("value" ∷ []) bytes at 4 8 (rva + 4 + i * 12 + 8)
            annotation_value (omega (arith, e)) fv in
        let l = unpack-le 4 bytes (rva + 4 + i * 12 + 8) uv in
        let (reserved, ur) = unpack_defined 2 bytes (rva + 4 + i * 12 + 6) (omega (arith, l)) in
        rw
          (
            ltb-false (length bytes) (rva + 4 + i * 12 + 12) (omega (arith, l)),
            un,
            ut,
            ur,
            uv,
            read_object-held o nr vr typed hn hv,
          )
          (read_objects-held os rva (suc i) (at + 12) (add_object o typed) (omega (arith, e)) h)

    pub read_annotation_objects-held :
        (rva : ℕ) (os : List Object) (typed : List (Text × Text))
        → HoldsUnlessNull (HoldsObjects bytes) rva os
        → read_annotation_objects c bytes rva typed ≡ some (add_objects (take 512 os) typed)
    unfolding read_annotation_objects size_of
    read_annotation_objects-held rva os typed (inl (p, q)) = rw (p, q) refl
    read_annotation_objects-held rva os typed (inr (p, (e, h))) =
        let u =
          unpack-field minidump_annotation_list ("count" ∷ []) bytes rva 4 0 rva list_count
            (omega arith) e in
        let m : min (length os) 512 ≡ length (take 512 os) =
          omega (arith, length-take {0} 512 os) in
        rw (nonzero rva p, ltb-false (length bytes) (rva + 4) (unpack-le 4 bytes rva u), u, m)
          (read_objects-held (take 512 os) rva 0 (rva + 4) typed (omega arith)
            (HoldsArray-take minidump_annotation (HoldsObject bytes) 512 os (rva + 4) h))
