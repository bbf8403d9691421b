-- ===== src/Minidump/Content.antt =====
-- The reader's functions on a file that holds what the headers describe: strings and string
-- dictionaries.
pub mod Offsets
pub mod Objects
pub mod Modules
pub mod Texts
pub mod Directory
pub mod Parsed
pub mod Results
pub mod Crash
pub mod ModuleList
use crashkit.Prelude.{
  ℕ, zero, suc, ◌+◌, ◌*◌, ◌≤◌, ◌<◌, ◌≡◌, ◌≢◌, refl, sym, ap, ◌∙◌, subst, Bool, true, false, not,
  ◌&&◌, ◌||◌, Option, none, some, List, [], ◌∷◌, ◌++◌, length, ◌==◌, ltb, leb, if◌then◌else◌,
  ltb-false, inl, inr, arith, ◌>>=◌, take, drop, min, length-take,
}
use crashkit.Prelude.Bytes.{Bytes, ◌=b◌}
use crashkit.Minidump.Layout.{
  CType, uint, size_of, align4, member, find_field, struct_field, unpack, slice,
}
use crashkit.Minidump.Extensions.{
  minidump_utf8_string, minidump_simple_string_dictionary, minidump_simple_string_dictionary_entry,
}
use crashkit.Minidump.Reader.{Text, Codecs, is_empty, read_string, read_utf8_string}
use crashkit.Minidump.Reader.Annotations.{read_entries, read_string_dictionary}
use crashkit.Minidump.Format.{
  HasField, HoldsArray, HoldsUnlessNull, HoldsString, HoldsEntry, HoldsDictionary,
}
use crashkit.Minidump.Format.Fields.{unpack-field, unpack-le, slice-le, slice-eq}

string_length : member ("Length" ∷ []) minidump_utf8_string ≡ some (0, uint 4)
unfolding member find_field struct_field ◌=b◌
string_length = refl

entry_key : member ("key" ∷ []) minidump_simple_string_dictionary_entry ≡ some (0, uint 4)
unfolding member find_field struct_field ◌=b◌
entry_key = refl

entry_value : member ("value" ∷ []) minidump_simple_string_dictionary_entry ≡ some (4, uint 4)
unfolding member find_field struct_field ◌=b◌ size_of
entry_value = refl

dictionary_count : member ("count" ∷ []) minidump_simple_string_dictionary ≡ some (0, uint 4)
unfolding member find_field struct_field ◌=b◌
dictionary_count = refl

pub nonzero : (rva : ℕ) → rva ≢ 0 → (rva == 0) ≡ false
nonzero rva p = ground (arith, p)

-- The first elements of an array.
pub HoldsArray-take :
    {A : Type 0} (t : CType) (P : ℕ → A → Type 0) (n : ℕ) (xs : List A) (rva : ℕ)
    → HoldsArray t P rva xs
    → HoldsArray t P rva (take n xs)
unfolding HoldsArray
HoldsArray-take t P zero xs rva h = tt
HoldsArray-take t P (suc n) [] rva h = tt
HoldsArray-take t P (suc n) (x ∷ xs) rva (p, h) = (p, HoldsArray-take t P n xs (rva + size_of t) h)

-- A string that stands in the file is read.
pub read_string_at :
    (decode : Bytes → Text) (bytes : Bytes) (rva : ℕ) (s : Bytes)
    → rva ≢ 0
    → unpack 4 bytes rva ≡ some (length s)
    → slice (length s) bytes (rva + 4) ≡ some s
    → read_string decode bytes rva ≡ some (decode s)
unfolding read_string
read_string_at decode bytes rva s p u h =
    rw
      (
        nonzero rva p,
        ltb-false (length bytes) (rva + 4) (unpack-le 4 bytes rva u),
        u,
        ltb-false (length bytes) (rva + 4 + length s) (slice-le (length s) bytes (rva + 4) h),
        slice-eq (length s) bytes (rva + 4) h,
      )
      refl

pub read_string-held :
    (decode : Bytes → Text) (bytes : Bytes) (rva : ℕ) (s : Bytes)
    → HoldsString bytes rva s
    → read_string decode bytes rva ≡ some (decode s)
unfolding size_of
read_string-held decode bytes rva s (p, e, h) =
    read_string_at decode bytes rva s p
      (unpack-field minidump_utf8_string ("Length" ∷ []) bytes rva 4 0 rva string_length
        (omega arith) e)
      h

-- What reading adds: the entries with a name, decoded, in order.
module _ (c : Codecs) (add : Text → Text → List (Text × Text) → List (Text × Text)) where
  abbrev pub add_entry : Bytes × Bytes → List (Text × Text) → List (Text × Text)
  add_entry (k, v) found =
      let key = c.decode_utf8 k in if is_empty key then found else add key (c.decode_utf8 v) found

  abbrev pub add_entries : List (Bytes × Bytes) → List (Text × Text) → List (Text × Text)
  add_entries [] found = found
  add_entries (e ∷ es) found = add_entries es (add_entry e found)

  read_entries-held :
      (bytes : Bytes) (es : List (Bytes × Bytes)) (rva i at : ℕ) (found : List (Text × Text))
      → at ≡ rva + 4 + i * 8
      → HoldsArray minidump_simple_string_dictionary_entry (HoldsEntry bytes) at es
      → read_entries c add bytes rva (length es) i found ≡ some (add_entries es found)
  unfolding read_entries HoldsArray size_of
  read_entries-held bytes [] rva i at found e h = refl
  read_entries-held bytes ((k, v) ∷ es) rva i at found e ((kr, vr, fk, fv, hk, hv), h) =
      let uk =
        unpack-field minidump_simple_string_dictionary_entry ("key" ∷ []) bytes at 4 0
          (rva + 4 + i * 8) entry_key (omega (arith, e)) fk in
      let uv =
        unpack-field minidump_simple_string_dictionary_entry ("value" ∷ []) bytes at 4 4
          (rva + 4 + i * 8 + 4) entry_value (omega (arith, e)) fv in
      rw
        (
          ltb-false (length bytes) (rva + 4 + i * 8 + 8)
              (omega (arith, unpack-le 4 bytes (rva + 4 + i * 8 + 4) uv)),
          uk,
          uv,
          read_string-held c.decode_utf8 bytes kr k hk,
          read_string-held c.decode_utf8 bytes vr v hv,
        )
        (read_entries-held bytes es rva (suc i) (at + 8) (add_entry (k, v) found) (omega (arith, e))
          h)

  pub read_string_dictionary-held :
      (bytes : Bytes) (rva : ℕ) (es : List (Bytes × Bytes)) (found : List (Text × Text))
      → HoldsUnlessNull (HoldsDictionary bytes) rva es
      → read_string_dictionary c add bytes rva found ≡ some (add_entries (take 512 es) found)
  unfolding read_string_dictionary size_of
  read_string_dictionary-held bytes rva es found (inl (p, q)) = rw (p, q) refl
  read_string_dictionary-held bytes rva es found (inr (p, (e, h))) =
      let u =
        unpack-field minidump_simple_string_dictionary ("count" ∷ []) bytes rva 4 0 rva
          dictionary_count (omega arith) e in
      let m : min (length es) 512 ≡ length (take 512 es) = omega (arith, length-take {0} 512 es) in
      let b : leb (rva + 4) (length bytes) ≡ true = ground (arith, unpack-le 4 bytes rva u) in
      rw (nonzero rva p, b, u, m)
        (read_entries-held bytes (take 512 es) rva 0 (rva + 4) found (omega arith) (
          HoldsArray-take minidump_simple_string_dictionary_entry (HoldsEntry bytes) 512 es
            (rva + 4) h))
