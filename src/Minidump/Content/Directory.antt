-- ===== src/Minidump/Content/Directory.antt =====
-- A minidump with its header and its stream directory, and the directory that the reader makes of it.
use crashkit.Prelude.{
  ℕ, suc, ◌+◌, ◌*◌, ◌≡◌, refl, ap, ◌∙◌, Bool, true, false, Option, none, some, List, [], ◌∷◌, ◌==◌,
  ==_iff, if◌then◌else◌, length, ltb-false, take, arith,
}
use crashkit.Prelude.Bytes.{Bytes, codes, ◌=b◌}
use crashkit.Minidump.Layout.{uint, size_of, member, find_field, struct_field}
use crashkit.Minidump.Structs.{minidump_header, minidump_directory}
use crashkit.Minidump.Dict.{
  set_item, get_item, get_item-set_item, or_else, or_else-if, or_else-none,
}
use crashkit.Minidump.Reader.{Directory, read_directory}
use crashkit.Minidump.Reader.Parse.{streams_of}
use crashkit.Minidump.Format.{HasField, HoldsArray}
use crashkit.Minidump.Format.Fields.{unpack-field, unpack-le, unpack_defined}

-- A stream's type and its address.
abbrev pub HoldsLocation : Bytes → ℕ → ℕ × ℕ → Type 0
HoldsLocation bytes rva s =
    HasField minidump_directory ("StreamType" ∷ []) bytes rva s.0
    × HasField minidump_directory ("Location" ∷ "Rva" ∷ []) bytes rva s.1

-- A header, with the magic number, and the directory that it leads to.
pub record HoldsDump (bytes : Bytes) (dir : List (ℕ × ℕ)) : Type 0 where
  pub signature : take 4 bytes ≡ codes "MDMP"
  pub flags : ℕ
  pub flags_field : HasField minidump_header ("Flags" ∷ []) bytes 0 flags
  pub dir_rva : ℕ
  pub count : HasField minidump_header ("NumberOfStreams" ∷ []) bytes 0 (length dir)
  pub dir_field : HasField minidump_header ("StreamDirectoryRva" ∷ []) bytes 0 dir_rva
  pub entries : HoldsArray minidump_directory (HoldsLocation bytes) dir_rva dir

-- The address of the last stream of a type.
unfoldable pub last_location : ℕ → List (ℕ × ℕ) → Option ℕ
last_location t [] = none
last_location t ((u, rva) ∷ dir) =
    let rest = last_location t dir in or_else rest (if t == u then some rva else none)

unfoldable pub located : Option (ℕ × ℕ) → Option ℕ
located none = none
located (some (rva, size)) = some rva

located-if :
    (b : Bool) (rva size : ℕ) (o : Option (ℕ × ℕ))
    → located (if b then some (rva, size) else o) ≡ (if b then some rva else located o)
unfolding located
located-if true rva size o = refl
located-if false rva size o = refl

header_count : member ("NumberOfStreams" ∷ []) minidump_header ≡ some (8, uint 4)
unfolding member find_field struct_field ◌=b◌ size_of
header_count = refl

header_directory : member ("StreamDirectoryRva" ∷ []) minidump_header ≡ some (12, uint 4)
unfolding member find_field struct_field ◌=b◌ size_of
header_directory = refl

pub header_flags : member ("Flags" ∷ []) minidump_header ≡ some (24, uint 8)
unfolding member find_field struct_field ◌=b◌ size_of
header_flags = refl

directory_type : member ("StreamType" ∷ []) minidump_directory ≡ some (0, uint 4)
unfolding member find_field struct_field ◌=b◌ size_of
directory_type = refl

directory_rva : member ("Location" ∷ "Rva" ∷ []) minidump_directory ≡ some (8, uint 4)
unfolding member find_field struct_field ◌=b◌ size_of
directory_rva = refl

module _ (bytes : Bytes) where
  read_directory-held :
      (dir : List (ℕ × ℕ)) (rva i at : ℕ) (streams : Directory)
      → at ≡ rva + i * 12
      → HoldsArray minidump_directory (HoldsLocation bytes) at dir
      → (out : Directory) × (read_directory bytes rva (length dir) i streams ≡ some out)
        × ((t : ℕ)
            → located (get_item ◌==◌ t out)
              ≡ or_else (last_location t dir) (located (get_item ◌==◌ t streams)))
  unfolding read_directory HoldsArray size_of last_location
  read_directory-held [] rva i at streams e h = (streams, refl, λ t. refl)
  read_directory-held ((u, loc) ∷ dir) rva i at streams e ((ft, fl), h) =
      let ut =
        unpack-field minidump_directory ("StreamType" ∷ []) bytes at 4 0 (rva + i * 12)
          directory_type (omega (arith, e)) ft in
      let ul =
        unpack-field minidump_directory ("Location" ∷ "Rva" ∷ []) bytes at 4 8 (rva + i * 12 + 8)
          directory_rva (omega (arith, e)) fl in
      let b = unpack-le 4 bytes (rva + i * 12 + 8) ul in
      let (size, us) = unpack_defined 4 bytes (rva + i * 12 + 4) (omega (arith, b)) in
      let (out, r, g) =
        read_directory-held dir rva (suc i) (at + 12) (set_item ◌==◌ u (loc, size) streams)
          (omega (arith, e)) h in
      (
        out,
        rw (ltb-false (length bytes) (rva + i * 12 + 12) (omega (arith, b)), ut, us, ul) r,
        λ t.
            g t
            ∙ ap (λ o. or_else (last_location t dir) (located o))
                (get_item-set_item ◌==◌ ==_iff u t (loc, size) streams)
            ∙ ap (or_else (last_location t dir))
                (located-if (t == u) loc size (get_item ◌==◌ t streams))
            ∙ or_else-if (last_location t dir) (located (get_item ◌==◌ t streams)) (t == u) loc,
      )

  -- The directory is read as it stands there.
  pub streams_of-held :
      (dir : List (ℕ × ℕ))
      → HoldsDump bytes dir
      → (streams : Directory) × (streams_of bytes ≡ some streams)
        × ((t : ℕ) → located (get_item ◌==◌ t streams) ≡ last_location t dir)
  unfolding streams_of get_item located
  streams_of-held dir h =
      let uc =
        unpack-field minidump_header ("NumberOfStreams" ∷ []) bytes 0 4 8 8 header_count
          (omega arith) h.count in
      let ud =
        unpack-field minidump_header ("StreamDirectoryRva" ∷ []) bytes 0 4 12 12 header_directory
          (omega arith) h.dir_field in
      let (out, r, g) = read_directory-held dir h.dir_rva 0 h.dir_rva [] (omega arith) h.entries in
      (out, rw (uc, ud) r, λ t. g t ∙ or_else-none (last_location t dir))
