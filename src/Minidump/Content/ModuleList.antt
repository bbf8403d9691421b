-- ===== src/Minidump/Content/ModuleList.antt =====
-- The modules of a minidump, as the reader lists them.
use crashkit.Prelude.{
  ℕ, suc, ◌+◌, ◌*◌, ◌≡◌, ◌≢◌, refl, sym, ap, ◌∙◌, true, none, some, List, [], ◌∷◌, ◌++◌, map,
  length, ltb-false, leb, min, take, length-take, arith, some_cancel,
}
use mathlib.Core.List.{append_assoc, append-nil}
use crashkit.Prelude.Bytes.{Bytes, codes, ◌=b◌}
use crashkit.Minidump.Layout.{uint, size_of, member, find_field, struct_field, slice}
use crashkit.Minidump.Structs.{minidump_string, minidump_module, minidump_module_list}
use crashkit.Minidump.Extensions.{module_list_stream}
use crashkit.Minidump.Reader.{
  Text, Codecs, Module, module_named, read_string, read_modules, read_module_list,
}
use crashkit.Minidump.Reader.Parse.{Metadata, parse_minidump}
use crashkit.Minidump.Format.{HasField, HoldsArray}
use crashkit.Minidump.Format.Fields.{unpack-field, unpack-le}
use crashkit.Minidump.Content.{read_string_at, HoldsArray-take}
use crashkit.Minidump.Content.Directory.{HoldsDump, last_location}
use crashkit.Minidump.Content.Parsed.{at_stream, parse_minidump-IsParsed}

module_base : member ("BaseOfImage" ∷ []) minidump_module ≡ some (0, uint 8)
unfolding member find_field struct_field ◌=b◌
module_base = refl

module_size : member ("SizeOfImage" ∷ []) minidump_module ≡ some (8, uint 4)
unfolding member find_field struct_field ◌=b◌ size_of
module_size = refl

module_name : member ("ModuleNameRva" ∷ []) minidump_module ≡ some (20, uint 4)
unfolding member find_field struct_field ◌=b◌ size_of
module_name = refl

modules_count : member ("NumberOfModules" ∷ []) minidump_module_list ≡ some (0, uint 4)
unfolding member find_field struct_field ◌=b◌
modules_count = refl

module_reserved : member ("Reserved1" ∷ []) minidump_module ≡ some (100, uint 8)
unfolding member find_field struct_field ◌=b◌ size_of
module_reserved = refl

name_length : member ("Length" ∷ []) minidump_string ≡ some (0, uint 4)
unfolding member find_field struct_field ◌=b◌
name_length = refl

-- A module's image and the UTF-16 bytes of its name.
pub record Image : Type 0 where
  pub base : ℕ
  pub size : ℕ
  pub name : Bytes

-- MINIDUMP_STRING, MINIDUMP_MODULE and MINIDUMP_MODULE_LIST
module _ (bytes : Bytes) where
  abbrev pub HoldsWideString : ℕ → Bytes → Type 0
  HoldsWideString rva s =
      rva ≢ 0
      × HasField minidump_string ("Length" ∷ []) bytes rva (length s)
      × (slice (length s) bytes (rva + size_of minidump_string) ≡ some s)

  abbrev pub HoldsModule : ℕ → Image → Type 0
  HoldsModule rva m =
      (name_rva : ℕ) × HasField minidump_module ("BaseOfImage" ∷ []) bytes rva m.base
      × HasField minidump_module ("SizeOfImage" ∷ []) bytes rva m.size
      × HasField minidump_module ("ModuleNameRva" ∷ []) bytes rva name_rva
      × HoldsWideString name_rva m.name
      × (reserved : ℕ) × HasField minidump_module ("Reserved1" ∷ []) bytes rva reserved

  abbrev pub HoldsModuleList : ℕ → List Image → Type 0
  HoldsModuleList rva ms =
      HasField minidump_module_list ("NumberOfModules" ∷ []) bytes rva (length ms)
      × HoldsArray minidump_module HoldsModule (rva + size_of minidump_module_list) ms

-- The name that is shown for a decoded path.
abbrev pub shown_name : Codecs → Text → Text
shown_name c [] = codes "?"
shown_name c (x ∷ path) = c.basename (x ∷ path)

-- The entry that an image has in the listing.
abbrev pub listed : Codecs → Image → Module
listed c m = record { name = shown_name c (c.decode_utf16 m.name); base = m.base; size = m.size }

module_named-listed :
    (c : Codecs) (path : Text) (base size : ℕ)
    → module_named c path base size ≡ record { name = shown_name c path; base = base; size = size }
unfolding module_named
module_named-listed c [] base size = refl
module_named-listed c (x ∷ path) base size = refl

read_name-held :
    (decode : Bytes → Text) (bytes : Bytes) (rva : ℕ) (s : Bytes)
    → HoldsWideString bytes rva s
    → read_string decode bytes rva ≡ some (decode s)
unfolding size_of
read_name-held decode bytes rva s (p, e, h) =
    read_string_at decode bytes rva s p
      (unpack-field minidump_string ("Length" ∷ []) bytes rva 4 0 rva name_length (omega arith) e) h

module _ (c : Codecs) (bytes : Bytes) where
  read_modules-held :
      (ms : List Image) (rva i at : ℕ) (modules : List Module)
      → at ≡ rva + 4 + i * 108
      → HoldsArray minidump_module (HoldsModule bytes) at ms
      → read_modules c bytes rva (length ms) i modules ≡ some (modules ++ map (listed c) ms)
  unfolding read_modules HoldsArray size_of
  read_modules-held [] rva i at modules e h = ap some (sym (append-nil modules))
  read_modules-held (m ∷ ms) rva i at modules e ((nr, fb, fs, fn, hn, reserved, fr), h) =
      let ub =
        unpack-field minidump_module ("BaseOfImage" ∷ []) bytes at 8 0 (rva + 4 + i * 108)
          module_base (omega (arith, e)) fb in
      let us =
        unpack-field minidump_module ("SizeOfImage" ∷ []) bytes at 4 8 (rva + 4 + i * 108 + 8)
          module_size (omega (arith, e)) fs in
      let un =
        unpack-field minidump_module ("ModuleNameRva" ∷ []) bytes at 4 20 (rva + 4 + i * 108 + 20)
          module_name (omega (arith, e)) fn in
      let l = unpack-le 8 bytes (rva + 4 + i * 108 + 100) (
        unpack-field minidump_module ("Reserved1" ∷ []) bytes at 8 100 (rva + 4 + i * 108 + 100)
          module_reserved (omega (arith, e)) fr) in
      rw
        (
          ltb-false (length bytes) (rva + 4 + i * 108 + 108) (omega (arith, l)),
          ub,
          us,
          un,
          read_name-held c.decode_utf16 bytes nr m.name hn,
          module_named-listed c (c.decode_utf16 m.name) m.base m.size,
        )
        (read_modules-held ms rva (suc i) (at + 108) (modules ++ listed c m ∷ []) (omega (arith, e))
            h
          ∙ ap some (append_assoc modules (listed c m ∷ []) (map (listed c) ms)))

  read_module_list-held :
      (rva : ℕ) (ms : List Image)
      → HoldsModuleList bytes rva ms
      → read_module_list c bytes rva ≡ some (some (map (listed c) (take 256 ms)))
  unfolding read_module_list size_of
  read_module_list-held rva ms (e, h) =
      let u =
        unpack-field minidump_module_list ("NumberOfModules" ∷ []) bytes rva 4 0 rva modules_count
          (omega arith) e in
      let m : min (length ms) 256 ≡ length (take 256 ms) = omega (arith, length-take {0} 256 ms) in
      let b : leb (rva + 4) (length bytes) ≡ true = ground (arith, unpack-le 4 bytes rva u) in
      rw
        (
          b,
          u,
          m,
          read_modules-held (take 256 ms) rva 0 (rva + 4) [] (omega arith)
              (HoldsArray-take minidump_module (HoldsModule bytes) 256 ms (rva + 4) h),
        )
        refl

-- Parsing a minidump with a module list reports the first 256 modules of the last such list in
-- their order, each with its base, its size and the basename of its decoded name, or a question mark
-- for a name that decodes to the empty text.
pub parse_minidump-modules :
    (c : Codecs) (bytes : Bytes) (dir : List (ℕ × ℕ)) (rva : ℕ) (ms : List Image)
    → HoldsDump bytes dir
    → last_location module_list_stream dir ≡ some rva
    → HoldsModuleList bytes rva ms
    → (r : Metadata) × (parse_minidump c (some bytes) ≡ some r)
      × (r.modules ≡ some (map (listed c) (take 256 ms)))
parse_minidump-modules c bytes dir rva ms h l held =
    let (r, e, p) = parse_minidump-IsParsed c bytes dir h in
    (
      r,
      e,
      some_cancel (
          sym p.modules_part
          ∙ ap (at_stream none (read_module_list c bytes)) l
          ∙ read_module_list-held c bytes rva ms held),
    )
