-- ===== src/Minidump/Format.antt =====
-- What stands in a minidump, by the structures of the headers: the stream directory, and the
-- annotations that MinidumpCrashpadInfo leads to. The sizes in location descriptors are left open.
pub mod Fields
use Prim.Native.String.{String}
use crashkit.Prelude.{ℕ, ◌+◌, ◌≡◌, ◌≢◌, ◌⊎◌, Option, some, List, [], ◌∷◌, length}
use crashkit.Prelude.Bytes.{Bytes}
use crashkit.Minidump.Layout.{CType, size_of, field_at, slice}
use crashkit.Minidump.Structs.{minidump_header, minidump_directory}
use crashkit.Minidump.Extensions.{
  minidump_utf8_string, minidump_simple_string_dictionary, minidump_simple_string_dictionary_entry,
  minidump_annotation, minidump_annotation_list, minidump_module_crashpad_info,
  minidump_module_crashpad_info_link, minidump_module_crashpad_info_list, minidump_crashpad_info,
}

-- A field of the structure at `rva` has this value.
abbrev pub HasField : CType → List String → Bytes → ℕ → ℕ → Type 0
HasField t path bytes rva v = field_at t path bytes rva ≡ some v

-- Elements one after the other.
unfoldable pub HoldsArray : {A : Type 0} → CType → (ℕ → A → Type 0) → ℕ → List A → Type 0
HoldsArray t P rva [] = Unit
HoldsArray t P rva (x ∷ xs) = P rva x × HoldsArray t P (rva + size_of t) xs

-- Nothing at the null address.
abbrev pub HoldsUnlessNull : {A : Type 0} → (ℕ → List A → Type 0) → ℕ → List A → Type 0
HoldsUnlessNull P rva xs = (rva ≡ 0 × xs ≡ []) ⊎ (rva ≢ 0 × P rva xs)

-- An annotation object: name, type and value.
pub record Object : Type 0 where
  pub name : Bytes
  pub type : ℕ
  pub value : Bytes

pub record ModuleInfo : Type 0 where
  pub simple_annotations : List (Bytes × Bytes)
  pub annotation_objects : List Object

pub record CrashpadContent : Type 0 where
  pub simple_annotations : List (Bytes × Bytes)
  pub module_list : List ModuleInfo

module _ (bytes : Bytes) where
  -- MinidumpUTF8String
  abbrev pub HoldsString : ℕ → Bytes → Type 0
  HoldsString rva s =
      rva ≢ 0
      × HasField minidump_utf8_string ("Length" ∷ []) bytes rva (length s)
      × (slice (length s) bytes (rva + size_of minidump_utf8_string) ≡ some s)

  -- MinidumpSimpleStringDictionaryEntry and MinidumpSimpleStringDictionary
  abbrev pub HoldsEntry : ℕ → Bytes × Bytes → Type 0
  HoldsEntry rva e =
      (key_rva : ℕ) × (value_rva : ℕ) × HasField minidump_simple_string_dictionary_entry
        ("key" ∷ []) bytes rva key_rva
      × HasField minidump_simple_string_dictionary_entry ("value" ∷ []) bytes rva value_rva
      × HoldsString key_rva e.0
      × HoldsString value_rva e.1

  abbrev pub HoldsDictionary : ℕ → List (Bytes × Bytes) → Type 0
  HoldsDictionary rva es =
      HasField minidump_simple_string_dictionary ("count" ∷ []) bytes rva (length es)
      × HoldsArray minidump_simple_string_dictionary_entry HoldsEntry
          (rva + size_of minidump_simple_string_dictionary) es

  -- MinidumpAnnotation and MinidumpAnnotationList
  abbrev pub HoldsObject : ℕ → Object → Type 0
  HoldsObject rva o =
      (name_rva : ℕ) × (value_rva : ℕ) × HasField minidump_annotation ("name" ∷ []) bytes rva
        name_rva
      × HasField minidump_annotation ("type" ∷ []) bytes rva o.type
      × HasField minidump_annotation ("value" ∷ []) bytes rva value_rva
      × HoldsString name_rva o.name
      × HoldsString value_rva o.value

  abbrev pub HoldsObjects : ℕ → List Object → Type 0
  HoldsObjects rva os =
      HasField minidump_annotation_list ("count" ∷ []) bytes rva (length os)
      × HoldsArray minidump_annotation HoldsObject (rva + size_of minidump_annotation_list) os

  -- MinidumpModuleCrashpadInfo, and the link to it
  abbrev pub HoldsModuleInfo : ℕ → ModuleInfo → Type 0
  HoldsModuleInfo rva m =
      (simple_rva : ℕ) × (objects_rva : ℕ) × HasField minidump_module_crashpad_info
        ("simple_annotations" ∷ "Rva" ∷ []) bytes rva simple_rva
      × HasField minidump_module_crashpad_info ("annotation_objects" ∷ "Rva" ∷ []) bytes rva
          objects_rva
      × HoldsUnlessNull HoldsDictionary simple_rva m.simple_annotations
      × HoldsUnlessNull HoldsObjects objects_rva m.annotation_objects

  abbrev pub HoldsLink : ℕ → ModuleInfo → Type 0
  HoldsLink rva m =
      (location : ℕ) × HasField minidump_module_crashpad_info_link ("location" ∷ "Rva" ∷ []) bytes
        rva location
      × HoldsModuleInfo location m

  abbrev pub HoldsModuleInfos : ℕ → List ModuleInfo → Type 0
  HoldsModuleInfos rva ms =
      HasField minidump_module_crashpad_info_list ("count" ∷ []) bytes rva (length ms)
      × HoldsArray minidump_module_crashpad_info_link HoldsLink
          (rva + size_of minidump_module_crashpad_info_list) ms

  -- MinidumpCrashpadInfo
  abbrev pub HoldsCrashpadInfo : ℕ → CrashpadContent → Type 0
  HoldsCrashpadInfo rva content =
      (simple_rva : ℕ) × (modules_rva : ℕ) × HasField minidump_crashpad_info
        ("simple_annotations" ∷ "Rva" ∷ []) bytes rva simple_rva
      × HasField minidump_crashpad_info ("module_list" ∷ "Rva" ∷ []) bytes rva modules_rva
      × HoldsUnlessNull HoldsDictionary simple_rva content.simple_annotations
      × HoldsUnlessNull HoldsModuleInfos modules_rva content.module_list
