-- ===== src/Minidump/Reader/Annotations.antt =====
-- server/crashpad_server.py: `_parse_crashpad_annotations`.
use crashkit.Prelude.{
  ℕ, zero, suc, ◌+◌, ◌*◌, min, Bool, not, ◌&&◌, ◌||◌, Option, some, List, [], ◌∷◌, ◌++◌, ◌==◌, ltb,
  leb, if◌then◌else◌, length, ◌>>=◌,
}
use crashkit.Prelude.Bytes.{Bytes, ◌=b◌}
use crashkit.Minidump.Layout.{unpack}
use crashkit.Minidump.Dict.{set_item}
use crashkit.Minidump.Reader.{Text, Codecs, is_empty, read_utf8_string, Directory, with_stream}

-- `result`: the simple annotations as a `dict`, the typed ones as a list.
pub record Annotations : Type 0 where
  pub simple : List (Text × Text)
  pub typed : List (Text × Text)

-- `result["simple"][key] = val` and `result["typed"].append((key, val))`
abbrev pub set_simple : Text → Text → List (Text × Text) → List (Text × Text)
set_simple key val simple = set_item ◌=b◌ key val simple

abbrev pub append_typed : Text → Text → List (Text × Text) → List (Text × Text)
append_typed key val typed = typed ++ (key, val) ∷ []

-- The loop over the entries of a string dictionary, the two times it stands there.
module _ (c : Codecs) (add : Text → Text → List (Text × Text) → List (Text × Text)) where
  unfoldable pub read_entries : Bytes → ℕ → ℕ → ℕ → List (Text × Text) → Option (List (Text × Text))
  read_entries bytes rva zero i found = some found
  read_entries bytes rva (suc n) i found =
      if ltb (length bytes) (rva + 4 + i * 8 + 8) then some found else do
        key_rva ← unpack 4 bytes (rva + 4 + i * 8)
        val_rva ← unpack 4 bytes (rva + 4 + i * 8 + 4)
        key ← read_utf8_string c bytes key_rva
        val ← read_utf8_string c bytes val_rva
        read_entries bytes rva n (suc i) (if is_empty key then found else add key val found)

  unfoldable pub read_string_dictionary :
      Bytes → ℕ → List (Text × Text) → Option (List (Text × Text))
  read_string_dictionary bytes rva found =
      if not (rva == 0) && leb (rva + 4) (length bytes)
      then (do count ← unpack 4 bytes rva; read_entries bytes rva (min count 512) 0 found)
      else some found

-- `ann_type in _ANN_TYPE_STRING`
abbrev pub is_string_type : ℕ → Bool
is_string_type ann_type = ann_type == 1 || ann_type == 2

-- What an annotation object adds: a string with a name.
unfoldable pub read_object :
    Codecs → Bytes → ℕ → ℕ → ℕ → List (Text × Text) → Option (List (Text × Text))
read_object c bytes name_rva ann_type val_rva typed =
    if not (is_string_type ann_type) then some typed else do
      name ← read_utf8_string c bytes name_rva
      val ← read_utf8_string c bytes val_rva
      some (if is_empty name then typed else append_typed name val typed)

-- The loop over the annotation objects of a module.
unfoldable pub read_objects :
    Codecs → Bytes → ℕ → ℕ → ℕ → List (Text × Text) → Option (List (Text × Text))
read_objects c bytes rva zero i typed = some typed
read_objects c bytes rva (suc n) i typed =
    if ltb (length bytes) (rva + 4 + i * 12 + 12) then some typed else do
      name_rva ← unpack 4 bytes (rva + 4 + i * 12)
      ann_type ← unpack 2 bytes (rva + 4 + i * 12 + 4)
      reserved ← unpack 2 bytes (rva + 4 + i * 12 + 6)
      val_rva ← unpack 4 bytes (rva + 4 + i * 12 + 8)
      later ← read_object c bytes name_rva ann_type val_rva typed
      read_objects c bytes rva n (suc i) later

unfoldable pub read_annotation_objects :
    Codecs → Bytes → ℕ → List (Text × Text) → Option (List (Text × Text))
read_annotation_objects c bytes rva typed =
    if rva == 0 || ltb (length bytes) (rva + 4)
    then some typed
    else do count ← unpack 4 bytes rva; read_objects c bytes rva (min count 512) 0 typed

-- One round of the loop over the modules, from the `MinidumpModuleCrashpadInfo` on.
unfoldable pub read_module_info :
    Codecs → Bytes → ℕ → List (Text × Text) → Option (List (Text × Text))
read_module_info c bytes loc_rva typed =
    if ltb (length bytes) (loc_rva + 28) then some typed else do
      ms_size ← unpack 4 bytes (loc_rva + 12)
      ms_rva ← unpack 4 bytes (loc_rva + 16)
      ao_size ← unpack 4 bytes (loc_rva + 20)
      ao_rva ← unpack 4 bytes (loc_rva + 24)
      later ← read_string_dictionary c append_typed bytes ms_rva typed
      read_annotation_objects c bytes ao_rva later

unfoldable pub read_links :
    Codecs → Bytes → ℕ → ℕ → ℕ → List (Text × Text) → Option (List (Text × Text))
read_links c bytes rva zero i typed = some typed
read_links c bytes rva (suc n) i typed =
    if ltb (length bytes) (rva + 4 + i * 12 + 12) then some typed else do
      mod_idx ← unpack 4 bytes (rva + 4 + i * 12)
      loc_size ← unpack 4 bytes (rva + 4 + i * 12 + 4)
      loc_rva ← unpack 4 bytes (rva + 4 + i * 12 + 8)
      later ← read_module_info c bytes loc_rva typed
      read_links c bytes rva n (suc i) later

unfoldable pub read_module_infos :
    Codecs → Bytes → ℕ → List (Text × Text) → Option (List (Text × Text))
read_module_infos c bytes rva typed =
    if not (rva == 0) && leb (rva + 4) (length bytes)
    then (do count ← unpack 4 bytes rva; read_links c bytes rva (min count 256) 0 typed)
    else some typed

-- `_parse_crashpad_annotations`
abbrev pub no_annotations : Annotations
no_annotations = record { simple = []; typed = [] }

unfoldable pub read_crashpad_info : Codecs → Bytes → ℕ → Option Annotations
read_crashpad_info c bytes rva = if ltb (length bytes) (rva + 52) then some no_annotations else do
  version ← unpack 4 bytes rva
  sa_size ← unpack 4 bytes (rva + 36)
  sa_rva ← unpack 4 bytes (rva + 40)
  ml_size ← unpack 4 bytes (rva + 44)
  ml_rva ← unpack 4 bytes (rva + 48)
  simple ← read_string_dictionary c set_simple bytes sa_rva []
  typed ← read_module_infos c bytes ml_rva []
  some record { simple = simple; typed = typed }

unfoldable pub parse_crashpad_annotations : Codecs → Bytes → Directory → Option Annotations
parse_crashpad_annotations c bytes streams =
    with_stream 0x43500001 streams no_annotations (read_crashpad_info c bytes)
