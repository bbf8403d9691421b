-- ===== src/Minidump/Content/Texts.antt =====
-- The annotations that a reader of the format expects, as lists of texts.
use crashkit.Prelude.{
  ◌≡◌, refl, sym, ap, ◌∙◌, Option, none, some, List, [], ◌∷◌, ◌++◌, take, if◌then◌else◌, inl, inr,
  Bool-cases,
}
use mathlib.Core.List.{append_assoc, append-nil}
use crashkit.Prelude.Bytes.{Bytes, ◌=b◌, =b_iff}
use crashkit.Minidump.Dict.{get_item, get_item-set_item, or_else, or_else-if}
use crashkit.Minidump.Reader.{Text, Codecs, is_empty}
use crashkit.Minidump.Reader.Annotations.{append_typed, set_simple, is_string_type}
use crashkit.Minidump.Format.{Object, ModuleInfo}
use crashkit.Minidump.Content.{add_entries}
use crashkit.Minidump.Content.Objects.{add_objects}
use crashkit.Minidump.Content.Modules.{add_modules}

-- A pair, if its key is not empty.
abbrev named : Text → Text → List (Text × Text)
named k v = if is_empty k then [] else (k, v) ∷ []

module _ (c : Codecs) where
  -- The entries and the string objects that have a name, decoded; of a module, the first 512 of each.
  unfoldable pub entry_texts : List (Bytes × Bytes) → List (Text × Text)
  entry_texts [] = []
  entry_texts ((k, v) ∷ es) = named (c.decode_utf8 k) (c.decode_utf8 v) ++ entry_texts es

  unfoldable pub object_texts : List Object → List (Text × Text)
  object_texts [] = []
  object_texts (o ∷ os) =
      let rest = object_texts os in
      if is_string_type o.type
      then named (c.decode_utf8 o.name) (c.decode_utf8 o.value) ++ rest
      else rest

  unfoldable pub module_texts : List ModuleInfo → List (Text × Text)
  module_texts [] = []
  module_texts (m ∷ ms) =
      entry_texts (take 512 m.simple_annotations)
      ++ (object_texts (take 512 m.annotation_objects) ++ module_texts ms)

  add_entries-append :
      (es : List (Bytes × Bytes)) (typed : List (Text × Text))
      → add_entries c append_typed es typed ≡ typed ++ entry_texts es
  unfolding entry_texts
  add_entries-append [] typed = sym (append-nil typed)
  add_entries-append ((k, v) ∷ es) typed = elim (Bool-cases (is_empty (c.decode_utf8 k))) [
    | inl e ↦ rw e (add_entries-append es typed)
    | inr e ↦ rw e (
        add_entries-append es (append_typed (c.decode_utf8 k) (c.decode_utf8 v) typed)
        ∙ append_assoc typed ((c.decode_utf8 k, c.decode_utf8 v) ∷ []) (entry_texts es))
  ]

  add_objects-append :
      (os : List Object) (typed : List (Text × Text))
      → add_objects c os typed ≡ typed ++ object_texts os
  unfolding object_texts
  add_objects-append [] typed = sym (append-nil typed)
  add_objects-append (o ∷ os) typed = elim (Bool-cases (is_string_type o.type)) [
    | inr e ↦ rw e (add_objects-append os typed)
    | inl e ↦ elim (Bool-cases (is_empty (c.decode_utf8 o.name))) [
      | inl f ↦ rw (e, f) (add_objects-append os typed)
      | inr f ↦
          rw (e, f)
            (add_objects-append os
                (append_typed (c.decode_utf8 o.name) (c.decode_utf8 o.value) typed)
              ∙ append_assoc typed ((c.decode_utf8 o.name, c.decode_utf8 o.value) ∷ [])
                  (object_texts os))
    ]
  ]

  pub add_modules-append :
      (ms : List ModuleInfo) (typed : List (Text × Text))
      → add_modules c ms typed ≡ typed ++ module_texts ms
  unfolding module_texts
  add_modules-append [] typed = sym (append-nil typed)
  add_modules-append (m ∷ ms) typed =
      let later = add_entries c append_typed (take 512 m.simple_annotations) typed in
      add_modules-append ms (add_objects c (take 512 m.annotation_objects) later)
      ∙ ap (λ x. x ++ module_texts ms)
          (add_objects-append (take 512 m.annotation_objects) later
            ∙ ap (λ x. x ++ object_texts (take 512 m.annotation_objects))
                (add_entries-append (take 512 m.simple_annotations) typed))
      ∙ append_assoc (typed ++ entry_texts (take 512 m.simple_annotations))
          (object_texts (take 512 m.annotation_objects)) (module_texts ms)
      ∙ append_assoc typed (entry_texts (take 512 m.simple_annotations))
          (object_texts (take 512 m.annotation_objects) ++ module_texts ms)

-- The last value of a key.
unfoldable pub last_value : Text → List (Text × Text) → Option Text
last_value k [] = none
last_value k ((j, v) ∷ d) =
    let rest = last_value k d in or_else rest (if k =b j then some v else none)

pub get_item-add_entries :
    (c : Codecs) (es : List (Bytes × Bytes)) (k : Text) (d : List (Text × Text))
    → get_item ◌=b◌ k (add_entries c set_simple es d)
      ≡ or_else (last_value k (entry_texts c es)) (get_item ◌=b◌ k d)
unfolding last_value entry_texts
get_item-add_entries c [] k d = refl
get_item-add_entries c ((j, v) ∷ es) k d =
    let key = c.decode_utf8 j in
    let value = c.decode_utf8 v in
    elim (Bool-cases (is_empty key)) [
      | inl e ↦ rw e (get_item-add_entries c es k d)
      | inr e ↦ rw e (
          get_item-add_entries c es k (set_simple key value d)
          ∙ ap (or_else (last_value k (entry_texts c es)))
              (get_item-set_item ◌=b◌ =b_iff key k value d)
          ∙ or_else-if (last_value k (entry_texts c es)) (get_item ◌=b◌ k d) (k =b key) value)
    ]
