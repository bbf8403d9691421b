-- ===== src/Minidump/Page/Parsed.antt =====
-- The table of annotations of a parsed minidump: the simple annotations are a `dict`.
use crashkit.Prelude.{
  ℕ, zero, suc, ◌+◌, ◌*◌, ◌≡◌, refl, subst, ◌∙◌, Bool, true, false, not, ◌||◌, ◌&&◌, Option, none,
  some, List, [], ◌∷◌, ltb, leb, ◌==◌, min, if◌then◌else◌, length, ◌>>=◌, some_cancel, Bool-cases,
  inl, inr, arith, take,
}
use crashkit.Prelude.Bytes.{Bytes, codes, ◌=b◌, =b_iff}
use crashkit.StdMap.{elem}
use crashkit.Minidump.Layout.{unpack}
use crashkit.Minidump.Dict.{set_item, get_item}
use crashkit.Minidump.Reader.{
  Text, Codecs, Directory, is_empty, read_utf8_string, found, with_stream, read_exception,
  read_thread_count, read_arch, read_module_list,
}
use crashkit.Minidump.Reader.Annotations.{
  Annotations, set_simple, no_annotations, read_entries, read_string_dictionary, read_module_infos,
  read_crashpad_info, parse_crashpad_annotations,
}
use crashkit.Minidump.Reader.Parse.{
  Metadata, no_metadata, streams_of, parse_streams, parse_minidump,
}
use crashkit.Minidump.Page.{item_keys, dmp_rows, filtered_count, sent_count, count}
use crashkit.Minidump.Page.Keys.{Distinct}
use crashkit.Minidump.Page.Counts.{row_keys, count_rows, dmp_rows-count}

elem-set_item :
    (k j : Text) (v : Text) (d : List (Text × Text))
    → elem k (item_keys (set_item ◌=b◌ j v d)) ≡ k =b j || elem k (item_keys d)
unfolding set_item
elem-set_item k j v [] = refl
elem-set_item k j v ((i, w) ∷ d) =
    ground (arith, =b_iff j i, =b_iff k i, =b_iff k j, elem-set_item k j v d)

set_item-Distinct :
    (j v : Text) (d : List (Text × Text))
    → Distinct (item_keys d)
    → Distinct (item_keys (set_item ◌=b◌ j v d))
unfolding set_item
set_item-Distinct j v [] h = (refl, tt)
set_item-Distinct j v ((i, w) ∷ d) (n, h) = elim (Bool-cases (j =b i)) [
  | inl e ↦ rw e (n, h)
  | inr e ↦ rw e (
    elem-set_item i j v d ∙ ground (arith, n, e, =b_iff i j, =b_iff j i),
    set_item-Distinct j v d h,
  )
]

-- If a call gives a value, the value has this property.
module _ {A : Type 0} (P : A → Type 0) where
  abbrev Ensures : Option A → Type 0
  Ensures m = (a : A) → m ≡ some a → P a

  if-Ensures : (b : Bool) {x y : Option A} → Ensures x → Ensures y → Ensures (if b then x else y)
  if-Ensures true h k = h
  if-Ensures false h k = k

  some-Ensures : (a : A) → P a → Ensures (some a)
  some-Ensures a p b e = subst P (some_cancel e) p

  bind-Ensures :
      {B : Type 0} (m : Option B) {k : B → Option A}
      → ((b : B) → m ≡ some b → Ensures (k b))
      → Ensures (m >>= k)
  bind-Ensures none h a e = cc
  bind-Ensures (some b) h a e = h b refl a e

abbrev IsDict : List (Text × Text) → Type 0
IsDict d = Distinct (item_keys d)

module _ (c : Codecs) (bytes : Bytes) where
  read_entries-Ensures :
      (rva n i : ℕ) (found : List (Text × Text))
      → IsDict found
      → Ensures IsDict (read_entries c set_simple bytes rva n i found)
  unfolding read_entries
  read_entries-Ensures rva zero i found h = some-Ensures IsDict found h
  read_entries-Ensures rva (suc n) i found h =
      if-Ensures IsDict (ltb (length bytes) (rva + 4 + i * 8 + 8)) (some-Ensures IsDict found h) (
        bind-Ensures IsDict (unpack 4 bytes (rva + 4 + i * 8)) (λ key_rva e.
          bind-Ensures IsDict (unpack 4 bytes (rva + 4 + i * 8 + 4)) (λ val_rva e.
            bind-Ensures IsDict (read_utf8_string c bytes key_rva) (λ key e.
              bind-Ensures IsDict (read_utf8_string c bytes val_rva) (λ val e.
                read_entries-Ensures rva n (suc i)
                  (if is_empty key then found else set_simple key val found) (added key val))))))
    where
      added :
          (key val : Text)
          → Distinct (item_keys (if is_empty key then found else set_simple key val found))
      added [] val = h
      added (x ∷ key) val = set_item-Distinct (x ∷ key) val found h

  read_string_dictionary-Ensures :
      (rva : ℕ) → Ensures IsDict (read_string_dictionary c set_simple bytes rva [])
  unfolding read_string_dictionary
  read_string_dictionary-Ensures rva =
      if-Ensures IsDict (not (rva == 0) && leb (rva + 4) (length bytes))
        (bind-Ensures IsDict (unpack 4 bytes rva)
          (λ n e. read_entries-Ensures rva (min n 512) 0 [] tt))
        (some-Ensures IsDict [] tt)

  read_crashpad_info-Ensures :
      (rva : ℕ) → Ensures (λ (a : Annotations). IsDict a.simple) (read_crashpad_info c bytes rva)
  unfolding read_crashpad_info
  read_crashpad_info-Ensures rva =
      let P = λ (a : Annotations). IsDict a.simple in
      if-Ensures P (ltb (length bytes) (rva + 52)) (some-Ensures P no_annotations tt) (
        bind-Ensures P (unpack 4 bytes rva) (λ v e.
          bind-Ensures P (unpack 4 bytes (rva + 36)) (λ v1 e.
            bind-Ensures P (unpack 4 bytes (rva + 40)) (λ sa_rva e.
              bind-Ensures P (unpack 4 bytes (rva + 44)) (λ v2 e.
                bind-Ensures P (unpack 4 bytes (rva + 48)) (λ ml_rva e.
                  bind-Ensures P (read_string_dictionary c set_simple bytes sa_rva []) (λ simple s.
                    bind-Ensures P (read_module_infos c bytes ml_rva []) (λ typed e.
                      some-Ensures P (record { simple = simple; typed = typed })
                        (read_string_dictionary-Ensures sa_rva simple s)))))))))

  parse_crashpad_annotations-Ensures :
      (streams : Directory)
      → Ensures (λ (a : Annotations). IsDict a.simple) (parse_crashpad_annotations c bytes streams)
  unfolding parse_crashpad_annotations with_stream
  parse_crashpad_annotations-Ensures streams = found_case (get_item ◌==◌ 0x43500001 streams)
    where
      found_case :
          (o : Option (ℕ × ℕ))
          → Ensures
              (λ (a : Annotations). IsDict a.simple)
              (found no_annotations (read_crashpad_info c bytes) o)
      found_case none = some-Ensures (λ (a : Annotations). IsDict a.simple) no_annotations tt
      found_case (some (rva, size)) = read_crashpad_info-Ensures rva

-- The annotations of a result are a `dict`, if there are any.
abbrev HasDict : Metadata → Type 0
HasDict r = (a : Annotations) → r.annotations ≡ some a → IsDict a.simple

parse_streams-Ensures :
    (c : Codecs) (bytes : Bytes) (streams : Directory)
    → Ensures HasDict (parse_streams c bytes streams)
unfolding parse_streams
parse_streams-Ensures c bytes streams =
    bind-Ensures HasDict (with_stream 6 streams none (read_exception bytes)) (λ crash e.
      bind-Ensures HasDict (with_stream 3 streams none (read_thread_count bytes)) (λ num_threads e.
        bind-Ensures HasDict (with_stream 7 streams none (read_arch bytes)) (λ arch e.
          bind-Ensures HasDict (with_stream 4 streams none (read_module_list c bytes)) (λ modules e.
            bind-Ensures HasDict (parse_crashpad_annotations c bytes streams) (λ cp e.
              some-Ensures HasDict
                (record {
                  crash = crash;
                  num_threads = num_threads;
                  processor_arch = arch;
                  modules = modules;
                  annotations = some cp;
                })
                (λ a f. parse_crashpad_annotations-Ensures c bytes streams a (e ∙ f)))))))

parse_minidump-Ensures :
    (c : Codecs) (file : Option Bytes) → Ensures HasDict (parse_minidump c file)
unfolding parse_minidump
parse_minidump-Ensures c none = some-Ensures HasDict no_metadata (λ a e. cc)
parse_minidump-Ensures c (some bytes) =
    if-Ensures HasDict (ltb (length bytes) 32 || not (take 4 bytes =b codes "MDMP"))
      (some-Ensures HasDict no_metadata (λ a e. cc))
      (bind-Ensures HasDict (streams_of bytes) (λ streams e. parse_streams-Ensures c bytes streams))

-- The table of annotations of any parsed file that has annotations has one row for each key among
-- the simple and the typed annotations, and the badges above it count its rows: the rows marked as
-- filtered are as many as the keys that did not arrive in the form, and the others as many as the
-- page calls sent.
pub dmp_rows-parsed :
    (c : Codecs) (file : Option Bytes) (http : List Text) (r : Metadata) (a : Annotations)
    → parse_minidump c file ≡ some r
    → r.annotations ≡ some a
    → (count_rows (λ b. b) (dmp_rows http a) ≡ filtered_count http a)
      × (count_rows not (dmp_rows http a) ≡ sent_count http a)
      × ((k : Text)
          → count (λ j. k =b j) (row_keys (dmp_rows http a))
            ≡ (if elem k (item_keys a.simple) || elem k (item_keys a.typed) then 1 else 0))
dmp_rows-parsed c file http r a h e = dmp_rows-count http a (parse_minidump-Ensures c file r h a e)
