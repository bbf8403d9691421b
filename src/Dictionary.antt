-- ===== src/Dictionary.antt =====
-- crashkit/src/main/cpp/crashpad/include/client/simple_string_dictionary.h: the fixed-size map
-- that holds the dynamic annotations. It is a template without a library behind it, so its code is
-- compiled into the bridge. A `std::string_view` is `none` where its `data()` is null; a buffer is
-- its list of bytes; a pointer to an entry is its index. The `DCHECK`s and the block under
-- `#ifndef NDEBUG` do nothing in a release build and are left out.
pub mod Entries
pub mod Shape
pub mod Slots
pub mod Laws
pub mod Distinct
pub mod Count
pub mod Walk
pub mod Overlong
pub mod Writes
mod Tests
use crashkit.Prelude.{
  ℕ, zero, suc, ◌+◌, ◌-◌, min, Bool, true, false, not, Option, none, some, List, [], ◌∷◌, ◌++◌,
  ◌==◌, leb, if◌then◌else◌, length, get_elem?, get_or, set, take, drop, replicate, modify,
  find_index,
}
use crashkit.Prelude.Bytes.{Bytes, until_nul}

-- `TSimpleStringDictionary::Entry`
pub record Entry : Type 0 where
  pub key : Bytes
  pub value : Bytes

pub is_active : Entry → Bool
is_active e = not (get_or e.key 0 0 == 0)

-- `strncmp(key, buf, n) == 0`, for a key of at least n bytes
strncmp_eq : ℕ → Bytes → Bytes → Bool
strncmp_eq zero key buf = true
strncmp_eq (suc n) [] buf = true
strncmp_eq (suc n) (k ∷ key) [] = k == 0
strncmp_eq (suc n) (k ∷ key) (b ∷ buf) =
    let rest = strncmp_eq n key buf in if k == b then (if k == 0 then true else rest) else false

-- `SetFromStringView`: the bytes that fit, a NUL, and what the buffer held behind them.
pub set_from_string_view : Bytes → Bytes → ℕ → Bytes
set_from_string_view src dst dst_size =
    let copy_len = min (dst_size - 1) (length src) in
    take copy_len src ++ 0 ∷ drop (copy_len + 1) dst

-- The `Iterator`: the dictionary it walks and the index of the next entry.
pub record Iterator : Type 0 where
  pub entries : List Entry
  pub current : ℕ

-- The loop of `Iterator::Next` over the entries from `current` on.
pub next_from : ℕ → List Entry → Option Entry × ℕ
unfolding is_active
next_from current [] = (none, current)
next_from current (e ∷ es) =
    let later = next_from (current + 1) es in if is_active e then (some e, current + 1) else later

pub iterator_next : Iterator → Option Entry × Iterator
unfolding next_from
iterator_next it =
    let (found, current) = next_from it.current (drop it.current it.entries) in
    (found, record it { current = current })

-- The loop of `GetCount`, with its counter.
pub count_from : ℕ → List Entry → ℕ
unfolding is_active
count_from count [] = count
count_from count (e ∷ es) = count_from (if is_active e then count + 1 else count) es

pub get_count : List Entry → ℕ
unfolding count_from
get_count d = count_from 0 d

-- `entry->key[0] = '\0'; entry->value[0] = '\0';`
pub clear_entry : Entry → Entry
clear_entry e = record e { key = set e.key 0 0; value = set e.value 0 0 }

-- The template's parameters.
module _ (key_size value_size num_entries : ℕ) where
  -- The constructor: `entries_()`, all bytes zero.
  unfoldable pub new : List Entry
  new =
      replicate num_entries (record { key = replicate key_size 0; value = replicate value_size 0 })

-- `return entry->value`, read as a C string.
pub value_at : Option ℕ → List Entry → Option Bytes
value_at none d = none
value_at (some i) d = elim (get_elem? d i) [ none ↦ none | some e ↦ some (until_nul e.value) ]

pub remove_at : Option ℕ → List Entry → List Entry
unfolding clear_entry
remove_at none d = d
remove_at (some i) d = modify d i clear_entry

module _ (key_size : ℕ) where
  pub entry_key_equals : Bytes → Entry → Bool
  unfolding strncmp_eq
  entry_key_equals key e =
      if leb key_size (length key)
      then false
      else if not (get_or e.key (length key) 0 == 0)
      then false
      else strncmp_eq (length key) key e.key

  -- The index of the entry that `GetConstEntryForKey` and `GetEntryForKey` point to.
  pub get_entry_for_key : Bytes → List Entry → Option ℕ
  unfolding entry_key_equals
  get_entry_for_key key d = find_index (entry_key_equals key) d

  unfoldable pub get_value_for_key : Option Bytes → List Entry → Option Bytes
  unfolding get_entry_for_key value_at
  get_value_for_key none d = none
  get_value_for_key (some []) d = none
  get_value_for_key (some (k ∷ key)) d = value_at (get_entry_for_key (k ∷ key) d) d

  pub remove_key : Option Bytes → List Entry → List Entry
  unfolding get_entry_for_key remove_at
  remove_key none d = d
  remove_key (some []) d = d
  remove_key (some (k ∷ key)) d = remove_at (get_entry_for_key (k ∷ key) d) d

  pub write_key : Bytes → Entry → Entry
  unfolding set_from_string_view
  write_key key e = record e { key = set_from_string_view key e.key key_size }

pub write_value : ℕ → Bytes → Entry → Entry
unfolding set_from_string_view
write_value value_size value e = record e { value = set_from_string_view value e.value value_size }

module _ (key_size value_size : ℕ) where
  -- The first inactive entry takes the key and then the value; there may be none.
  pub insert_at : Option ℕ → Bytes → Bytes → List Entry → List Entry
  unfolding write_key write_value
  insert_at none key value d = d
  insert_at (some i) key value d =
      modify (modify d i (write_key key_size key)) i (write_value value_size value)

  pub store_at : Option ℕ → Bytes → Bytes → List Entry → List Entry
  unfolding insert_at is_active
  store_at none key value d = insert_at (find_index (λ e. not (is_active e)) d) key value d
  store_at (some i) key value d = modify d i (write_value value_size value)

  unfoldable pub set_key_value : Option Bytes → Option Bytes → List Entry → List Entry
  unfolding store_at get_entry_for_key remove_key
  set_key_value key none d = remove_key key_size key d
  set_key_value none (some value) d = d
  set_key_value (some []) (some value) d = d
  set_key_value (some (k ∷ key)) (some value) d =
      if k == 0 then d else store_at (get_entry_for_key key_size (k ∷ key) d) (k ∷ key) value d
