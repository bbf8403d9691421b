-- ===== src/Dictionary/Shape.antt =====
-- Every operation keeps the buffers their size, NUL-terminated, and the number of entries.
use crashkit.Prelude.{
  ℕ, zero, suc, ◌<◌, ◌≡◌, refl, ◌∙◌, not, false, Option, none, some, List, [], ◌∷◌, arith, ◌==◌,
  length, modify, All, All-modify, All-replicate, length-modify, length-replicate, replicate,
  find_index,
}
use crashkit.Prelude.Bytes.{Bytes, until_nul}
use crashkit.Dictionary.{
  Entry, is_active, new, get_entry_for_key, write_key, write_value, store_at, insert_at,
  set_key_value, remove_at, remove_key, clear_entry,
}
use crashkit.Dictionary.Entries.{
  IsEntry, write_key-IsEntry, write_value-IsEntry, clear_entry-IsEntry,
}

abbrev pub IsDictionary : ℕ → ℕ → List Entry → Type 0
IsDictionary key_size value_size d = All (IsEntry key_size value_size) d

until_nul-replicate : (n : ℕ) → until_nul (replicate n 0) ≡ []
unfolding until_nul
until_nul-replicate zero = refl
until_nul-replicate (suc n) = refl

module _ (key_size value_size : ℕ) where
  remove_at-IsDictionary :
      (i : Option ℕ) (d : List Entry)
      → IsDictionary key_size value_size d
      → IsDictionary key_size value_size (remove_at i d)
  unfolding remove_at
  remove_at-IsDictionary none d w = w
  remove_at-IsDictionary (some i) d w =
      All-modify (IsEntry key_size value_size) clear_entry d i (λ e. clear_entry-IsEntry e) w

  -- Removing a key, whatever it is, leaves every entry two C strings in buffers of their size.
  pub remove_key-IsDictionary :
      (key : Option Bytes) (d : List Entry)
      → IsDictionary key_size value_size d
      → IsDictionary key_size value_size (remove_key key_size key d)
  unfolding remove_key
  remove_key-IsDictionary none d w = w
  remove_key-IsDictionary (some []) d w = w
  remove_key-IsDictionary (some (b ∷ key)) d w = remove_at-IsDictionary _ d w

  insert_at-IsDictionary :
      (i : Option ℕ) (key value : Bytes) (d : List Entry)
      → IsDictionary key_size value_size d
      → IsDictionary key_size value_size (insert_at key_size value_size i key value d)
  unfolding insert_at
  insert_at-IsDictionary none key value d w = w
  insert_at-IsDictionary (some i) key value d w =
      All-modify (IsEntry key_size value_size) (write_value value_size value) _ i
        (λ e. write_value-IsEntry value e)
        (All-modify (IsEntry key_size value_size) (write_key key_size key) d i
          (λ e. write_key-IsEntry key e) w)

  store_at-IsDictionary :
      (i : Option ℕ) (key value : Bytes) (d : List Entry)
      → IsDictionary key_size value_size d
      → IsDictionary key_size value_size (store_at key_size value_size i key value d)
  unfolding store_at
  store_at-IsDictionary none key value d w = insert_at-IsDictionary _ key value d w
  store_at-IsDictionary (some i) key value d w =
      All-modify (IsEntry key_size value_size) (write_value value_size value) d i
        (λ e. write_value-IsEntry value e) w

  -- Writing any value under any key, too long or null ones included, leaves every entry two C
  -- strings in buffers of their size.
  pub set_key_value-IsDictionary :
      (key value : Option Bytes) (d : List Entry)
      → IsDictionary key_size value_size d
      → IsDictionary key_size value_size (set_key_value key_size value_size key value d)
  unfolding set_key_value
  set_key_value-IsDictionary key none d w = remove_key-IsDictionary key d w
  set_key_value-IsDictionary none (some value) d w = w
  set_key_value-IsDictionary (some []) (some value) d w = w
  set_key_value-IsDictionary (some (zero ∷ key)) (some value) d w = w
  set_key_value-IsDictionary (some (suc b ∷ key)) (some value) d w =
      let e : (suc b == 0) ≡ false = ground arith in rw e (store_at-IsDictionary _ _ value d w)

  -- A new dictionary is well formed, if its buffers have room for the NUL.
  pub new-IsDictionary :
      (num_entries : ℕ)
      → 0 < key_size
      → 0 < value_size
      → IsDictionary key_size value_size (new key_size value_size num_entries)
  unfolding new
  new-IsDictionary n h k = All-replicate _ n _ (record {
    key_length = length-replicate key_size 0;
    value_length = length-replicate value_size 0;
    key_ends = rw until_nul-replicate h;
    value_ends = rw until_nul-replicate k;
  })

  length-remove_key :
      (key : Option Bytes) (d : List Entry) → length (remove_key key_size key d) ≡ length d
  unfolding remove_key remove_at
  length-remove_key none d = refl
  length-remove_key (some []) d = refl
  length-remove_key (some (b ∷ key)) d = go (get_entry_for_key key_size (b ∷ key) d)
    where
      go : (i : Option ℕ) → length (remove_at i d) ≡ length d
      go none = refl
      go (some i) = length-modify d i clear_entry

  length-store_at :
      (i : Option ℕ) (key value : Bytes) (d : List Entry)
      → length (store_at key_size value_size i key value d) ≡ length d
  unfolding store_at insert_at
  length-store_at (some i) key value d = length-modify d i _
  length-store_at none key value d = go (find_index (λ e. not (is_active e)) d)
    where
      go : (i : Option ℕ) → length (insert_at key_size value_size i key value d) ≡ length d
      go none = refl
      go (some i) = length-modify (modify d i _) i _ ∙ length-modify d i _

  -- The number of entries never changes.
  pub length-set_key_value :
      (key value : Option Bytes) (d : List Entry)
      → length (set_key_value key_size value_size key value d) ≡ length d
  unfolding set_key_value
  length-set_key_value key none d = length-remove_key key d
  length-set_key_value none (some value) d = refl
  length-set_key_value (some []) (some value) d = refl
  length-set_key_value (some (b ∷ key)) (some value) d =
      ground (arith, length-store_at (get_entry_for_key key_size (b ∷ key) d) (b ∷ key) value d)

  pub length-new : (num_entries : ℕ) → length (new key_size value_size num_entries) ≡ num_entries
  unfolding new
  length-new n = length-replicate n _
