-- ===== src/Dictionary/Entries.antt =====
-- One entry of the dictionary: its two buffers as C strings, and what writing to them does.
use crashkit.Prelude.{
  ℕ, zero, suc, ◌-◌, ◌≤◌, ◌<◌, min, ◌≡◌, ◌≢◌, refl, ap, ◌∙◌, false, not, [], ◌∷◌, ◌++◌, arith, ◌==◌,
  leb, if◌then◌else◌, length, get_or, set, take, length-append, length-take, length-drop,
  length-set, take_all, All-take,
}
use crashkit.Prelude.Bytes.{Bytes, NulFree, until_nul, until_nul-append, ◌=b◌}
use crashkit.Dictionary.{
  Entry, is_active, strncmp_eq, set_from_string_view, clear_entry, entry_key_equals, write_key,
  write_value,
}

-- A key that the dictionary accepts: not empty, no NUL, and shorter than the buffer.
pub record IsKey (key_size : ℕ) (key : Bytes) : Type 0 where
  pub nonempty : key ≢ []
  pub nul_free : NulFree key
  pub fits : length key < key_size

-- Both buffers have their size and hold a NUL, so both are C strings.
pub record IsEntry (key_size value_size : ℕ) (e : Entry) : Type 0 where
  pub key_length : length e.key ≡ key_size
  pub value_length : length e.value ≡ value_size
  pub key_ends : length (until_nul e.key) < key_size
  pub value_ends : length (until_nul e.value) < value_size

length-until_nul-append : (s t : Bytes) → length (until_nul (s ++ 0 ∷ t)) ≤ length s
unfolding until_nul
length-until_nul-append [] t = omega arith
length-until_nul-append (b ∷ s) t = ground (arith, length-until_nul-append s t)

min_comm_zero : (n : ℕ) → min n 0 ≡ 0
min_comm_zero n = omega arith

min_zero : (n : ℕ) → min 0 n ≡ 0
min_zero n = omega arith

suc-min : (m n : ℕ) → min (suc m) (suc n) ≡ suc (min m n)
suc-min m n = omega arith

take-min : (n : ℕ) (s : Bytes) → take (min n (length s)) s ≡ take n s
take-min zero s = rw (min_zero (length s))
take-min (suc n) [] = rw (min_comm_zero (suc n))
take-min (suc n) (b ∷ s) = rw (suc-min n (length s)) (ap (λ r. b ∷ r) (take-min n s))

module _ (src dst : Bytes) (n : ℕ) (pos : 0 < n) where
  until_nul-set_from_string_view :
      NulFree src → until_nul (set_from_string_view src dst n) ≡ take (n - 1) src
  unfolding set_from_string_view
  until_nul-set_from_string_view h =
      until_nul-append _ _ (All-take (λ b. b ≢ 0) (min (n - 1) (length src)) src h)
      ∙ take-min (n - 1) src

  length-set_from_string_view : length dst ≡ n → length (set_from_string_view src dst n) ≡ n
  unfolding set_from_string_view
  length-set_from_string_view h = omega (arith, length-append {0}, length-take {0}, length-drop {0})

  set_from_string_view_ends : length (until_nul (set_from_string_view src dst n)) < n
  unfolding set_from_string_view
  set_from_string_view_ends = omega (arith, length-until_nul-append, length-take {0})

equals-until_nul :
    (key buf : Bytes)
    → NulFree key
    → length key < length buf
    → (if not (get_or buf (length key) 0 == 0) then false else strncmp_eq (length key) key buf)
      ≡ (key =b until_nul buf)
unfolding strncmp_eq until_nul ◌=b◌
equals-until_nul [] [] h k = absurd (omega arith)
equals-until_nul [] (b ∷ buf) h k = ground arith
equals-until_nul (x ∷ key) [] h k = absurd (omega arith)
equals-until_nul (x ∷ key) (b ∷ buf) h k =
    ground (arith, equals-until_nul key buf h.1 (omega arith))

fits_test : {n : ℕ} (key : Bytes) → IsKey n key → leb n (length key) ≡ false
fits_test key k = ground arith

pub until_nul-set_zero : (buf : Bytes) → until_nul (set buf 0 0) ≡ []
unfolding until_nul
until_nul-set_zero [] = refl
until_nul-set_zero (b ∷ buf) = refl

-- What the C strings of an entry are after each write.
-- Of a key that is too long the first bytes are kept, as many as fit.
pub until_nul-write_key :
    {key_size : ℕ} (key : Bytes) (e : Entry)
    → 0 < key_size
    → NulFree key
    → until_nul (write_key key_size key e).key ≡ take (key_size - 1) key
unfolding write_key
until_nul-write_key {key_size} key e p h = until_nul-set_from_string_view key e.key key_size p h

pub key-write_key :
    {key_size : ℕ} (key : Bytes) (e : Entry)
    → IsKey key_size key
    → until_nul (write_key key_size key e).key ≡ key
unfolding write_key
key-write_key {key_size} key e k =
    until_nul-set_from_string_view key e.key key_size (omega (arith, k.fits)) k.nul_free
    ∙ take_all (key_size - 1) key (omega (arith, k.fits))

module _ {key_size value_size : ℕ} where
  -- The comparison of an accepted key with an entry is equality with its C string.
  pub entry_key_equals-eq :
      (key : Bytes) (e : Entry)
      → IsKey key_size key
      → IsEntry key_size value_size e
      → entry_key_equals key_size key e ≡ (key =b until_nul e.key)
  unfolding entry_key_equals
  entry_key_equals-eq key e k w =
      rw (fits_test key k) (equals-until_nul key e.key k.nul_free (omega arith))

  pub write_key-IsEntry :
      (key : Bytes) (e : Entry)
      → IsEntry key_size value_size e
      → IsEntry key_size value_size (write_key key_size key e)
  unfolding write_key
  write_key-IsEntry key e w = record {
    key_length = length-set_from_string_view key e.key key_size (omega arith) w.key_length;
    value_length = w.value_length;
    key_ends = set_from_string_view_ends key e.key key_size (omega arith);
    value_ends = w.value_ends;
  }

  pub write_value-IsEntry :
      (value : Bytes) (e : Entry)
      → IsEntry key_size value_size e
      → IsEntry key_size value_size (write_value value_size value e)
  unfolding write_value
  write_value-IsEntry value e w = record {
    key_length = w.key_length;
    value_length =
        length-set_from_string_view value e.value value_size (omega arith) w.value_length;
    key_ends = w.key_ends;
    value_ends = set_from_string_view_ends value e.value value_size (omega arith);
  }

  pub clear_entry-IsEntry :
      (e : Entry) → IsEntry key_size value_size e → IsEntry key_size value_size (clear_entry e)
  unfolding clear_entry
  clear_entry-IsEntry e w = record {
    key_length = length-set e.key 0 0 ∙ w.key_length;
    value_length = length-set e.value 0 0 ∙ w.value_length;
    key_ends = rw until_nul-set_zero (omega arith);
    value_ends = rw until_nul-set_zero (omega arith);
  }

  pub value-write_value :
      (value : Bytes) (e : Entry)
      → IsEntry key_size value_size e
      → NulFree value
      → until_nul (write_value value_size value e).value ≡ take (value_size - 1) value
  unfolding write_value
  value-write_value value e w h =
      until_nul-set_from_string_view value e.value value_size (omega arith) h

-- An entry is inactive exactly when the C string of its key is empty.
pub inactive_iff : (e : Entry) → is_active e ≡ not (until_nul e.key =b [])
unfolding is_active until_nul ◌=b◌
inactive_iff e = go e.key
  where
    go : (buf : Bytes) → not (get_or buf 0 0 == 0) ≡ not (until_nul buf =b [])
    go [] = refl
    go (b ∷ buf) = ground arith
