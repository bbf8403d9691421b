-- ===== src/Dictionary/Laws.antt =====
-- The dictionary as a map: reading after writing and after removing, for the keys that it accepts.
use crashkit.Prelude.{
  zero, suc, ◌<◌, get_or, replicate, ℕ, ◌-◌, ◌≡◌, ◌≢◌, refl, ◌∙◌, sym, Bool, true, false, ◌||◌,
  none, some, List, [], ◌∷◌, arith, ◌==◌, if◌then◌else◌, take, find_index, All, inl, inr,
  Option-cases,
}
use crashkit.Prelude.Bytes.{Bytes, NulFree, until_nul, ◌=b◌, =b_iff}
use crashkit.Dictionary.{
  new, is_active, Entry, entry_key_equals, get_entry_for_key, get_value_for_key, write_key,
  write_value, store_at, set_key_value,
}
use crashkit.Dictionary.Entries.{
  IsKey, entry_key_equals-eq, key-write_key, value-write_value, inactive_iff, write_key-IsEntry,
}
use crashkit.Dictionary.Shape.{IsDictionary, set_key_value-IsDictionary}
use crashkit.Dictionary.Slots.{
  named, inactive, any, update, first_value, modify-eq-update, any_of_find_index,
  not_any_of_find_index, modify-modify, find_index-ext, value_at-find,
}

-- A key is there, or a slot is free for it.
abbrev pub has_room : Bytes → List Entry → Bool
has_room key d = any (named key) d || any inactive d

pub named-write_value :
    (value_size : ℕ) (j value : Bytes) (e : Entry)
    → named j (write_value value_size value e) ≡ named j e
unfolding write_value
named-write_value value_size j value e = refl

pub first_value-not_any :
    (key : Bytes) (d : List Entry) → any (named key) d ≡ false → first_value key d ≡ none
first_value-not_any key [] h = refl
first_value-not_any key (e ∷ d) h = ground (arith, first_value-not_any key d)

not_any_of_first_value :
    (key : Bytes) (d : List Entry) → first_value key d ≡ none → any (named key) d ≡ false
not_any_of_first_value key [] h = refl
not_any_of_first_value key (e ∷ d) h = ground (arith, not_any_of_first_value key d)

module _ (key_size value_size : ℕ) where
  equals-named :
      (key : Bytes) (d : List Entry)
      → IsKey key_size key
      → IsDictionary key_size value_size d
      → All (λ e. entry_key_equals key_size key e ≡ named key e) d
  equals-named key [] k w = tt
  equals-named key (e ∷ d) k w = (entry_key_equals-eq key e k w.0, equals-named key d k w.1)

  pub get_entry_for_key-eq :
      (key : Bytes) (d : List Entry)
      → IsKey key_size key
      → IsDictionary key_size value_size d
      → get_entry_for_key key_size key d ≡ find_index (named key) d
  unfolding get_entry_for_key
  get_entry_for_key-eq key d k w = find_index-ext _ _ d (equals-named key d k w)

  -- The lookup is the first entry of that name.
  pub get-eq-first_value :
      (key : Bytes) (d : List Entry)
      → IsKey key_size key
      → IsDictionary key_size value_size d
      → get_value_for_key key_size (some key) d ≡ first_value key d
  unfolding get_value_for_key
  get-eq-first_value [] d k w = absurd (k.nonempty refl)
  get-eq-first_value (b ∷ key) d k w =
      rw (get_entry_for_key-eq (b ∷ key) d k w) (value_at-find (b ∷ key) d)

  pub not_any_of_get :
      (key : Bytes) (d : List Entry)
      → IsDictionary key_size value_size d
      → IsKey key_size key
      → get_value_for_key key_size (some key) d ≡ none
      → any (named key) d ≡ false
  not_any_of_get key d w k h = not_any_of_first_value key d (sym (get-eq-first_value key d k w) ∙ h)

  abbrev pub stored : Bytes → Bytes → List Entry → List Entry
  stored key value d =
      if any (named key) d
      then update (named key) (write_value value_size value) d
      else if any inactive d
      then update inactive (λ e. write_value value_size value (write_key key_size key e)) d
      else d

  store_at-eq :
      (key value : Bytes) (d : List Entry)
      → store_at key_size value_size (find_index (named key) d) key value d ≡ stored key value d
  unfolding store_at
  store_at-eq key value d = elim (Option-cases (find_index (named key) d)) [
    | inr (i, e) ↦
        rw (e, any_of_find_index (named key) d i e)
          (modify-eq-update (named key) (write_value value_size value) d i e)
    | inl e ↦
        rw (e, not_any_of_find_index (named key) d e)
          (elim (Option-cases (find_index inactive d)) [
            | inl f ↦ rw (f, not_any_of_find_index inactive d f)
            | inr (i, f) ↦
                rw (f, any_of_find_index inactive d i f)
                  (modify-modify d i (write_key key_size key) (write_value value_size value)
                    ∙ modify-eq-update inactive
                        (λ x. write_value value_size value (write_key key_size key x)) d i f)
          ])
  ]

  -- What a call with an accepted key does: it updates the entry of that name, or else fills the
  -- first free one, or else does nothing.
  pub set-eq-stored :
      (key value : Bytes) (d : List Entry)
      → IsKey key_size key
      → IsDictionary key_size value_size d
      → set_key_value key_size value_size (some key) (some value) d ≡ stored key value d
  unfolding set_key_value
  set-eq-stored [] value d k w = absurd (k.nonempty refl)
  set-eq-stored (b ∷ key) value d k w =
      let e : (b == 0) ≡ false = ground (arith, k.nul_free.0) in
      rw (e, get_entry_for_key-eq (b ∷ key) d k w) (store_at-eq (b ∷ key) value d)

  first_value-update-named :
      (key j value : Bytes) (d : List Entry)
      → IsDictionary key_size value_size d
      → NulFree value
      → any (named key) d ≡ true
      → first_value j (update (named key) (write_value value_size value) d)
        ≡ (if key =b j then some (take (value_size - 1) value) else first_value j d)
  first_value-update-named key j value [] w h k = cc
  first_value-update-named key j value (e ∷ d) w h k = ground (
    arith,
    value-write_value value e w.0 h,
    named-write_value value_size j value e,
    =b_iff key (until_nul e.key),
    =b_iff j (until_nul e.key),
    =b_iff key j,
    first_value-update-named key j value d w.1 h,
  )

  first_value-update-inactive :
      (key j value : Bytes) (d : List Entry)
      → IsDictionary key_size value_size d
      → IsKey key_size key
      → j ≢ []
      → NulFree value
      → any (named key) d ≡ false
      → any inactive d ≡ true
      → first_value j
          (update inactive (λ e. write_value value_size value (write_key key_size key e)) d)
        ≡ (if key =b j then some (take (value_size - 1) value) else first_value j d)
  first_value-update-inactive key j value [] w k n h f g = cc
  first_value-update-inactive key j value (e ∷ d) w k n h f g = ground (
    arith,
    value-write_value value (write_key key_size key e) (write_key-IsEntry key e w.0) h,
    named-write_value value_size j value (write_key key_size key e),
    key-write_key key e k,
    inactive_iff e,
    =b_iff (until_nul e.key) [],
    =b_iff j (until_nul e.key),
    =b_iff j key,
    =b_iff key j,
    first_value-update-inactive key j value d w.1 k n h,
  )

  first_value-stored :
      (key j value : Bytes) (d : List Entry)
      → IsDictionary key_size value_size d
      → IsKey key_size key
      → IsKey key_size j
      → NulFree value
      → first_value j (stored key value d) ≡ (
          if key =b j
          then (if has_room key d then some (take (value_size - 1) value) else none)
          else first_value j d)
  first_value-stored key j value d w k n h = ground (
    arith,
    first_value-update-named key j value d w h,
    first_value-update-inactive key j value d w k n.nonempty h,
    first_value-not_any key d,
    =b_iff key j,
  )

  -- For an accepted key and a value without NUL, on entries that are C strings: reading a key after
  -- a write gives the value's first bytes, as many as fit, if it is the key that was written and it
  -- had an entry or a free one, nothing if there was no room, and what it gave before for any other.
  pub get-set :
      (key j value : Bytes) (d : List Entry)
      → IsDictionary key_size value_size d
      → IsKey key_size key
      → IsKey key_size j
      → NulFree value
      → get_value_for_key key_size
          (some j)
          (set_key_value key_size value_size (some key) (some value) d)
        ≡ (if key =b j
            then (if has_room key d then some (take (value_size - 1) value) else none)
            else get_value_for_key key_size (some j) d)
  get-set key j value d w k n h =
      rw
        (
          get-eq-first_value j d n w,
          get-eq-first_value j _ n
              (set_key_value-IsDictionary key_size value_size (some key) (some value) d w),
          set-eq-stored key value d k w,
        )
        (first_value-stored key j value d w k n h)

first_byte-replicate : (k : ℕ) → (get_or (replicate k 0) 0 0 == 0) ≡ true
first_byte-replicate zero = refl
first_byte-replicate (suc k) = refl

-- A new dictionary with entries has room for every key.
pub has_room-new : (k v n : ℕ) (key : Bytes) → 0 < n → has_room key (new k v n) ≡ true
unfolding new is_active
has_room-new k v zero key h = absurd (omega (arith, h))
has_room-new k v (suc n) key h = ground (arith, first_byte-replicate k)
