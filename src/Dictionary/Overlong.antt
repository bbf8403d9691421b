-- ===== src/Dictionary/Overlong.antt =====
-- Keys of `KeySize` bytes or more: no entry ever compares equal to one, so each write takes a new
-- entry and stores a cut key in it.
use crashkit.Prelude.{
  ℕ, zero, suc, ◌+◌, ◌-◌, ◌≤◌, ◌<◌, ◌≡◌, ◌≢◌, refl, ◌∙◌, Bool, true, false, none, some, List, [],
  ◌∷◌, arith, ◌==◌, if◌then◌else◌, length, take, find_index, inl, inr, Option-cases,
}
use crashkit.Prelude.Bytes.{Bytes, NulFree, until_nul, =b_iff}
use crashkit.Dictionary.{
  Entry, is_active, entry_key_equals, get_entry_for_key, get_value_for_key, get_count, write_key,
  write_value, store_at, insert_at, set_key_value,
}
use crashkit.Dictionary.Entries.{IsKey, inactive_iff, until_nul-write_key}
use crashkit.Dictionary.Shape.{IsDictionary, set_key_value-IsDictionary}
use crashkit.Dictionary.Slots.{
  named, inactive, any, update, modify-eq-update, any_of_find_index, not_any_of_find_index,
  modify-modify,
}
use crashkit.Dictionary.Laws.{get-set, has_room, not_any_of_get}
use crashkit.Dictionary.Count.{actives, get_count-eq, get_count_bounds}
use crashkit.Dictionary.Distinct.{key-write_value}

-- A key without NUL that is too long for the buffer.
pub record IsOverlong (key_size : ℕ) (key : Bytes) : Type 0 where
  pub room : 2 ≤ key_size
  pub nul_free : NulFree key
  pub too_long : key_size ≤ length key

take-ne-nil : (n : ℕ) (s : Bytes) → 0 < n → 0 < length s → take n s ≢ []
take-ne-nil zero s h l = absurd (omega arith)
take-ne-nil (suc n) [] h l = absurd (omega arith)
take-ne-nil (suc n) (b ∷ s) h l = ground arith

module _ (k v : ℕ) where
  filled : Bytes → Bytes → Entry → Entry
  filled key value e = write_value v value (write_key k key e)

  find-overlong : (key : Bytes) (d : List Entry) → k ≤ length key → get_entry_for_key k key d ≡ none
  unfolding get_entry_for_key entry_key_equals
  find-overlong key [] h = refl
  find-overlong key (e ∷ d) h = ground (arith, find-overlong key d h)

  set-overlong :
      (key value : Bytes) (d : List Entry)
      → IsOverlong k key
      → set_key_value k v (some key) (some value) d
        ≡ (if any inactive d then update inactive (filled key value) d else d)
  unfolding set_key_value store_at insert_at filled
  set-overlong [] value d h = absurd (omega (arith, h.room, h.too_long))
  set-overlong (b ∷ key) value d h =
      let e : (b == 0) ≡ false = ground (arith, h.nul_free.0) in
      rw (e, find-overlong (b ∷ key) d h.too_long)
        (elim (Option-cases (find_index inactive d)) [
          | inl f ↦ rw (f, not_any_of_find_index inactive d f)
          | inr (i, f) ↦
              rw (f, any_of_find_index inactive d i f)
                (modify-modify d i (write_key k (b ∷ key)) (write_value v value)
                  ∙ modify-eq-update inactive (filled (b ∷ key) value) d i f)
        ])

  cut-ne-nil : (key : Bytes) → IsOverlong k key → take (k - 1) key ≢ []
  cut-ne-nil key h =
      take-ne-nil (k - 1) key (omega (arith, h.room)) (omega (arith, h.room, h.too_long))

  key-filled :
      (key value : Bytes) (e : Entry)
      → IsOverlong k key
      → until_nul (filled key value e).key ≡ take (k - 1) key
  unfolding filled
  key-filled key value e h =
      key-write_value v value (write_key k key e)
      ∙ until_nul-write_key key e (omega (arith, h.room)) h.nul_free

  filled-active :
      (key value : Bytes) (e : Entry) → IsOverlong k key → is_active (filled key value e) ≡ true
  filled-active key value e h = ground (
    arith,
    inactive_iff (filled key value e),
    key-filled key value e h,
    =b_iff (until_nul (filled key value e).key) [],
    cut-ne-nil key h,
  )

  length-actives-update :
      (key value : Bytes) (d : List Entry)
      → IsOverlong k key
      → any inactive d ≡ true
      → length (actives (update inactive (filled key value) d)) ≡ suc (length (actives d))
  unfolding actives
  length-actives-update key value [] h f = cc
  length-actives-update key value (e ∷ d) h f =
      ground (arith, filled-active key value e h, length-actives-update key value d h)

  length-update :
      (p : Entry → Bool) (f : Entry → Entry) (d : List Entry) → length (update p f d) ≡ length d
  length-update p f [] = refl
  length-update p f (e ∷ d) = ground (arith, length-update p f d)

  -- Each write under a key that is too long takes one more entry, also when the same key was
  -- written before, until none is free; it never updates an entry.
  pub get_count-set_overlong :
      (key value : Bytes) (d : List Entry)
      → IsOverlong k key
      → get_count (set_key_value k v (some key) (some value) d)
        ≡ (if any inactive d then suc (get_count d) else get_count d)
  get_count-set_overlong key value d h = rw (set-overlong key value d h) (
      ground (
        arith,
        get_count-eq d,
        get_count-eq (update inactive (filled key value) d),
        length-actives-update key value d h,
      ))

  -- `n` writes, one after the other
  pub set_repeatedly : ℕ → Bytes → Bytes → List Entry → List Entry
  set_repeatedly zero key value d = d
  set_repeatedly (suc n) key value d =
      set_repeatedly n key value (set_key_value k v (some key) (some value) d)

  length-set_overlong :
      (key value : Bytes) (d : List Entry)
      → IsOverlong k key
      → length (set_key_value k v (some key) (some value) d) ≡ length d
  length-set_overlong key value d h =
      rw (set-overlong key value d h) (ground (arith, length-update inactive (filled key value) d))

  any-filled :
      (key value j : Bytes) (d : List Entry)
      → IsOverlong k key
      → j ≢ take (k - 1) key
      → any (named j) d ≡ false
      → any (named j) (update inactive (filled key value) d) ≡ false
  any-filled key value j [] h n f = refl
  any-filled key value j (e ∷ d) h n f = ground (
    arith,
    key-filled key value e h,
    =b_iff j (until_nul (filled key value e).key),
    any-filled key value j d h n,
  )

  any-set_overlong :
      (key value j : Bytes) (d : List Entry)
      → IsOverlong k key
      → j ≢ take (k - 1) key
      → any (named j) d ≡ false
      → any (named j) (set_key_value k v (some key) (some value) d) ≡ false
  any-set_overlong key value j d h n f =
      rw (set-overlong key value d h) (ground (arith, any-filled key value j d h n f))

  -- After at least as many such writes as there are free entries, no entry is free.
  no_room :
      (n : ℕ) (key value j : Bytes) (d : List Entry)
      → IsOverlong k key
      → j ≢ take (k - 1) key
      → any (named j) d ≡ false
      → length d ≤ get_count d + n
      → has_room j (set_repeatedly n key value d) ≡ false
  unfolding set_repeatedly
  no_room zero key value j d h m f l = ground (arith, get_count_bounds d)
  no_room (suc n) key value j d h m f l =
      no_room n key value j (set_key_value k v (some key) (some value) d) h m
        (any-set_overlong key value j d h m f)
        (ground (
          arith,
          get_count-set_overlong key value d h,
          length-set_overlong key value d h,
          get_count_bounds d,
        ))

  set_repeatedly-IsDictionary :
      (n : ℕ) (key value : Bytes) (d : List Entry)
      → IsDictionary k v d
      → IsDictionary k v (set_repeatedly n key value d)
  unfolding set_repeatedly
  set_repeatedly-IsDictionary zero key value d w = w
  set_repeatedly-IsDictionary (suc n) key value d w =
      set_repeatedly-IsDictionary n key value _
        (set_key_value-IsDictionary k v (some key) (some value) d w)

  -- Once a key that is too long has been written at least as many times as there were free
  -- entries, no accepted key that had no value can be given one, but for the cut key itself: a
  -- write of it is lost.
  pub overlong_exhausts :
      (n : ℕ) (key value j w : Bytes) (d : List Entry)
      → IsDictionary k v d
      → IsOverlong k key
      → IsKey k j
      → NulFree w
      → j ≢ take (k - 1) key
      → get_value_for_key k (some j) d ≡ none
      → length d ≤ get_count d + n
      → get_value_for_key k
          (some j)
          (set_key_value k v (some j) (some w) (set_repeatedly n key value d))
        ≡ none
  overlong_exhausts n key value j w d good h a f m g l =
      rw (get-set k v j j w _ (set_repeatedly-IsDictionary n key value d good) a a f) (
        ground (arith, =b_iff j j, no_room n key value j d h m (not_any_of_get k v j d good a g) l))
