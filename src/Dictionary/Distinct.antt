-- ===== src/Dictionary/Distinct.antt =====
-- No two entries in use have the same key: kept by every write and removal of an accepted key, and
-- what makes a removal complete.
use crashkit.Prelude.{
  ℕ, ◌≡◌, ◌≢◌, refl, Bool, true, false, ◌||◌, none, some, List, [], ◌∷◌, arith, if◌then◌else◌,
  find_index, inl, inr, Option-cases,
}
use crashkit.Prelude.Bytes.{Bytes, until_nul, ◌=b◌, =b_iff}
use crashkit.Dictionary.{
  Entry, is_active, get_value_for_key, set_key_value, remove_key, remove_at, clear_entry, write_key,
  write_value,
}
use crashkit.Dictionary.Entries.{IsKey, key-write_key, inactive_iff, until_nul-set_zero}
use crashkit.Dictionary.Shape.{IsDictionary, remove_key-IsDictionary}
use crashkit.Dictionary.Slots.{
  named, inactive, any, update, first_value, modify-eq-update, any_of_find_index,
  not_any_of_find_index,
}
use crashkit.Dictionary.Laws.{
  get_entry_for_key-eq, get-eq-first_value, set-eq-stored, named-write_value, first_value-not_any,
}

abbrev pub IsDistinct : List Entry → Type 0
IsDistinct [] = Unit
IsDistinct (e ∷ d) = (is_active e ≡ true → any (named (until_nul e.key)) d ≡ false) × IsDistinct d

key-clear_entry : (e : Entry) → until_nul (clear_entry e).key ≡ []
unfolding clear_entry
key-clear_entry e = until_nul-set_zero e.key

active-write_value : (n : ℕ) (v : Bytes) (e : Entry) → is_active (write_value n v e) ≡ is_active e
unfolding write_value is_active
active-write_value n v e = refl

pub key-write_value :
    (n : ℕ) (v : Bytes) (e : Entry) → until_nul (write_value n v e).key ≡ until_nul e.key
unfolding write_value
key-write_value n v e = refl

any-update_value :
    (p : Entry → Bool) (n : ℕ) (j v : Bytes) (d : List Entry)
    → any (named j) (update p (write_value n v) d) ≡ any (named j) d
any-update_value p n j v [] = refl
any-update_value p n j v (e ∷ d) =
    ground (arith, named-write_value n j v e, any-update_value p n j v d)

IsDistinct-update_value :
    (p : Entry → Bool) (n : ℕ) (v : Bytes) (d : List Entry)
    → IsDistinct d
    → IsDistinct (update p (write_value n v) d)
IsDistinct-update_value p n v [] h = tt
IsDistinct-update_value p n v (e ∷ d) h = ground (
  arith,
  active-write_value n v e,
  key-write_value n v e,
  any-update_value p n (until_nul e.key) v d,
  IsDistinct-update_value p n v d h.1,
)

any-update_clear :
    (p : Entry → Bool) (j : Bytes) (d : List Entry)
    → any (named j) d ≡ false
    → j ≢ []
    → any (named j) (update p clear_entry d) ≡ false
any-update_clear p j [] h n = refl
any-update_clear p j (e ∷ d) h n =
    ground
      (arith, key-clear_entry e, =b_iff j (until_nul (clear_entry e).key), any-update_clear p j d)

IsDistinct-update_clear :
    (p : Entry → Bool) (d : List Entry) → IsDistinct d → IsDistinct (update p clear_entry d)
IsDistinct-update_clear p [] h = tt
IsDistinct-update_clear p (e ∷ d) h = ground (
  arith,
  key-clear_entry e,
  inactive_iff (clear_entry e),
  inactive_iff e,
  =b_iff (until_nul (clear_entry e).key) [],
  =b_iff (until_nul e.key) [],
  any-update_clear p (until_nul e.key) d,
  IsDistinct-update_clear p d h.1,
)

first_value-update_clear :
    (key j : Bytes) (d : List Entry)
    → IsDistinct d
    → key ≢ []
    → j ≢ []
    → any (named key) d ≡ true
    → first_value j (update (named key) clear_entry d)
      ≡ (if key =b j then none else first_value j d)
first_value-update_clear key j [] h m n k = cc
first_value-update_clear key j (e ∷ d) h m n k = ground (
  arith,
  key-clear_entry e,
  =b_iff j (until_nul (clear_entry e).key),
  =b_iff key j,
  =b_iff key (until_nul e.key),
  =b_iff j (until_nul e.key),
  inactive_iff e,
  =b_iff (until_nul e.key) [],
  first_value-not_any j d,
  first_value-update_clear key j d h.1 m n,
)

-- Filling the first free entry with a key adds that name and no other.
any-update-inactive :
    (k v : ℕ) (key j value : Bytes) (d : List Entry)
    → IsKey k key
    → j ≢ []
    → any (named key) d ≡ false
    → any inactive d ≡ true
    → any (named j) (update inactive (λ e. write_value v value (write_key k key e)) d)
      ≡ any (named j) d || j =b key
any-update-inactive k v key j value [] w n h f = cc
any-update-inactive k v key j value (e ∷ d) w n h f = ground (
  arith,
  named-write_value v j value (write_key k key e),
  key-write_key key e w,
  inactive_iff e,
  =b_iff (until_nul e.key) [],
  =b_iff j (until_nul e.key),
  =b_iff j key,
  any-update-inactive k v key j value d w n,
)

IsDistinct-update-inactive :
    (k v : ℕ) (key value : Bytes) (d : List Entry)
    → IsKey k key
    → any (named key) d ≡ false
    → any inactive d ≡ true
    → IsDistinct d
    → IsDistinct (update inactive (λ e. write_value v value (write_key k key e)) d)
IsDistinct-update-inactive k v key value [] w h f g = tt
IsDistinct-update-inactive k v key value (e ∷ d) w h f g = ground (
  arith,
  key-write_value v value (write_key k key e),
  key-write_key key e w,
  inactive_iff e,
  =b_iff key (until_nul e.key),
  =b_iff (until_nul e.key) [],
  =b_iff (until_nul e.key) key,
  any-update-inactive k v key (until_nul e.key) value d w,
  IsDistinct-update-inactive k v key value d w,
)

-- Writing an accepted key keeps the keys in use distinct.
pub set-IsDistinct :
    (k v : ℕ) (key value : Bytes) (d : List Entry)
    → IsDictionary k v d
    → IsKey k key
    → IsDistinct d
    → IsDistinct (set_key_value k v (some key) (some value) d)
set-IsDistinct k v key value d w a h = rw (set-eq-stored k v key value d a w) (
    ground (
      arith,
      IsDistinct-update_value (named key) v value d h,
      IsDistinct-update-inactive k v key value d a,
    ))

removed : Bytes → List Entry → List Entry
removed key d = if any (named key) d then update (named key) clear_entry d else d

remove-eq-removed :
    (k v : ℕ) (key : Bytes) (d : List Entry)
    → IsDictionary k v d
    → IsKey k key
    → remove_key k (some key) d ≡ removed key d
unfolding remove_key removed remove_at
remove-eq-removed k v [] d w a = absurd (a.nonempty refl)
remove-eq-removed k v (b ∷ key) d w a =
    rw (get_entry_for_key-eq k v (b ∷ key) d a w)
      (elim (Option-cases (find_index (named (b ∷ key)) d)) [
        | inl e ↦ rw (e, not_any_of_find_index (named (b ∷ key)) d e)
        | inr (i, e) ↦
            rw (e, any_of_find_index (named (b ∷ key)) d i e)
              (modify-eq-update (named (b ∷ key)) clear_entry d i e)
      ])

first_value-removed :
    (key j : Bytes) (d : List Entry)
    → IsDistinct d
    → key ≢ []
    → j ≢ []
    → first_value j (removed key d) ≡ (if key =b j then none else first_value j d)
unfolding removed
first_value-removed key j d h m n =
    ground (arith, first_value-update_clear key j d h m n, first_value-not_any key d, =b_iff key j)

-- With distinct keys, a removed accepted key is no longer found, every other accepted key reads as
-- before, and the keys stay distinct.
pub get-remove :
    (k v : ℕ) (key j : Bytes) (d : List Entry)
    → IsDictionary k v d
    → IsDistinct d
    → IsKey k key
    → IsKey k j
    → (get_value_for_key k (some j) (remove_key k (some key) d)
        ≡ (if key =b j then none else get_value_for_key k (some j) d))
      × IsDistinct (remove_key k (some key) d)
get-remove k v key j d w h a b = (
  rw
      (
        get-eq-first_value k v j d b w,
        get-eq-first_value k v j _ b (remove_key-IsDictionary k v (some key) d w),
        remove-eq-removed k v key d w a,
      )
      (first_value-removed key j d h a.nonempty b.nonempty),
  rw (remove-eq-removed k v key d w a)
      (unfold removed in ground (arith, IsDistinct-update_clear (named key) d h)),
)
