-- ===== src/Dictionary/Writes.antt =====
-- Any number of writes to the dictionary, one after the other.
use crashkit.Prelude.{
  ℕ, suc, ◌+◌, ◌-◌, ◌≤◌, ◌≡◌, refl, ◌∙◌, Bool, Option, none, some, List, [], ◌∷◌, arith, true,
  if◌then◌else◌, length, take, All,
}
use crashkit.Prelude.Bytes.{Bytes, NulFree, ◌=b◌}
use crashkit.Dictionary.{Entry, write_key, write_value, get_value_for_key, get_count, set_key_value}
use crashkit.Dictionary.Entries.{IsKey}
use crashkit.Dictionary.Shape.{IsDictionary, set_key_value-IsDictionary, length-set_key_value}
use crashkit.Dictionary.Slots.{named, inactive, update}
use crashkit.Dictionary.Laws.{get-set, has_room, set-eq-stored}
use crashkit.Dictionary.Count.{actives, get_count-eq, get_count_bounds}

-- The value of the last write under a key.
abbrev pub last_value : Bytes → List (Bytes × Bytes) → Option Bytes
last_value key [] = none
last_value key ((j, value) ∷ ws) =
    let later = last_value key ws in
    elim later [ none ↦ if j =b key then some value else none | some w ↦ some w ]

-- The first bytes of a value that was written, or else what there was before.
abbrev pub written_or : ℕ → Option Bytes → Option Bytes → Option Bytes
written_or n none before = before
written_or n (some value) before = some (take n value)

length-actives-update-le :
    (p : Entry → Bool) (f : Entry → Entry) (d : List Entry)
    → length (actives (update p f d)) ≤ suc (length (actives d))
unfolding actives
length-actives-update-le p f [] = omega arith
length-actives-update-le p f (e ∷ d) = ground (arith, length-actives-update-le p f d)

module _ (k v : ℕ) where
  abbrev pub IsWrite : Bytes × Bytes → Type 0
  IsWrite (key, value) = IsKey k key × NulFree value

  -- The writes, the first one first.
  pub set_all : List (Bytes × Bytes) → List Entry → List Entry
  set_all [] d = d
  set_all ((key, value) ∷ ws) d = set_all ws (set_key_value k v (some key) (some value) d)

  -- A write takes at most one more entry.
  get_count-set-le :
      (key value : Bytes) (d : List Entry)
      → IsKey k key
      → IsDictionary k v d
      → get_count (set_key_value k v (some key) (some value) d) ≤ suc (get_count d)
  get_count-set-le key value d h w = rw (set-eq-stored k v key value d h w) (
      ground (
        arith,
        get_count-eq d,
        get_count-eq (update (named key) (write_value v value) d),
        get_count-eq (update inactive (λ e. write_value v value (write_key k key e)) d),
        length-actives-update-le (named key) (write_value v value) d,
        length-actives-update-le inactive (λ e. write_value v value (write_key k key e)) d,
      ))

  room_below : (key : Bytes) (d : List Entry) → suc (get_count d) ≤ length d → has_room key d ≡ true
  room_below key d h = ground (arith, h, get_count_bounds d)

  then_before :
      (later before : Option Bytes) (same : Bool) (value : Bytes) (read : Option Bytes)
      → read ≡ (if same then some (take (v - 1) value) else before)
      → written_or (v - 1) later read
        ≡ written_or
            (v - 1)
            (elim later [ none ↦ if same then some value else none | some x ↦ some x ])
            before
  then_before none before same value read h = ground (arith, h)
  then_before (some x) before same value read h = refl

  -- After any writes with accepted keys and values without NUL, on entries that are C strings and
  -- of which at least as many are free as there are writes, a key reads as the first bytes of its
  -- last written value, as many as fit, and as before if it was not written: no write is lost.
  pub get-set_all :
      (ws : List (Bytes × Bytes)) (key : Bytes) (d : List Entry)
      → IsDictionary k v d
      → All IsWrite ws
      → IsKey k key
      → get_count d + length ws ≤ length d
      → get_value_for_key k (some key) (set_all ws d)
        ≡ written_or (v - 1) (last_value key ws) (get_value_for_key k (some key) d)
  unfolding set_all
  get-set_all [] key d w h n l = refl
  get-set_all ((j, value) ∷ ws) key d w ((a, b), h) n l =
      let d' = set_key_value k v (some j) (some value) d in
      let room = room_below j d (omega (arith, l)) in
      get-set_all ws key d' (set_key_value-IsDictionary k v (some j) (some value) d w) h n (
        omega (
          arith,
          l,
          get_count-set-le j value d a w,
          length-set_key_value k v (some j) (some value) d,
        ))
      ∙ then_before (last_value key ws) (get_value_for_key k (some key) d) (j =b key) value
          (get_value_for_key k (some key) d') (get-set k v j key value d w a n b ∙ (rw room refl))
