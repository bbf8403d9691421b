-- ===== src/Dictionary/Tests.antt =====
-- Tests and instances for the dictionary, on one of four entries with buffers of four bytes.
use crashkit.Prelude.{
  ◌+◌, ◌≤◌, length, ℕ, ◌≡◌, ◌≢◌, refl, none, some, List, [], ◌∷◌, arith, if◌then◌else◌, take,
}
use crashkit.Prelude.Bytes.{Bytes, codes, until_nul, is_nul_free→NulFree, ◌=b◌}
use crashkit.Dictionary.{
  Entry, is_active, new, get_count, get_value_for_key, set_key_value, remove_key,
}
use crashkit.Dictionary.Entries.{IsKey}
use crashkit.Dictionary.Shape.{IsDictionary, new-IsDictionary, set_key_value-IsDictionary}
use crashkit.Dictionary.Laws.{has_room, get-set}
use crashkit.Dictionary.Distinct.{IsDistinct, set-IsDistinct, get-remove}
use crashkit.Dictionary.Writes.{last_value, written_or, set_all, get-set_all}
use crashkit.Dictionary.Overlong.{IsOverlong, set_repeatedly, overlong_exhausts}

abbrev empty : List Entry
empty = new 4 4 4

abbrev write : Bytes → Bytes → List Entry → List Entry
write key value d = set_key_value 4 4 (some key) (some value) d

abbrev two : List Entry
two = write (codes "b") (codes "long value") (write (codes "a") (codes "1") empty)

reads_cut_value : get_value_for_key 4 (some (codes "b")) two ≡ some (codes "lon")
unfolding get_value_for_key set_key_value new until_nul
reads_cut_value = refl

reads_overwritten :
    get_value_for_key 4 (some (codes "a")) (write (codes "a") (codes "2") two) ≡ some (codes "2")
unfolding get_value_for_key set_key_value new until_nul
reads_overwritten = refl

removes : get_value_for_key 4 (some (codes "a")) (remove_key 4 (some (codes "a")) two) ≡ none
unfolding get_value_for_key set_key_value new remove_key until_nul
removes = refl

counts : get_count two ≡ 2
unfolding get_count set_key_value new
counts = refl

empty-IsDictionary : IsDictionary 4 4 empty
empty-IsDictionary = new-IsDictionary 4 4 4 (omega arith) (omega arith)

two-IsDictionary : IsDictionary 4 4 two
two-IsDictionary =
    set_key_value-IsDictionary 4 4 (some (codes "b")) (some (codes "long value")) _ (
      set_key_value-IsDictionary 4 4 (some (codes "a")) (some (codes "1")) empty empty-IsDictionary)

is_key : (b : ℕ) → b ≢ 0 → IsKey 4 (b ∷ [])
is_key b h = record { nonempty = ground arith; nul_free = (h, tt); fits = omega arith }

a-IsKey : IsKey 4 (codes "a")
a-IsKey = is_key b'a' (ground arith)

b-IsKey : IsKey 4 (codes "b")
b-IsKey = is_key b'b' (ground arith)

empty-IsDistinct : IsDistinct empty
unfolding new is_active
empty-IsDistinct = (λ h. cc, (λ h. cc, (λ h. cc, (λ h. cc, tt))))

two-IsDistinct : IsDistinct two
two-IsDistinct =
    set-IsDistinct 4 4 (codes "b") (codes "long value") _
      (set_key_value-IsDictionary 4 4 (some (codes "a")) (some (codes "1")) empty
        empty-IsDictionary)
      b-IsKey
      (set-IsDistinct 4 4 (codes "a") (codes "1") empty empty-IsDictionary a-IsKey empty-IsDistinct)

get-set_example : get_value_for_key 4 (some (codes "a")) (write (codes "b") (codes "new") two) ≡ (
    if codes "b" =b codes "a"
    then (if has_room (codes "b") two then some (take 3 (codes "new")) else none)
    else get_value_for_key 4 (some (codes "a")) two)
get-set_example =
    get-set 4 4 (codes "b") (codes "a") (codes "new") two two-IsDictionary b-IsKey a-IsKey
      (is_nul_free→NulFree (codes "new") refl)

get-remove_example :
    (get_value_for_key 4 (some (codes "b")) (remove_key 4 (some (codes "a")) two)
      ≡ (if codes "a" =b codes "b" then none else get_value_for_key 4 (some (codes "b")) two))
    × IsDistinct (remove_key 4 (some (codes "a")) two)
get-remove_example =
    get-remove 4 4 (codes "a") (codes "b") two two-IsDictionary two-IsDistinct a-IsKey b-IsKey

set-IsDistinct_example : IsDistinct (write (codes "a") (codes "2") two)
set-IsDistinct_example =
    set-IsDistinct 4 4 (codes "a") (codes "2") two two-IsDictionary a-IsKey two-IsDistinct

set_key_value_example : IsDictionary 4 4 (write (codes "too long") (codes "too long") two)
set_key_value_example =
    set_key_value-IsDictionary 4 4 (some (codes "too long")) (some (codes "too long")) two
      two-IsDictionary

long-IsOverlong : IsOverlong 4 (codes "long key")
long-IsOverlong = record {
  room = omega arith;
  nul_free = is_nul_free→NulFree (codes "long key") refl;
  too_long = omega arith;
}

overlong_exhausts_example :
    get_value_for_key 4
      (some (codes "a"))
      (write (codes "a") (codes "1") (set_repeatedly 4 4 4 (codes "long key") (codes "v") empty))
    ≡ none
unfolding get_value_for_key new get_count
overlong_exhausts_example =
    overlong_exhausts 4 4 4 (codes "long key") (codes "v") (codes "a") (codes "1") empty
      empty-IsDictionary long-IsOverlong a-IsKey (is_nul_free→NulFree (codes "1") refl)
      (ground arith) refl (omega arith)

abbrev writes : List (Bytes × Bytes)
writes = (codes "a", codes "1") ∷ (codes "b", codes "long value") ∷ (codes "a", codes "2") ∷ []

empty_counts : get_count empty + length writes ≤ length empty
unfolding get_count new is_active
empty_counts = omega arith

get-set_all_example :
    get_value_for_key 4 (some (codes "a")) (set_all 4 4 writes empty)
    ≡ written_or 3 (last_value (codes "a") writes) (get_value_for_key 4 (some (codes "a")) empty)
get-set_all_example =
    get-set_all 4 4 writes (codes "a") empty empty-IsDictionary
      (
        (a-IsKey, is_nul_free→NulFree (codes "1") refl),
        (
          (b-IsKey, is_nul_free→NulFree (codes "long value") refl),
          ((a-IsKey, is_nul_free→NulFree (codes "2") refl), tt),
        ),
      )
      a-IsKey empty_counts
