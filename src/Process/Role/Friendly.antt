-- ===== src/Process/Role/Friendly.antt =====
-- Which bytes a role holds, and the roles that come back unchanged.
use crashkit.Prelude.{
  ℕ, ◌≤◌, ◌⊎◌, ◌↔◌, ◌≡◌, refl, subst, ◌≢◌, true, false, none, some, [], ◌∷◌, ◌++◌, map, arith, All,
}
use crashkit.Prelude.Bytes.{Bytes}
use crashkit.Process.{is_space, is_friendly, sanitize, main_role, process_role_from_name}
use crashkit.Process.Role.{
  after, drop_while, drop_end, trim, role_or_main, role_spec, process_role_from_name-eq-role_spec,
}

-- A byte of [a-zA-Z0-9_.-], by its code.
abbrev pub IsFriendly : ℕ → Type 0
IsFriendly c =
    ((97 ≤ c) × (c ≤ 122))
    ⊎ ((65 ≤ c) × (c ≤ 90))
    ⊎ ((48 ≤ c) × (c ≤ 57))
    ⊎ (c ≡ 95)
    ⊎ (c ≡ 45)
    ⊎ (c ≡ 46)

is_friendly-IsFriendly : (c : ℕ) → IsFriendly c → is_friendly c ≡ true
is_friendly-IsFriendly c h = ground (arith, h)

sanitize-IsFriendly : (c : ℕ) → IsFriendly (sanitize c)
unfolding sanitize
sanitize-IsFriendly c = ground arith

map-sanitize-IsFriendly : (s : Bytes) → All IsFriendly (map sanitize s)
map-sanitize-IsFriendly [] = tt
map-sanitize-IsFriendly (c ∷ s) = (sanitize-IsFriendly c, map-sanitize-IsFriendly s)

abbrev pub IsRole : Bytes → Type 0
IsRole r = (r ≢ []) × All IsFriendly r

role_or_main-IsRole : (s : Bytes) → IsRole (role_or_main s)
unfolding sanitize
role_or_main-IsRole [] = (ground arith, map-sanitize-IsFriendly main_role)
role_or_main-IsRole (c ∷ s) = (ground arith, map-sanitize-IsFriendly (c ∷ s))

role_spec-IsRole : (name : Bytes) → IsRole (role_spec name)
unfolding role_spec
role_spec-IsRole name =
    elim (after b':' name)
      as (λ o. IsRole (elim o [ none ↦ main_role | some s ↦ role_or_main (trim s) ])) [
        | none ↦ role_or_main-IsRole []
        | some s ↦ role_or_main-IsRole (trim s)
      ]

after-append : (c : ℕ) (a s : Bytes) → All (λ b. b ≢ c) a → after c (a ++ c ∷ s) ≡ some s
unfolding after
after-append c [] s h = ground arith
after-append c (b ∷ a) s h = ground (arith, after-append c a s h.1)

not_space : (c : ℕ) → IsFriendly c → is_space c ≡ false
not_space c h = ground (arith, h)

sanitize_of_IsFriendly : (c : ℕ) → IsFriendly c → sanitize c ≡ c
unfolding sanitize
sanitize_of_IsFriendly c h = rw (is_friendly-IsFriendly c h) refl

map-sanitize_of_IsFriendly : (s : Bytes) → All IsFriendly s → map sanitize s ≡ s
map-sanitize_of_IsFriendly [] h = refl
map-sanitize_of_IsFriendly (c ∷ s) (p, h) =
    cc (sanitize_of_IsFriendly c p, map-sanitize_of_IsFriendly s h)

drop_while_of_IsFriendly : (s : Bytes) → All IsFriendly s → drop_while is_space s ≡ s
unfolding drop_while
drop_while_of_IsFriendly [] h = refl
drop_while_of_IsFriendly (c ∷ s) h = rw (not_space c h.0)

drop_end_of_IsFriendly : (s : Bytes) → All IsFriendly s → drop_end is_space s ≡ s
unfolding drop_end
drop_end_of_IsFriendly [] h = refl
drop_end_of_IsFriendly (c ∷ []) h = rw (not_space c h.0)
drop_end_of_IsFriendly (c ∷ d ∷ s) h = rw (drop_end_of_IsFriendly (d ∷ s) h.1, drop_end)

-- A process named `app:suffix`, with no colon in `app` and a suffix that is not empty and holds
-- only bytes of [a-zA-Z0-9_.-], has exactly the suffix as its role.
pub role-append :
    (app : Bytes) (c : ℕ) (s : Bytes)
    → All (λ b. b ≢ b':') app
    → All IsFriendly (c ∷ s)
    → process_role_from_name (app ++ b':' ∷ c ∷ s) ≡ c ∷ s
unfolding role_spec trim
role-append app c s h k =
    rw (process_role_from_name-eq-role_spec, role_spec, after-append b':' app (c ∷ s) h)
      (rw (trim, drop_while_of_IsFriendly (c ∷ s) k, drop_end_of_IsFriendly (c ∷ s) k)
        (map-sanitize_of_IsFriendly (c ∷ s) k))

-- The roles that process names can have are exactly the strings that are not empty and hold only
-- bytes of [a-zA-Z0-9_.-].
pub process_role_from_name_iff :
    (r : Bytes) → IsRole r ↔ ((name : Bytes) × (process_role_from_name name ≡ r))
process_role_from_name_iff r = (
  has_name r,
  λ (name, e). subst IsRole e (rw process_role_from_name-eq-role_spec (role_spec-IsRole name)),
)
  where
    has_name : (r : Bytes) → IsRole r → (name : Bytes) × (process_role_from_name name ≡ r)
    has_name [] (p, h) = elim (p refl) [ ]
    has_name (c ∷ s) (p, h) = (b':' ∷ c ∷ s, role-append [] c s tt h)
