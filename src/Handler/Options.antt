-- ===== src/Handler/Options.antt =====
-- The set of keys that the handler reads from the arguments that the bridge builds.
use crashkit.Prelude.{
  ◌≡◌, refl, ap, ◌∙◌, Bool, ◌||◌, Option, none, some, List, [], ◌∷◌, ◌++◌, arith, inl, inr,
  Bool-cases,
}
use crashkit.Prelude.Bytes.{Bytes, codes, ◌=b◌, =b_iff}
use crashkit.StdMap.{StdMap, keys, elem}
use crashkit.Bridge.{JString, allow, passthrough, build_arguments}
use crashkit.Bridge.Arguments.{texts, IsReader, build_arguments-reads}
use crashkit.Handler.{insert, allow_optarg, read_option, read_options}

-- How `getopt_long` reads the arguments of the bridge: an `--allow-annotation=KEY` has the value
-- KEY, and `--no-rate-limit` is another option.
pub record IsGetopt (getopt_long : Bytes → Option Bytes) : Type 0 where
  pub allowed : (key : Bytes) → getopt_long (allow key) ≡ some key
  pub rate : getopt_long (codes "--no-rate-limit") ≡ none

read_options-append :
    (getopt_long : Bytes → Option Bytes) (set xs ys : List Bytes)
    → read_options getopt_long set (xs ++ ys)
      ≡ read_options getopt_long (read_options getopt_long set xs) ys
unfolding read_options
read_options-append getopt_long set [] ys = refl
read_options-append getopt_long set (x ∷ xs) ys =
    read_options-append getopt_long (read_option getopt_long set x) xs ys

elem-insert : (k j : Bytes) (set : List Bytes) → elem k (insert j set) ≡ elem k set || k =b j
elem-insert k j set = elim (Bool-cases (k =b j)) [
  | inl e ↦ ground (arith, =b_iff k j, e)
  | inr e ↦ ground (arith, e)
]

read_options_allowed :
    (getopt_long : Bytes → Option Bytes) (set : List Bytes) (argument k : Bytes)
    → getopt_long argument ≡ some k
    → read_options getopt_long set (argument ∷ []) ≡ insert k set
unfolding read_options
read_options_allowed getopt_long set argument k h = ap (λ o. allow_optarg o set) h

read_options_other :
    (getopt_long : Bytes → Option Bytes) (set : List Bytes) (argument : Bytes)
    → getopt_long argument ≡ none
    → read_options getopt_long set (argument ∷ []) ≡ set
unfolding read_options
read_options_other getopt_long set argument h = ap (λ o. allow_optarg o set) h

handler-IsReader :
    (getopt_long : Bytes → Option Bytes) (k : Bytes)
    → IsGetopt getopt_long
    → IsReader (λ arguments. elem k (read_options getopt_long [] arguments)) k
handler-IsReader getopt_long k w = record {
  step = λ arguments j.
      let set = read_options getopt_long [] arguments in
      ap (elem k) (
        read_options-append getopt_long [] arguments (allow j ∷ [])
        ∙ read_options_allowed getopt_long set (allow j) j (w.allowed j))
      ∙ elem-insert k j set;
  nothing = unfold read_options in refl;
  rate = ap (elem k) (read_options_other getopt_long [] _ w.rate);
}

-- The set that the handler reads from the arguments that the bridge built holds exactly the keys of
-- the annotations, `ptype` and `osarch`, and the dynamic keys.
pub read_options-build_arguments :
    (getopt_long : Bytes → Option Bytes) (no_rate_limit : Bool) (annotations : StdMap)
    (dynamic : List JString) (arguments : List Bytes) (k : Bytes)
    → IsGetopt getopt_long
    → build_arguments no_rate_limit annotations dynamic ≡ some arguments
    → elem k (read_options getopt_long [] arguments)
      ≡ (elem k (keys annotations) || elem k passthrough) || elem k (texts dynamic)
read_options-build_arguments getopt_long b m dynamic arguments k w h =
    build_arguments-reads (λ a. elem k (read_options getopt_long [] a)) k b m dynamic arguments
      (handler-IsReader getopt_long k w) h
