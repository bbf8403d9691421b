-- ===== src/Bridge/Arguments.antt =====
-- Which annotation keys the handler is told to let through.
use crashkit.Prelude.{
  ◌≡◌, refl, Bool, true, false, ◌||◌, none, some, List, [], ◌∷◌, ◌++◌, arith, if◌then◌else◌, All,
}
use crashkit.Prelude.Bytes.{Bytes, codes, ◌=b◌}
use crashkit.StdMap.{StdMap, keys, elem}
use crashkit.Bridge.{
  JString, null_ref, text, allow, push_allowed, push_dynamic, passthrough, build_arguments,
}

-- The keys among the references that hold a string.
abbrev pub texts : List JString → List Bytes
texts [] = []
texts (null_ref ∷ ks) = texts ks
texts (text none ∷ ks) = texts ks
texts (text (some key) ∷ ks) = key ∷ texts ks

-- The handler is told to let the key through.
abbrev pub allows : List Bytes → Bytes → Bool
allows arguments key = elem (allow key) arguments

allow_injective : (k j : Bytes) → (allow k =b allow j) ≡ k =b j
unfolding ◌=b◌
allow_injective k j = refl

elem-append : (k : Bytes) (xs ys : List Bytes) → elem k (xs ++ ys) ≡ elem k xs || elem k ys
elem-append k [] ys = refl
elem-append k (x ∷ xs) ys = ground (arith, elem-append k xs ys)

allows-push :
    (arguments : List Bytes) (k j : Bytes)
    → allows (arguments ++ allow j ∷ []) k ≡ allows arguments k || k =b j
allows-push arguments k j =
    ground (arith, elem-append (allow k) arguments (allow j ∷ []), allow_injective k j)

-- A reader of arguments that sees a key exactly where it is let through.
pub record IsReader (reads : List Bytes → Bool) (k : Bytes) : Type 0 where
  pub step :
      (arguments : List Bytes) (j : Bytes)
      → reads (arguments ++ allow j ∷ []) ≡ reads arguments || k =b j
  pub nothing : reads [] ≡ false
  pub rate : reads (codes "--no-rate-limit" ∷ []) ≡ false

module _ (reads : List Bytes → Bool) (k : Bytes) where
  reads-push_allowed :
      (arguments ks : List Bytes)
      → IsReader reads k
      → reads (push_allowed arguments ks) ≡ reads arguments || elem k ks
  unfolding push_allowed
  reads-push_allowed arguments [] w = ground arith
  reads-push_allowed arguments (j ∷ ks) w =
      ground (arith, reads-push_allowed (arguments ++ allow j ∷ []) ks w, w.step arguments j)

  reads-push_dynamic :
      (arguments : List Bytes) (ks : List JString) {result : List Bytes}
      → IsReader reads k
      → push_dynamic arguments ks ≡ some result
      → reads result ≡ reads arguments || elem k (texts ks)
  unfolding push_dynamic
  reads-push_dynamic arguments [] w h = ground arith
  reads-push_dynamic arguments (null_ref ∷ ks) w h = cc
  reads-push_dynamic arguments (text none ∷ ks) w h = reads-push_dynamic arguments ks w h
  reads-push_dynamic arguments (text (some j) ∷ ks) w h =
      ground (arith, reads-push_dynamic (arguments ++ allow j ∷ []) ks w h, w.step arguments j)

  reads-rate :
      (b : Bool) → IsReader reads k → reads (if b then codes "--no-rate-limit" ∷ [] else []) ≡ false
  reads-rate true w = w.rate
  reads-rate false w = w.nothing

  pub build_arguments-reads :
      (no_rate_limit : Bool) (annotations : StdMap) (dynamic : List JString)
      (arguments : List Bytes)
      → IsReader reads k
      → build_arguments no_rate_limit annotations dynamic ≡ some arguments
      → reads arguments
        ≡ (elem k (keys annotations) || elem k passthrough) || elem k (texts dynamic)
  unfolding build_arguments
  build_arguments-reads b m dynamic arguments w h =
      let rate = if b then codes "--no-rate-limit" ∷ [] else [] in
      ground (
        arith,
        reads-push_dynamic _ dynamic w h,
        reads-push_allowed (push_allowed rate (keys m)) passthrough w,
        reads-push_allowed rate (keys m) w,
        reads-rate b w,
      )

allows-IsReader : (k : Bytes) → IsReader (λ arguments. allows arguments k) k
allows-IsReader k = record {
  step = λ arguments j. allows-push arguments k j;
  nothing = refl;
  rate = unfold ◌=b◌ in refl;
}

-- The arguments let an annotation key through exactly if it is a key of the annotations, `ptype` or
-- `osarch`, or one of the dynamic keys that hold a string.
pub build_arguments-allows :
    (no_rate_limit : Bool) (annotations : StdMap) (dynamic : List JString) (arguments : List Bytes)
    (k : Bytes)
    → build_arguments no_rate_limit annotations dynamic ≡ some arguments
    → allows arguments k
      ≡ (elem k (keys annotations) || elem k passthrough) || elem k (texts dynamic)
build_arguments-allows b m dynamic arguments k h =
    build_arguments-reads (λ a. allows a k) k b m dynamic arguments (allows-IsReader k) h

-- The arguments are defined if no dynamic key is a null reference.
abbrev pub NotNull : JString → Type 0
NotNull null_ref = ⊥
NotNull (text chars) = Unit

push_dynamic_total :
    (arguments : List Bytes) (ks : List JString)
    → All NotNull ks
    → (result : List Bytes) × (push_dynamic arguments ks ≡ some result)
unfolding push_dynamic
push_dynamic_total arguments [] h = (arguments, refl)
push_dynamic_total arguments (null_ref ∷ ks) h = absurd h.0
push_dynamic_total arguments (text none ∷ ks) h = push_dynamic_total arguments ks h.1
push_dynamic_total arguments (text (some key) ∷ ks) h = push_dynamic_total _ ks h.1

pub build_arguments_total :
    (no_rate_limit : Bool) (annotations : StdMap) (dynamic : List JString)
    → All NotNull dynamic
    → (result : List Bytes) × (build_arguments no_rate_limit annotations dynamic ≡ some result)
unfolding build_arguments
build_arguments_total b m dynamic h = push_dynamic_total _ dynamic h
