-- ===== src/Base/Lists.antt =====
-- Arrays as lists, measured and indexed by native numbers, under the library's names.
use Prim.Native.Nat.{ℕ, zero, suc, ◌+◌, ◌≤◌}
use mathlib.Core.Path.{◌≡◌, refl, ap, sym, subst}
use mathlib.Core.List.{List, [], ◌∷◌, ◌++◌, map}
use mathlib.Core.Option.{Option, none, some}
use mathlib.Core.Bool.{Bool, true, false}
use mathlib.Core.Logic.{inl, inr}
use native.Mathlib.Omega.{arith}
use pmu_events.Base.Tests.{Option-cases}

module _ {ℓ} {A : Type ℓ} where
  abbrev pub length : List A → ℕ
  length [] = 0
  length (x ∷ xs) = suc (length xs)

  abbrev pub take : ℕ → List A → List A
  take zero xs = []
  take (suc n) [] = []
  take (suc n) (x ∷ xs) = x ∷ take n xs

  abbrev pub is_empty : List A → Bool
  is_empty [] = true
  is_empty (x ∷ xs) = false

  abbrev pub drop : ℕ → List A → List A
  drop zero xs = xs
  drop (suc n) [] = []
  drop (suc n) (x ∷ xs) = drop n xs

  pub length-append : (xs ys : List A) → length (xs ++ ys) ≡ length xs + length ys
  length-append [] ys = omega arith
  length-append (x ∷ xs) ys = omega (arith, length-append xs ys)

  pub take-append : (xs ys : List A) → take (length xs) (xs ++ ys) ≡ xs
  take-append [] ys = refl
  take-append (x ∷ xs) ys = ap (λ (t : List A). x ∷ t) (take-append xs ys)

  pub take_all : (n : ℕ) (xs : List A) → length xs ≤ n → take n xs ≡ xs
  take_all zero [] h = refl
  take_all zero (x ∷ xs) h = absurd (omega arith)
  take_all (suc n) [] h = refl
  take_all (suc n) (x ∷ xs) h = ap (λ (t : List A). x ∷ t) (take_all n xs (omega arith))

pub length-map {ℓ κ} :
    {A : Type ℓ} {B : Type κ} (f : A → B) (xs : List A) → length (map f xs) ≡ length xs
length-map f [] = refl
length-map f (x ∷ xs) = ap suc (length-map f xs)

-- A predicate that holds at every element.
abbrev pub All {ℓ κ} : {A : Type ℓ} → (A → Type κ) → List A → Type κ
All P [] = Unit
All P (x ∷ xs) = P x × All P xs

pub All-append {ℓ κ} :
    {A : Type ℓ} (P : A → Type κ) (xs ys : List A) → All P xs → All P ys → All P (xs ++ ys)
All-append P [] ys hx hy = hy
All-append P (x ∷ xs) ys hx hy = (hx.0, All-append P xs ys hx.1 hy)

pub All-split {ℓ κ} :
    {A : Type ℓ} (P : A → Type κ) (xs ys : List A) → All P (xs ++ ys) → All P xs × All P ys
All-split P [] ys h = (tt, h)
All-split P (x ∷ xs) ys h = let (hx, hy) = All-split P xs ys h.1 in ((h.0, hx), hy)

-- The results of a fallible function at every element, if none fails.
unfoldable pub traverse {ℓ κ} :
    {A : Type ℓ} {B : Type κ} → (A → Option B) → List A → Option (List B)
traverse f [] = some []
traverse f (x ∷ xs) = elim (f x) [
  | none ↦ none
  | some y ↦ elim (traverse f xs) [ none ↦ none | some ys ↦ some (y ∷ ys) ]
]

pub traverse-cons {ℓ κ} :
    {A : Type ℓ} {B : Type κ} (f : A → Option B) (x : A) (xs : List A) {y : B} {ys : List B}
    → f x ≡ some y
    → traverse f xs ≡ some ys
    → traverse f (x ∷ xs) ≡ some (y ∷ ys)
unfolding traverse
traverse-cons f x xs h k = ground arith

traverse-cons_inv {ℓ κ} :
    {A : Type ℓ} {B : Type κ} (f : A → Option B) (x : A) (xs : List A) {ys : List B}
    → traverse f (x ∷ xs) ≡ some ys
    → (y : B) × (zs : List B) × (f x ≡ some y) × (traverse f xs ≡ some zs) × (ys ≡ y ∷ zs)
unfolding traverse
traverse-cons_inv f x xs {ys} h = elim (Option-cases (f x)) [
  | inl e ↦ absurd (ground arith)
  | inr (y, e) ↦ elim (Option-cases (traverse f xs)) [
    | inl k ↦ absurd (ground arith)
    | inr (zs, k) ↦ (y, zs, e, k, ground arith)
  ]
]

-- What holds of each result holds of all.
pub traverse-All {ℓ κ μ} :
    {A : Type ℓ} {B : Type κ} (P : B → Type μ) (f : A → Option B)
    → ((x : A) (y : B) → f x ≡ some y → P y)
    → (xs : List A) {ys : List B} → traverse f xs ≡ some ys
    → All P ys
unfolding traverse
traverse-All P f keep [] {ys} h = let empty : ys ≡ [] = ground arith in subst (All P) (sym empty) tt
traverse-All P f keep (x ∷ xs) {ys} h =
    let (y, zs, e, k, split) = traverse-cons_inv f x xs h in
    subst (All P) (sym split) (keep x y e, traverse-All P f keep xs k)

-- `a` is an element.
pub data Among {ℓ} {A : Type ℓ} (a : A) : List A → Type ℓ where
  first : {x : A} {xs : List A} → x ≡ a → Among a (x ∷ xs)
  later : {x : A} {xs : List A} → Among a xs → Among a (x ∷ xs)

pub traverse-length {ℓ κ} :
    {A : Type ℓ} {B : Type κ} (f : A → Option B) (xs : List A) {ys : List B}
    → traverse f xs ≡ some ys
    → length ys ≡ length xs
unfolding traverse
traverse-length f [] {ys} h = let empty : ys ≡ [] = ground arith in rw empty
traverse-length f (x ∷ xs) {ys} h =
    let (y, zs, e, k, split) = traverse-cons_inv f x xs h in
    rw split (ap suc (traverse-length f xs k))
