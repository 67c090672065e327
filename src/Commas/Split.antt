-- ===== src/Commas/Split.antt =====
-- The terms of a text: what stands between its separators.
use pmu_events.Base.{
  ℕ, ◌<◌, ◌≡◌, refl, none, some, List, [], ◌∷◌, ◌++◌, arith, ◌==◌, if◌then◌else◌, Bytes, Lacks,
  length, Option-cases, inl, inr, ap, ◌∙◌, All,
}
use pmu_events.Libc.Text.{strchr, strchr-append, strchr-Lacks}

abbrev pub prepend : ℕ → List Bytes → List Bytes
prepend c [] = (c ∷ []) ∷ []
prepend c (p ∷ ps) = (c ∷ p) ∷ ps

unfoldable pub split : ℕ → Bytes → List Bytes
split sep [] = [] ∷ []
split sep (c ∷ s) = if c == sep then [] ∷ split sep s else prepend c (split sep s)

-- The terms with a separator between each two.
unfoldable pub join : Bytes → List Bytes → Bytes
join sep [] = []
join sep (p ∷ []) = p
join sep (p ∷ q ∷ ps) = p ++ (sep ++ join sep (q ∷ ps))

pub split-strchr-none : (sep : ℕ) (s : Bytes) → strchr sep s ≡ none → split sep s ≡ s ∷ []
unfolding split strchr
split-strchr-none sep [] h = refl
split-strchr-none sep (c ∷ s) h = elim (Option-cases (strchr sep s)) [
  | inl e ↦ ground (arith, split-strchr-none sep s e)
  | inr (p, e) ↦ ground arith
]

pub split-strchr-some :
    (sep : ℕ) (s front back : Bytes)
    → strchr sep s ≡ some (front, back)
    → (split sep s ≡ front ∷ split sep back) × (length back < length s)
unfolding split strchr
split-strchr-some sep [] front back h = cc
split-strchr-some sep (c ∷ s) front back h = elim (Option-cases (strchr sep s)) [
  | inl e ↦ ground arith
  | inr ((f, b), e) ↦ ground (arith, split-strchr-some sep s f b e)
]

pub split-length_pos : (sep : ℕ) (s : Bytes) → 0 < length (split sep s)
unfolding split
split-length_pos sep [] = omega arith
split-length_pos sep (c ∷ s) = ground (arith, split-length_pos sep s)

-- Splitting a join gives the terms back, if there is one and none holds the separator.
pub split-join :
    (sep : ℕ) (p : Bytes) (ps : List Bytes)
    → Lacks sep p
    → All (Lacks sep) ps
    → split sep (join (sep ∷ []) (p ∷ ps)) ≡ p ∷ ps
unfolding join
split-join sep p [] h hs = split-strchr-none sep p (strchr-Lacks sep p h)
split-join sep p (q ∷ ps) h (hq, hs) =
    let rest = join (sep ∷ []) (q ∷ ps) in
    (split-strchr-some sep (p ++ sep ∷ rest) p rest (strchr-append sep p rest h)).0
    ∙ ap (λ (t : List Bytes). p ∷ t) (split-join sep q ps hq hs)
