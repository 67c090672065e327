-- ===== src/Commas/Refine.antt =====
-- The loop over comma-separated terms against the terms of a split.
use pmu_events.Base.{
  ℕ, zero, suc, ◌+◌, ◌≤◌, ◌<◌, ◌⊎◌, ◌≡◌, ◌≢◌, refl, Bool, true, false, ◌&&◌, Option, none, some,
  List, [], ◌∷◌, ◌++◌, arith, if◌then◌else◌, Bytes, length, Option-cases, inl, inr, Bool-cases,
  traverse, append_assoc, length-append, ◌∙◌,
}
use pmu_events.Commas.{comma_loop, parse_commas}
use pmu_events.Commas.Split.{split, split-strchr-none, split-strchr-some}
use pmu_events.Libc.Text.{strchr}

-- The array can grow from `have` elements by one, `more` times.
unfoldable pub can_grow : (ℕ → Bool) → ℕ → ℕ → Bool
can_grow realloc_ok have zero = true
can_grow realloc_ok have (suc more) = realloc_ok (have + 1) && can_grow realloc_ok (have + 1) more

none-ne-some {ℓ} : {A : Type ℓ} {x : A} → none ≢ some x
none-ne-some h = cc

module _ {ℓ} {A : Type ℓ} (realloc_ok : ℕ → Bool) (parse : Bytes → Option A) where
  append_to : List A → Option (List A) → Option (List A)
  append_to list none = none
  append_to list (some more) = some (list ++ more)

  outcome : List A → List Bytes → Option (List A)
  outcome list terms =
      if can_grow realloc_ok (length list) (length terms)
      then append_to list (traverse parse terms)
      else none

  outcome-one :
      (list : List A) (text : Bytes)
      → outcome list (text ∷ []) ≡ (
          if realloc_ok (length list + 1)
          then elim (parse text) [ none ↦ none | some r ↦ some (list ++ r ∷ []) ]
          else none)
  unfolding outcome append_to can_grow traverse
  outcome-one list text = ground arith

  outcome-cons :
      (list : List A) (term : Bytes) (terms : List Bytes)
      → outcome list (term ∷ terms) ≡ (
          if realloc_ok (length list + 1)
          then elim (parse term) [ none ↦ none | some r ↦ outcome (list ++ r ∷ []) terms ]
          else none)
  unfolding outcome append_to can_grow traverse
  outcome-cons list term terms = elim (Option-cases (parse term)) [
    | inl e ↦ ground arith
    | inr (r, e) ↦ elim (Option-cases (traverse parse terms)) [
      | inl k ↦ ground (arith, length-append list (r ∷ []))
      | inr (more, k) ↦ ground (arith, length-append list (r ∷ []), append_assoc list (r ∷ []) more)
    ]
  ]

  comma_loop-outcome :
      (fuel : ℕ) (list : List A) (text : Bytes)
      → length text < fuel
      → comma_loop realloc_ok parse fuel list text ≡ outcome list (split b',' text)
  unfolding comma_loop
  comma_loop-outcome zero list text h = absurd (omega arith)
  comma_loop-outcome (suc fuel) list text h = elim (Option-cases (strchr b',' text)) [
    | inl e ↦ rw (e, split-strchr-none b',' text e, outcome-one list text)
    | inr ((term, rest), e) ↦
        let (s, l) = split-strchr-some b',' text term rest e in
        rw (e, s, outcome-cons list term (split b',' rest))
          (elim (Option-cases (parse term)) [
            | inl k ↦ rw k
            | inr (r, k) ↦ rw (k, comma_loop-outcome fuel (list ++ r ∷ []) rest (omega arith))
          ])
  ]

  append_to_nil : (o : Option (List A)) → append_to [] o ≡ o
  unfolding append_to
  append_to_nil none = refl
  append_to_nil (some l) = refl

  -- With its fuel the loop always ends: the result is the list of the terms' results if all terms
  -- parse and the array can grow that often, and else a failure.
  pub parse_commas-split :
      (text : Bytes)
      → parse_commas realloc_ok parse text ≡ (
          if can_grow realloc_ok 0 (length (split b',' text))
          then traverse parse (split b',' text)
          else none)
  unfolding parse_commas
  parse_commas-split text =
      comma_loop-outcome (length text + 1) [] text (omega arith)
      ∙ unfold outcome in rw (append_to_nil (traverse parse (split b',' text)))

-- Whatever memory does, a list that the loop returns is that of the terms' results.
pub parse_commas-terms {ℓ} :
    {A : Type ℓ} (realloc_ok : ℕ → Bool) (parse : Bytes → Option A) (text : Bytes) {list : List A}
    → parse_commas realloc_ok parse text ≡ some list
    → traverse parse (split b',' text) ≡ some list
parse_commas-terms realloc_ok parse text h =
    elim (Bool-cases (can_grow realloc_ok 0 (length (split b',' text)))) [
      | inl e ↦ rw e at (rw (parse_commas-split realloc_ok parse text) at h)
      | inr e ↦ absurd (none-ne-some (rw e at (rw (parse_commas-split realloc_ok parse text) at h)))
    ]

-- An array that cannot grow so far fails at a length up to there.
can_grow-fails :
    (realloc_ok : ℕ → Bool) (have more : ℕ)
    → can_grow realloc_ok have more ≡ false
    → (n : ℕ) × (n ≤ have + more) × (realloc_ok n ≡ false)
unfolding can_grow
can_grow-fails realloc_ok have zero h = cc
can_grow-fails realloc_ok have (suc more) h = elim (Bool-cases (realloc_ok (have + 1))) [
  | inl e ↦
      let (n, le, f) = can_grow-fails realloc_ok (have + 1) more (rw (can_grow, e) at h) in
      (n, omega (arith, le), f)
  | inr e ↦ (have + 1, omega arith, e)
]

pub can_grow_always : (have n : ℕ) → can_grow (λ _. true) have n ≡ true
unfolding can_grow
can_grow_always have zero = refl
can_grow_always have (suc n) = can_grow_always (have + 1) n

-- The loop fails for a term that does not parse, or for an array that does not grow to their number.
pub parse_commas-none {ℓ} :
    {A : Type ℓ} (realloc_ok : ℕ → Bool) (parse : Bytes → Option A) (text : Bytes)
    → parse_commas realloc_ok parse text ≡ none
    → (parse_commas (λ _. true) parse text ≡ none)
      ⊎ ((n : ℕ) × (n ≤ length (split b',' text)) × (realloc_ok n ≡ false))
parse_commas-none realloc_ok parse text h =
    let terms = length (split b',' text) in
    elim (Bool-cases (can_grow realloc_ok 0 terms)) [
      | inl e ↦
          let fails : traverse parse (split b',' text) ≡ none =
            rw (parse_commas-split realloc_ok parse text, e) at h in
          inl (rw (parse_commas-split (λ _. true) parse text, can_grow_always 0 terms) fails)
      | inr e ↦
          let (n, le, f) = can_grow-fails realloc_ok 0 terms e in inr (n, omega (arith, le), f)
    ]
