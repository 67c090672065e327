-- ===== src/Libc/Text.antt =====
-- `string.h` on C strings. A pointer into a string is the text from there on.
use pmu_events.Base.{
  ℕ, ◌≡◌, refl, ◌↔◌, inl, inr, Bool, true, false, ◌&&◌, Option, none, some, [], ◌∷◌, ◌++◌, arith,
  ◌==◌, if◌then◌else◌, Bytes, Lacks, Option-cases,
}

-- `strchr(s, c)`: the text before the first `c`, and the text behind it.
unfoldable pub strchr : ℕ → Bytes → Option (Bytes × Bytes)
strchr c [] = none
strchr c (b ∷ s) =
    if b == c
    then some ([], s)
    else elim (strchr c s) [ none ↦ none | some (front, back) ↦ some (b ∷ front, back) ]

-- `strcmp(s, t) == 0`.
unfoldable pub streq : Bytes → Bytes → Bool
streq [] [] = true
streq [] (b ∷ t) = false
streq (a ∷ s) [] = false
streq (a ∷ s) (b ∷ t) = (a == b) && streq s t

-- `strncmp(s, p, strlen(p)) == 0` with `s + strlen(p)`: what follows the prefix `p` in `s`.
unfoldable pub strip_prefix : Bytes → Bytes → Option Bytes
strip_prefix [] s = some s
strip_prefix (b ∷ p) [] = none
strip_prefix (b ∷ p) (a ∷ s) = if a == b then strip_prefix p s else none

-- The text from a buffer's start to its first NUL.
unfoldable pub c_string : Bytes → Bytes
c_string [] = []
c_string (b ∷ s) = if b == 0 then [] else b ∷ c_string s

-- `*s == c`
unfoldable pub starts_with : ℕ → Bytes → Bool
starts_with c [] = false
starts_with c (b ∷ s) = b == c

strchr-none_iff : (c : ℕ) (s : Bytes) → (strchr c s ≡ none) ↔ Lacks c s
unfolding strchr
strchr-none_iff c [] = (λ _. tt, λ _. refl)
strchr-none_iff c (b ∷ s) = ground (arith, strchr-none_iff c s)

-- What `strchr` finds is the first occurrence.
pub strchr_sound :
    (c : ℕ) (s : Bytes) {front back : Bytes}
    → strchr c s ≡ some (front, back)
    → (s ≡ front ++ c ∷ back) × Lacks c front
unfolding strchr
strchr_sound c [] h = cc
strchr_sound c (b ∷ s) {front} {back} h = elim (Option-cases (strchr c s)) [
  | inl e ↦ ground arith
  | inr ((f, g), e) ↦ ground (arith, strchr_sound c s {front = f} {back = g} e)
]

pub strchr-append :
    (c : ℕ) (front back : Bytes) → Lacks c front → strchr c (front ++ c ∷ back) ≡ some (front, back)
unfolding strchr
strchr-append c [] back h = ground arith
strchr-append c (b ∷ front) back (hb, h) = ground (arith, strchr-append c front back h)

pub strchr-Lacks : (c : ℕ) (s : Bytes) → Lacks c s → strchr c s ≡ none
strchr-Lacks c s = (strchr-none_iff c s).1

pub streq_iff : (s t : Bytes) → (streq s t ≡ true) ↔ (s ≡ t)
unfolding streq
streq_iff [] [] = ground arith
streq_iff [] (b ∷ t) = ground arith
streq_iff (a ∷ s) [] = ground arith
streq_iff (a ∷ s) (b ∷ t) = ground (arith, streq_iff s t)

pub strip_prefix-append : (p s : Bytes) → strip_prefix p (p ++ s) ≡ some s
unfolding strip_prefix
strip_prefix-append [] s = refl
strip_prefix-append (b ∷ p) s = ground (arith, strip_prefix-append p s)

pub strip_prefix_sound : (p s : Bytes) {r : Bytes} → strip_prefix p s ≡ some r → s ≡ p ++ r
unfolding strip_prefix
strip_prefix_sound [] s h = ground arith
strip_prefix_sound (b ∷ p) [] h = cc
strip_prefix_sound (b ∷ p) (a ∷ s) {r} h = ground (arith, strip_prefix_sound p s {r = r})
