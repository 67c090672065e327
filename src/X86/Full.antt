-- ===== src/X86/Full.antt =====
-- `is_full_cpuid`: whether a text has four terms.
use pmu_events.Base.{
  ℕ, zero, suc, ◌+◌, ◌<◌, ◌≡◌, refl, inl, inr, true, ◌==◌, [], ◌∷◌, Bytes, length, map, arith,
  Lacks, Option-cases,
}
use pmu_events.Commas.Split.{split, join, split-strchr-none, split-strchr-some, split-join}
use pmu_events.Libc.Print.{print, print-Lacks}
use pmu_events.Libc.Number.{digit_value, is_digit}
use pmu_events.Libc.Text.{strchr}
use pmu_events.X86.{Version, upper_char, print_upper, id_text, dashes, is_full_cpuid}

dashes-split : (fuel : ℕ) (s : Bytes) → length s < fuel → dashes fuel s + 1 ≡ length (split b'-' s)
unfolding dashes
dashes-split zero s h = absurd (omega arith)
dashes-split (suc fuel) s h = elim (Option-cases (strchr b'-' s)) [
  | inl e ↦ rw (dashes, e, split-strchr-none b'-' s e) refl
  | inr ((front, back), e) ↦
      let (terms, shorter) = split-strchr-some b'-' s front back e in
      rw (dashes, e, terms) (omega (arith, dashes-split fuel back (omega (arith, shorter))))
]

-- A text is a full identifier exactly if it has four terms between its dashes, empty ones counted:
-- the loop looks at the whole text.
is_full_cpuid-split : (id : Bytes) → is_full_cpuid id ≡ (length (split b'-' id) == 4)
unfolding is_full_cpuid
is_full_cpuid-split id = ground (arith, dashes-split (length id + 1) id (omega arith))

upper-Lacks : (s : Bytes) → Lacks b'-' s → Lacks b'-' (map upper_char s)
unfolding upper_char
upper-Lacks [] h = tt
upper-Lacks (c ∷ s) (hc, h) = (ground arith, upper-Lacks s h)

pub print_upper-Lacks : (n : ℕ) → Lacks b'-' (print_upper n)
unfolding print_upper
print_upper-Lacks n =
    upper-Lacks (print 16 n) (
      print-Lacks 16 n b'-' (omega arith) (omega arith)
        (unfold digit_value is_digit in omega arith))

decimal-Lacks : (n : ℕ) → Lacks b'-' (print 10 n)
decimal-Lacks n =
    print-Lacks 10 n b'-' (omega arith) (omega arith) (unfold digit_value is_digit in omega arith)

-- If the vendor's name has no dash, the text that names the CPU has the four terms that it is made of.
id_text-split :
    (vendor : Bytes) (v : Version)
    → Lacks b'-' vendor
    → split b'-' (id_text vendor v)
      ≡ vendor ∷ print 10 v.family ∷ print_upper v.model ∷ print_upper v.step ∷ []
unfolding id_text
id_text-split vendor v h =
    unfold join in
    split-join b'-' vendor (print 10 v.family ∷ print_upper v.model ∷ print_upper v.step ∷ []) h
      (decimal-Lacks v.family, (print_upper-Lacks v.model, (print_upper-Lacks v.step, tt)))

pub is_full_cpuid-id_text :
    (vendor : Bytes) (v : Version) → Lacks b'-' vendor → is_full_cpuid (id_text vendor v) ≡ true
is_full_cpuid-id_text vendor v h =
    rw (is_full_cpuid-split (id_text vendor v), id_text-split vendor v h) refl
