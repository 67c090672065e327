-- ===== src/X86/Compare.antt =====
-- `strcmp_cpuid_str` on x86, on the text that names a CPU.
use pmu_events.Base.{
  ℕ, ◌-◌, ◌≡◌, refl, sym, ap, ◌∙◌, ◌↔◌, inl, inr, Bool, true, ◌==◌, if◌then◌else◌, Option, none,
  some, [], ◌∷◌, ◌++◌, Bytes, length, arith, Lacks, Option-cases, Bool-cases, append_assoc,
}
use pmu_events.Libc.Print.{print}
use pmu_events.X86.Full.{print_upper-Lacks, is_full_cpuid-id_text}
use pmu_events.X86.{
  Version, print_upper, id_text, is_full_cpuid, strrchr, cpuid_len, compare_match, strcmp_cpuid_str,
}

strrchr-Lacks : (c : ℕ) (s : Bytes) → Lacks c s → strrchr c s ≡ none
unfolding strrchr
strrchr-Lacks c [] h = refl
strrchr-Lacks c (b ∷ s) (hb, h) = rw (strrchr, strrchr-Lacks c s h) (ground arith)

strrchr-append :
    (c : ℕ) (front back : Bytes) → Lacks c back → strrchr c (front ++ c ∷ back) ≡ some front
unfolding strrchr
strrchr-append c [] back h = rw (strrchr, strrchr-Lacks c back h) (ground arith)
strrchr-append c (b ∷ front) back h = rw (strrchr, strrchr-append c front back h) refl

-- The text without the stepping.
unfoldable pub without_step : Bytes → Version → Bytes
without_step vendor v = vendor ++ b'-' ∷ (print 10 v.family ++ b'-' ∷ print_upper v.model)

id_text-without_step :
    (vendor : Bytes) (v : Version)
    → id_text vendor v ≡ without_step vendor v ++ b'-' ∷ print_upper v.step
unfolding id_text without_step
id_text-without_step vendor v =
    let step = b'-' ∷ print_upper v.step in
    sym (
      append_assoc vendor (b'-' ∷ (print 10 v.family ++ b'-' ∷ print_upper v.model)) step
      ∙ ap (λ (t : Bytes). vendor ++ b'-' ∷ t)
          (append_assoc (print 10 v.family) (b'-' ∷ print_upper v.model) step))

cpuid_len-id_text :
    (vendor : Bytes) (v : Version)
    → cpuid_len true (id_text vendor v) ≡ some (length (without_step vendor v))
unfolding cpuid_len
cpuid_len-id_text vendor v =
    rw
      (
        cpuid_len,
        id_text-without_step vendor v,
        strrchr-append b'-' (without_step vendor v) (print_upper v.step) (print_upper-Lacks v.step),
      )
      refl

-- What a match has to cover: with a full pattern the whole text, otherwise all but the stepping.
unfoldable pub compared_part : Bytes → Bytes → Version → Bytes
compared_part mapcpuid vendor v =
    if is_full_cpuid mapcpuid then id_text vendor v else without_step vendor v

compare_match-id_text :
    (mapcpuid vendor : Bytes) (v : Version) (rm_so rm_eo : ℕ)
    → Lacks b'-' vendor
    → compare_match mapcpuid (id_text vendor v) (rm_so, rm_eo)
      ≡ some (if rm_eo - rm_so == length (compared_part mapcpuid vendor v) then 0 else 1)
unfolding compare_match compared_part
compare_match-id_text mapcpuid vendor v rm_so rm_eo h = elim (Bool-cases (is_full_cpuid mapcpuid)) [
  | inl e ↦ rw (compare_match, e) (unfold cpuid_len in refl)
  | inr e ↦ rw (compare_match, e, is_full_cpuid-id_text vendor v h, cpuid_len-id_text vendor v) refl
]

module _ (regcomp : Bytes → Bool) (regexec : Bytes → Bytes → Option (ℕ × ℕ)) where
  -- The test for an incomplete text does not stop it.
  strcmp_cpuid_str_lem :
      (mapcpuid vendor : Bytes) (v : Version)
      → Lacks b'-' vendor
      → strcmp_cpuid_str regcomp regexec mapcpuid (id_text vendor v) ≡ (
          if regcomp mapcpuid
          then elim (regexec mapcpuid (id_text vendor v)) [
            | none ↦ some 1
            | some pmatch ↦ compare_match mapcpuid (id_text vendor v) pmatch
          ]
          else some 1)
  unfolding strcmp_cpuid_str
  strcmp_cpuid_str_lem mapcpuid vendor v h = elim (Bool-cases (is_full_cpuid mapcpuid)) [
    | inl e ↦ rw (strcmp_cpuid_str, e, is_full_cpuid-id_text vendor v h) refl
    | inr e ↦ rw (strcmp_cpuid_str, e) refl
  ]

  -- A CPU whose vendor's name has no dash matches a pattern of the table exactly if the pattern is
  -- valid and its match in the CPU's text is as long as the text, the stepping left out unless the
  -- pattern has four terms.
  pub strcmp_cpuid_str-id_text :
      (mapcpuid vendor : Bytes) (v : Version)
      → Lacks b'-' vendor
      → (strcmp_cpuid_str regcomp regexec mapcpuid (id_text vendor v) ≡ some 0) ↔ (
          (regcomp mapcpuid ≡ true)
          × (rm_so : ℕ) × (rm_eo : ℕ) × (regexec mapcpuid (id_text vendor v) ≡ some (rm_so, rm_eo))
          × (rm_eo - rm_so ≡ length (compared_part mapcpuid vendor v)))
  unfolding strcmp_cpuid_str
  strcmp_cpuid_str-id_text mapcpuid vendor v h = rw (strcmp_cpuid_str_lem mapcpuid vendor v h) (
    λ r. elim (Bool-cases (regcomp mapcpuid)) [
      | inl e ↦ elim (Option-cases (regexec mapcpuid (id_text vendor v))) [
        | inl q ↦ absurd (ground arith)
        | inr ((rm_so, rm_eo), q) ↦ (
          e,
          rm_so,
          rm_eo,
          q,
          ground (arith, compare_match-id_text mapcpuid vendor v rm_so rm_eo h),
        )
      ]
      | inr e ↦ absurd (ground arith)
    ],
    λ (e, rm_so, rm_eo, q, m).
        rw (e, q, compare_match-id_text mapcpuid vendor v rm_so rm_eo h, m) (ground arith),
  )
