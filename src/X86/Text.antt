-- ===== src/X86/Text.antt =====
-- The text that `get_cpuid_str` returns on x86.
use pmu_events.Base.{
  ℕ, zero, suc, ◌+◌, ◌-◌, ◌*◌, ◌/◌, ◌%◌, ◌^◌, ◌<◌, ◌≤◌, ◌≡◌, refl, ap, inl, inr, true, ◌==◌, leb,
  if◌then◌else◌, some, [], ◌∷◌, ◌++◌, Bytes, length, take, take-append, take_all, map, arith,
  length-append, Bool-cases, lt→ltb,
}
use pmu_events.Libc.Print.Length.{length-print}
use pmu_events.Libc.Print.{print}
use pmu_events.Libc.Text.{strchr, c_string}
use pmu_events.Word.BitLaws.{bit_and_ones}
use pmu_events.X86.{
  Registers, word_bytes, strncpy, uint_minus_one, Version, family_of, model_of, upper_char,
  print_upper, id_text, copied, finish_text, get_cpuid_0, cpu_version, get_cpuid, get_cpuid_str,
}

length-map : (s : Bytes) → length (map upper_char s) ≡ length s
length-map [] = refl
length-map (c ∷ s) = ap suc (length-map s)

length-strncpy : (n : ℕ) (s : Bytes) → length (strncpy n s) ≡ n
unfolding strncpy
length-strncpy zero s = refl
length-strncpy (suc n) [] = ap suc (length-strncpy n [])
length-strncpy (suc n) (c ∷ s) = ground (arith, length-strncpy n [], length-strncpy n s)

length-c_string : (s : Bytes) → length (c_string s) ≤ length s
unfolding c_string
length-c_string [] = omega arith
length-c_string (c ∷ s) = ground (arith, length-c_string s)

strchr_last : (c : ℕ) (s : Bytes) → (found : Bytes × Bytes) × (strchr c (s ++ c ∷ []) ≡ some found)
unfolding strchr
strchr_last c [] = (([], []), ground arith)
strchr_last c (b ∷ s) =
    let ((front, back), e) = strchr_last c s in
    elim (Bool-cases (b == c)) [
      | inl k ↦ (([], s ++ c ∷ []), rw (strchr, k) refl)
      | inr k ↦ ((b ∷ front, back), rw (strchr, k, e) refl)
    ]

-- A text that fits, with its end marker, is copied without it.
finish_text_lem :
    (sz : ℕ) (s : Bytes) → length s + 1 < sz → finish_text sz (s ++ b'$' ∷ []) ≡ copied s
unfolding finish_text
finish_text_lem sz s h =
    let (found, e) = strchr_last b'$' s in
    let total : length (s ++ b'$' ∷ []) ≡ length s + 1 = length-append s (b'$' ∷ []) in
    let whole : take (sz - 1) (s ++ b'$' ∷ []) ≡ s ++ b'$' ∷ [] =
      take_all (sz - 1) _ (omega (arith, total)) in
    let back : length s + 1 - 1 ≡ length s = omega arith in
    rw
      (
        finish_text,
        whole,
        e,
        total,
        back,
        lt→ltb (length s) sz (omega arith),
        whole,
        take-append s (b'$' ∷ []),
      )
      refl

length-print_upper : (n : ℕ) → n < 2 ^ 32 → length (print_upper n) ≤ 8
unfolding print_upper
length-print_upper n h = omega (arith, length-map (print 16 n), length-print 16 7 n)

-- The family and the model as the vendors define them, from the word that names the version.
unfoldable pub vendor_family : ℕ → ℕ
vendor_family a = if a / 2 ^ 8 % 16 == 15 then 15 + a / 2 ^ 20 % 256 else a / 2 ^ 8 % 16

unfoldable pub vendor_model : ℕ → ℕ
vendor_model a =
    if leb 6 (vendor_family a) then a / 2 ^ 16 % 16 * 16 + a / 2 ^ 4 % 16 else a / 2 ^ 4 % 16

family_of-vendor : (a : ℕ) → family_of a ≡ vendor_family a
unfolding family_of vendor_family
family_of-vendor a = ground (arith, bit_and_ones 4 (a / 2 ^ 8), bit_and_ones 8 (a / 2 ^ 20))

model_of-vendor : (a : ℕ) → model_of (vendor_family a) a ≡ vendor_model a
unfolding model_of vendor_model
model_of-vendor a = ground (arith, bit_and_ones 4 (a / 2 ^ 4), bit_and_ones 4 (a / 2 ^ 16))

vendor_family-lt : (a : ℕ) → vendor_family a < 2 ^ 32
unfolding vendor_family
vendor_family-lt a = ground arith

vendor_model-lt : (a : ℕ) → vendor_model a < 2 ^ 32
unfolding vendor_model
vendor_model-lt a = ground arith

abbrev IsSmall : Version → Type 0
IsSmall v = (v.family < 2 ^ 32) × (v.model < 2 ^ 32) × (v.step < 2 ^ 32)

length-id_text :
    (vendor : Bytes) (v : Version) → length vendor ≤ 13 → IsSmall v → length (id_text vendor v) ≤ 42
unfolding id_text
length-id_text vendor v h (f, m, s) =
    let step = print_upper v.step in
    let model = print_upper v.model in
    let family = print 10 v.family in
    omega (
      arith,
      length-append vendor (b'-' ∷ (family ++ b'-' ∷ (model ++ b'-' ∷ step))),
      length-append family (b'-' ∷ (model ++ b'-' ∷ step)),
      length-append model (b'-' ∷ step),
      length-print 10 9 v.family,
      length-print_upper v.model m,
      length-print_upper v.step s,
    )

module _ (cpuid : ℕ → Registers) where
  length-vendor : length (c_string (get_cpuid_0 cpuid)) ≤ 13
  unfolding get_cpuid_0
  length-vendor = omega (
    arith,
    length-c_string (get_cpuid_0 cpuid),
    length-append (strncpy 4 (word_bytes (cpuid 0).b))
        (strncpy 4 (word_bytes (cpuid 0).d) ++ (strncpy 4 (word_bytes (cpuid 0).c) ++ 0 ∷ [])),
    length-append (strncpy 4 (word_bytes (cpuid 0).d))
        (strncpy 4 (word_bytes (cpuid 0).c) ++ 0 ∷ []),
    length-append (strncpy 4 (word_bytes (cpuid 0).c)) (0 ∷ []),
    length-strncpy 4 (word_bytes (cpuid 0).b),
    length-strncpy 4 (word_bytes (cpuid 0).d),
    length-strncpy 4 (word_bytes (cpuid 0).c),
  )

  -- Family, model and stepping of the CPU, or -1 each if the CPU does not tell them.
  unfoldable pub vendor_version : Version
  vendor_version =
      let a = (cpuid 1).a in
      if leb 1 (cpuid 0).a
      then record { family = vendor_family a; model = vendor_model a; step = a % 16 }
      else record { family = uint_minus_one; model = uint_minus_one; step = uint_minus_one }

  cpu_version-vendor : cpu_version cpuid ≡ vendor_version
  unfolding cpu_version vendor_version
  cpu_version-vendor =
      let a = (cpuid 1).a in
      rw (cpu_version, family_of-vendor a, model_of-vendor a, bit_and_ones 4 a) refl

  vendor_version-IsSmall : IsSmall vendor_version
  unfolding vendor_version
  vendor_version-IsSmall = elim (Bool-cases (leb 1 (cpuid 0).a)) [
    | inl e ↦
        rw (vendor_version, e)
          (vendor_family-lt (cpuid 1).a, vendor_model-lt (cpuid 1).a, omega arith)
    | inr e ↦ rw (vendor_version, e) (omega arith, omega arith, omega arith)
  ]

  -- Whatever the instruction `cpuid` answers, if `malloc` gives the buffer, the text is never cut
  -- off and nothing is stored behind the buffer: it is the vendor's name with the family in decimal
  -- and the model and the stepping in upper-case hexadecimal digits.
  pub get_cpuid_str-id_text :
      get_cpuid_str cpuid true
      ≡ some (copied (id_text (c_string (get_cpuid_0 cpuid)) vendor_version))
  unfolding get_cpuid_str get_cpuid
  get_cpuid_str-id_text =
      let vendor = c_string (get_cpuid_0 cpuid) in
      let short = length-id_text vendor vendor_version length-vendor vendor_version-IsSmall in
      rw (get_cpuid, cpu_version-vendor)
        (ap some (finish_text_lem 128 (id_text vendor vendor_version) (omega (arith, short))))
