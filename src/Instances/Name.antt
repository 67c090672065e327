-- ===== src/Instances/Name.antt =====
-- Which folders are taken for instances of a class.
use pmu_events.Base.{
  ℕ, ◌^◌, ◌<◌, ◌≡◌, refl, ◌≢◌, ◌↔◌, ◌⊎◌, inl, inr, ap, sym, ◌∙◌, true, false, [], ◌∷◌, ◌++◌, arith,
  Bytes, Option-cases, is_empty, append-nil, length-append,
}
use pmu_events.Instances.{is_suffix, is_instance_name}
use pmu_events.Libc.Number.{strtoull}
use pmu_events.Libc.Print.{print}
use pmu_events.Libc.Print.Strtoull.{strtoull-print_all}
use pmu_events.Libc.Text.{strip_prefix, strip_prefix-append, strip_prefix_sound}

-- A number for `strtoul`, up to the end: also an empty text, and one with blanks or a sign in front.
abbrev pub IsNumber : Bytes → Type 0
IsNumber text = ((strtoull 10 text).rest ≡ []) × ((strtoull 10 text).erange ≡ false)

is_empty_iff : (s : Bytes) → (is_empty s ≡ true) ↔ (s ≡ [])
is_empty_iff [] = (λ h. refl, λ h. refl)
is_empty_iff (c ∷ s) = (λ h. cc, λ h. cc)

is_suffix_sound :
    (c : ℕ) (s : Bytes)
    → is_suffix (c ∷ s) ≡ true
    → (c ∷ s ≡ []) ⊎ ((text : Bytes) × (c ∷ s ≡ b'_' ∷ text) × IsNumber text)
unfolding is_suffix
is_suffix_sound c s h =
    inr (s, ground arith, (ground (arith, is_empty_iff (strtoull 10 s).rest), ground arith))

is_suffix_complete :
    (c : ℕ) (s : Bytes)
    → (c ∷ s ≡ []) ⊎ ((text : Bytes) × (c ∷ s ≡ b'_' ∷ text) × IsNumber text)
    → is_suffix (c ∷ s) ≡ true
unfolding is_suffix
is_suffix_complete c s (inl e) = cc
is_suffix_complete c s (inr (text, e, (r, k))) =
    let same : s ≡ text = ground arith in rw (same, k, r) (ground arith)

is_suffix_iff :
    (s : Bytes)
    → (is_suffix s ≡ true) ↔ ((s ≡ []) ⊎ ((text : Bytes) × (s ≡ b'_' ∷ text) × IsNumber text))
unfolding is_suffix
is_suffix_iff [] = (λ h. inl refl, λ h. refl)
is_suffix_iff (c ∷ text) = (is_suffix_sound c text, is_suffix_complete c text)

is_instance_name-append :
    (class_name suffix : Bytes)
    → is_instance_name class_name (class_name ++ suffix) ≡ is_suffix suffix
unfolding is_instance_name
is_instance_name-append class_name suffix =
    rw (is_instance_name, strip_prefix-append class_name suffix)
      (ground (arith, length-append class_name suffix))

is_instance_name_sound :
    (class_name d_name : Bytes)
    → is_instance_name class_name d_name ≡ true
    → (d_name ≡ class_name)
      ⊎ ((text : Bytes) × (d_name ≡ class_name ++ b'_' ∷ text) × IsNumber text)
unfolding is_instance_name
is_instance_name_sound class_name d_name h = elim (Option-cases (strip_prefix class_name d_name)) [
  | inl e ↦ absurd (ground arith)
  | inr (suffix, e) ↦
      let splits = strip_prefix_sound class_name d_name {r = suffix} e in
      let ends : is_suffix suffix ≡ true =
        sym (is_instance_name-append class_name suffix) ∙ rw splits at h in
      elim ((is_suffix_iff suffix).0 ends) [
        | inl none_left ↦ inl (rw splits (rw none_left (append-nil class_name)))
        | inr (text, k, number) ↦
            inr (text, rw splits (ap (λ (t : Bytes). class_name ++ t) k), number)
      ]
]

is_instance_name_complete :
    (class_name d_name : Bytes)
    → (d_name ≡ class_name)
      ⊎ ((text : Bytes) × (d_name ≡ class_name ++ b'_' ∷ text) × IsNumber text)
    → is_instance_name class_name d_name ≡ true
is_instance_name_complete class_name d_name (inl e) =
    rw e (rw append-nil at (is_instance_name-append class_name []) ∙ ends)
  where
    ends : is_suffix [] ≡ true
    ends = unfold is_suffix in refl
is_instance_name_complete class_name d_name (inr (text, e, number)) = rw e (
    is_instance_name-append class_name (b'_' ∷ text)
    ∙ (is_suffix_iff (b'_' ∷ text)).1 (inr (text, refl, number)))

-- A folder is an instance exactly if its name is the class's, or the class's with an underscore
-- behind it and a text that `strtoul` reads to its end in range: digits, which a sign and blanks
-- may precede, or the empty text.
pub is_instance_name_iff :
    (class_name d_name : Bytes)
    → (is_instance_name class_name d_name ≡ true) ↔ (
        (d_name ≡ class_name)
        ⊎ ((text : Bytes) × (d_name ≡ class_name ++ b'_' ∷ text) × IsNumber text))
is_instance_name_iff class_name d_name =
    (is_instance_name_sound class_name d_name, is_instance_name_complete class_name d_name)

-- A folder named as the kernel names an instance of a class with several, the class's name with an
-- underscore and the decimal digits of a 64-bit number, is taken.
is_instance_name-print :
    (class_name : Bytes) (n : ℕ)
    → n < 2 ^ 64
    → is_instance_name class_name (class_name ++ b'_' ∷ print 10 n) ≡ true
is_instance_name-print class_name n h =
    (is_instance_name_iff class_name _).1 (inr (print 10 n, refl, number))
  where
    number : IsNumber (print 10 n)
    number = rw (strtoull-print_all n h) (refl, refl)

-- A folder whose name goes on behind the class's name with anything but an underscore is not.
is_instance_name-other :
    (class_name : Bytes) (c : ℕ) (rest : Bytes)
    → c ≢ b'_'
    → is_instance_name class_name (class_name ++ c ∷ rest) ≡ false
unfolding is_suffix
is_instance_name-other class_name c rest h =
    is_instance_name-append class_name (c ∷ rest) ∙ ground arith
