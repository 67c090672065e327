-- ===== src/Midr/Order.antt =====
-- The parts and versions that `strcmp_cpuid_str` of include/pmu-events/aarch64/util.h compares.
use pmu_events.Base.{
  ℕ, ◌+◌, ◌-◌, ◌*◌, ◌/◌, ◌%◌, ◌^◌, ◌<◌, ◌≤◌, ◌≡◌, refl, ap, ◌∙◌, ◌↔◌, inl, inr, Bool, false, ltb,
  leb, ◌&&◌, ◌||◌, if◌then◌else◌, Bytes, bit_and, bit_or, arith, Bool-cases, not,
}
use pmu_events.Libc.Number.{strtoull, strtoull-lt}
use pmu_events.Midr.{
  genmask, bf_shf, field_get, midr_revision_mask, midr_variant_mask, variant, revision, id_fields,
  compare_ids, strcmp_cpuid_str,
}
use pmu_events.Word.Bit.{bit, bits_ext, bit-bit_and, bit-bit_or, bit-lt, bit-zero}
use pmu_events.Word.BitLaws.{bit-mul_pow, bit-div_pow, bit-mod_pow, bit-complement, bit_above}

-- The bits of the revision and of the variant.
abbrev is_version : ℕ → Bool
is_version i = ltb i 4 || (leb 20 i && ltb i 24)

-- All bits but those of the version agree.
abbrev pub IsSamePart : ℕ → ℕ → Type 0
IsSamePart x y = (i : ℕ) → is_version i ≡ false → bit x i ≡ bit y i

-- The variant, in front of the revision, as two hexadecimal digits.
abbrev pub version : ℕ → ℕ
version x = 16 * (x / 2 ^ 20 % 16) + x % 16

bit-ones : (i : ℕ) → bit 15 i ≡ (if ltb i 4 then 1 else 0)
bit-ones i = ground (arith, bit-complement 4 0 i (omega arith), bit-zero i)

masks :
    (midr_variant_mask ≡ 0xf00000)
    × (midr_revision_mask ≡ 0xf)
    × (bf_shf 64 0xf00000 ≡ 20)
    × (bf_shf 64 0xf ≡ 0)
unfolding midr_variant_mask midr_revision_mask genmask bf_shf
masks = (refl, refl, refl, refl)

field_bits : (k x : ℕ) → bit_and x (15 * 2 ^ k) / 2 ^ k ≡ x / 2 ^ k % 16
field_bits k x = bits_ext (bit_and x (15 * 2 ^ k) / 2 ^ k) (x / 2 ^ k % 16) λ i.
    let back : k + i - k ≡ i = omega arith in
    ground (
      arith,
      bit-div_pow k (bit_and x (15 * 2 ^ k)) i,
      bit-bit_and x (15 * 2 ^ k) (k + i),
      bit-mul_pow k 15 (k + i),
      bit-ones i,
      bit-mod_pow 4 (x / 2 ^ k) i,
      bit-div_pow k x i,
      bit-lt x (k + i),
    )

variant_lem : (x : ℕ) → variant x ≡ x / 2 ^ 20 % 16
unfolding variant field_get
variant_lem x = rw (masks.0, masks.2) (omega (arith, field_bits 20 x))

revision_lem : (x : ℕ) → revision x ≡ x % 16
unfolding revision field_get
revision_lem x = rw (masks.1, masks.3) (omega (arith, field_bits 0 x))

bit-id_fields : (i : ℕ) → bit id_fields i ≡ (if ltb i 64 && not (is_version i) then 1 else 0)
unfolding id_fields
bit-id_fields i =
    rw (masks.0, masks.1)
      (ground (
        arith,
        bit-complement 64 (bit_or 0xf00000 0xf) i (omega arith),
        bit-bit_or 0xf00000 0xf i,
        bit-mul_pow 20 15 i,
        bit-ones (i - 20),
        bit-ones i,
      ))

bit-part :
    (x i : ℕ) → x < 2 ^ 64 → bit (bit_and x id_fields) i ≡ (if is_version i then 0 else bit x i)
bit-part x i h =
    ground (arith, bit-bit_and x id_fields i, bit-id_fields i, bit_above x i h, bit-lt x i)

IsSamePart-iff :
    (x y : ℕ)
    → x < 2 ^ 64
    → y < 2 ^ 64
    → (bit_and x id_fields ≡ bit_and y id_fields) ↔ IsSamePart x y
IsSamePart-iff x y h k = (
  λ e i n. ground (arith, ap (λ (t : ℕ). bit t i) e, bit-part x i h, bit-part y i k),
  λ same. bits_ext (bit_and x id_fields) (bit_and y id_fields) λ i.
      elim (Bool-cases (is_version i)) [
        | inl e ↦ ground (arith, bit-part x i h, bit-part y i k)
        | inr e ↦ ground (arith, bit-part x i h, bit-part y i k, same i e)
      ],
)

compare_ids_parts :
    (map_id id : ℕ)
    → (compare_ids map_id id ≡ 0)
      ↔ ((bit_and map_id id_fields ≡ bit_and id id_fields) × (version map_id ≤ version id))
unfolding compare_ids
compare_ids_parts map_id id =
    rw (variant_lem map_id, variant_lem id, revision_lem map_id, revision_lem id) (ground arith)

compare_ids_iff :
    (map_id id : ℕ)
    → map_id < 2 ^ 64
    → id < 2 ^ 64
    → (compare_ids map_id id ≡ 0) ↔ (IsSamePart map_id id × (version map_id ≤ version id))
compare_ids_iff map_id id h k =
    let (to, from) = compare_ids_parts map_id id in
    let (apart, together) = IsSamePart-iff map_id id h k in
    (λ e. (apart (to e).0, (to e).1), λ p. from (together p.0, p.1))

-- The number that an identifier's text stands for.
abbrev pub midr : Bytes → ℕ
midr text = (strtoull 16 text).value

-- Two identifiers match exactly if all bits but those of variant and revision agree, and the
-- version of the CPU, its variant in front of its revision, is not below that of the table.
pub strcmp_cpuid_str_iff :
    (mapcpuid idstr : Bytes)
    → (strcmp_cpuid_str mapcpuid idstr ≡ 0)
      ↔ (IsSamePart (midr mapcpuid) (midr idstr) × (version (midr mapcpuid) ≤ version (midr idstr)))
unfolding strcmp_cpuid_str
strcmp_cpuid_str_iff mapcpuid idstr =
    compare_ids_iff (midr mapcpuid) (midr idstr) (strtoull-lt 16 mapcpuid) (strtoull-lt 16 idstr)

-- If a first identifier matches a second, and the second a third, then the first matches the third:
-- an entry of the table for an early version covers all later ones.
strcmp_cpuid_str_trans :
    (a b c : Bytes) → strcmp_cpuid_str a b ≡ 0 → strcmp_cpuid_str b c ≡ 0 → strcmp_cpuid_str a c ≡ 0
strcmp_cpuid_str_trans a b c h k =
    let (same, le) = (strcmp_cpuid_str_iff a b).0 h in
    let (same', le') = (strcmp_cpuid_str_iff b c).0 k in
    (strcmp_cpuid_str_iff a c).1 (λ i n. same i n ∙ same' i n, omega arith)
