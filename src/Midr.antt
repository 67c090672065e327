-- ===== src/Midr.antt =====
-- `strcmp_cpuid_str` of include/pmu-events/aarch64/util.h: whether a CPU's identifier, the value of
-- its register MIDR_EL1 as text, matches one of the table.
pub mod Order
use pmu_events.Base.{
  ℕ, zero, suc, ◌+◌, ◌-◌, ◌*◌, ◌/◌, ◌%◌, ◌^◌, ◌≡◌, refl, Bool, true, false, ◌==◌, ltb, leb, ◌&&◌,
  if◌then◌else◌, Bytes, codes, bit_and, bit_or,
}
use pmu_events.Libc.Number.{strtoull}
use pmu_events.Word.{uint64_max, not64}

-- `GENMASK`, for `h` and `l` below 64: ones from bit `l` to bit `h`.
unfoldable pub genmask : ℕ → ℕ → ℕ
genmask h l = bit_and (uint64_max * 2 ^ l % 2 ^ 64) (uint64_max / 2 ^ (63 - h))

-- The number of zeros below the lowest one of a word, with fuel for its bits: `__bf_shf`.
unfoldable pub bf_shf : ℕ → ℕ → ℕ
bf_shf zero mask = 0
bf_shf (suc fuel) mask = let more = bf_shf fuel (mask / 2) in if mask % 2 == 1 then 0 else 1 + more

-- `FIELD_GET`
unfoldable pub field_get : ℕ → ℕ → ℕ
field_get mask reg = bit_and reg mask / 2 ^ bf_shf 64 mask

unfoldable pub midr_revision_mask : ℕ
midr_revision_mask = genmask 3 0

unfoldable pub midr_variant_mask : ℕ
midr_variant_mask = genmask 23 20

-- The fields are stored in a `char` each: they are below 16, so that none is cut or negative.
unfoldable pub variant : ℕ → ℕ
variant id = field_get midr_variant_mask id % 2 ^ 8

unfoldable pub revision : ℕ → ℕ
revision id = field_get midr_revision_mask id % 2 ^ 8

unfoldable pub id_fields : ℕ
id_fields = not64 (bit_or midr_variant_mask midr_revision_mask)

-- From the two numbers on: 0 is a match.
unfoldable pub compare_ids : ℕ → ℕ → ℕ
compare_ids map_id id =
    if bit_and map_id id_fields == bit_and id id_fields
    then (if ltb (variant map_id) (variant id)
        then 0
        else if (variant id == variant map_id) && leb (revision map_id) (revision id)
        then 0
        else 1)
    else 1

unfoldable pub strcmp_cpuid_str : Bytes → Bytes → ℕ
strcmp_cpuid_str mapcpuid idstr = compare_ids (strtoull 16 mapcpuid).value (strtoull 16 idstr).value

masks :
    (midr_variant_mask ≡ 0xf00000) × (midr_revision_mask ≡ 0xf) × (id_fields ≡ 0xffffffffff0ffff0)
unfolding midr_variant_mask midr_revision_mask id_fields genmask
masks = (refl, refl, refl)

-- A later revision, an earlier variant, and another part.
compared :
    (strcmp_cpuid_str (codes "0x00000000410fd0c0") (codes "0x00000000413fd0c1\n") ≡ 0)
    × (strcmp_cpuid_str (codes "0x00000000413fd0c0") (codes "0x00000000410fd0c1\n") ≡ 1)
    × (strcmp_cpuid_str (codes "0x00000000410fd0c0") (codes "0x00000000410fd490\n") ≡ 1)
unfolding strcmp_cpuid_str compare_ids variant revision field_get bf_shf midr_variant_mask
    midr_revision_mask id_fields genmask strtoull
compared = (refl, refl, refl)
