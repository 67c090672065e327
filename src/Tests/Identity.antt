-- ===== src/Tests/Identity.antt =====
-- Identifiers of arm64 CPUs, and the reader of their files.
use pmu_events.Base.{◌≡◌, ◌≤◌, ◌↔◌, refl, some, List, [], ◌∷◌, true, Bytes, codes}
use pmu_events.Libc.Number.{strtoull}
use pmu_events.Midr.Order.{IsSamePart, midr, version, strcmp_cpuid_str_iff}
use pmu_events.Midr.{
  genmask, bf_shf, field_get, midr_revision_mask, midr_variant_mask, variant, revision, id_fields,
  compare_ids, strcmp_cpuid_str,
}
use pmu_events.Reader.Lines.{IsLine, io_getdelim-IsLine}
use pmu_events.Reader.Stream.{unread}
use pmu_events.Reader.{Answer, io_init, io_getdelim, is_delim}

abbrev r1p0 : Bytes
r1p0 = codes "0x00000000411fd0c0"

abbrev r3p1 : Bytes
r3p1 = codes "0x00000000413fd0c1"

abbrev r4p0 : Bytes
r4p0 = codes "0x00000000414fd0c0"

strcmp_cpuid_str_iff_example :
    (strcmp_cpuid_str r1p0 r3p1 ≡ 0)
    ↔ (IsSamePart (midr r1p0) (midr r3p1) × (version (midr r1p0) ≤ version (midr r3p1)))
strcmp_cpuid_str_iff_example = strcmp_cpuid_str_iff r1p0 r3p1

later_versions : (strcmp_cpuid_str r1p0 r3p1 ≡ 0) × (strcmp_cpuid_str r3p1 r4p0 ≡ 0)
unfolding strcmp_cpuid_str compare_ids variant revision field_get bf_shf midr_variant_mask
    midr_revision_mask id_fields genmask strtoull
later_versions = (refl, refl)

-- A list of CPUs that comes in two pieces.
abbrev pieces : List Answer
pieces =
    record { readable = true; bytes = codes "0-3\n8" }
    ∷ record { readable = true; bytes = codes "-9\n" }
    ∷ []

io_getdelim-IsLine_example :
    IsLine
      (some b'\n')
      []
      (unread (io_init pieces))
      (io_getdelim (λ n. true) (io_init pieces) (some b'\n'))
unfolding is_delim
io_getdelim-IsLine_example =
    io_getdelim-IsLine (λ n. true) (λ n. refl) (io_init pieces) (some b'\n') refl
