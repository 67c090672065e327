-- ===== src/CpuId/Online.antt =====
-- `get_cpuid` for any CPU: the online CPUs in turn.
use pmu_events.Base.{
  ◌≡◌, refl, ap, ◌∙◌, ◌⊎◌, ◌↔◌, inl, inr, some, [], ◌∷◌, Bytes, arith, Option-cases,
}
use pmu_events.CpuId.{
  Cpuid, read, einval, aborted, get_cpuid_of, first_cpuid, perf_cpu_map_new_online_cpus, get_cpuid,
}
use pmu_events.CpuMap.New.{CpuSystem}
use pmu_events.CpuMap.{PerfCpu, PerfCpuMap, any_cpu}

module _ (sys : CpuSystem) where
  -- The text is that of the first CPU whose file can be read.
  pub data FirstRead (buf : Bytes) : PerfCpuMap → Type 0 where
    here :
        {cpu : PerfCpu} {cpus : PerfCpuMap}
        → get_cpuid_of sys cpu ≡ read buf
        → FirstRead buf (cpu ∷ cpus)
    there :
        {cpu : PerfCpu} {cpus : PerfCpuMap}
        → get_cpuid_of sys cpu ≡ einval
        → FirstRead buf cpus
        → FirstRead buf (cpu ∷ cpus)

  Cpuid-cases : (c : Cpuid) → ((buf : Bytes) × (c ≡ read buf)) ⊎ ((c ≡ einval) ⊎ (c ≡ aborted))
  Cpuid-cases (read buf) = inl (buf, refl)
  Cpuid-cases einval = inr (inl refl)
  Cpuid-cases aborted = inr (inr refl)

  first_cpuid_complete :
      (buf : Bytes) {cpus : PerfCpuMap} → FirstRead buf cpus → first_cpuid sys cpus ≡ read buf
  unfolding first_cpuid
  first_cpuid_complete buf (here e) = rw (first_cpuid, e) refl
  first_cpuid_complete buf (there e rest) = rw (first_cpuid, e) (first_cpuid_complete buf rest)

  first_cpuid_sound :
      (buf : Bytes) (cpus : PerfCpuMap) → first_cpuid sys cpus ≡ read buf → FirstRead buf cpus
  unfolding first_cpuid
  first_cpuid_sound buf [] h = cc
  first_cpuid_sound buf (cpu ∷ cpus) h = elim (Cpuid-cases (get_cpuid_of sys cpu)) [
    | inl (b, e) ↦ let same : b ≡ buf = ground arith in here (e ∙ ap read same)
    | inr (inl e) ↦ there e (first_cpuid_sound buf cpus (rw (first_cpuid, e) at h))
    | inr (inr e) ↦ absurd (ground arith)
  ]

  -- For any CPU, `get_cpuid` returns a text exactly if there is a map of the online CPUs, and the
  -- text is that of the first of them whose register can be read, those in front of it ending in
  -- EINVAL.
  pub get_cpuid-any_iff :
      (buf : Bytes)
      → (get_cpuid sys any_cpu ≡ read buf) ↔ (
          (cpus : PerfCpuMap) × (perf_cpu_map_new_online_cpus sys ≡ some cpus) × FirstRead buf cpus)
  unfolding get_cpuid
  get_cpuid-any_iff buf = (
    λ h. elim (Option-cases (perf_cpu_map_new_online_cpus sys)) [
      | inl e ↦ absurd (ground arith)
      | inr (cpus, e) ↦ (cpus, e, first_cpuid_sound buf cpus (rw e at h))
    ],
    λ (cpus, e, first). rw e (first_cpuid_complete buf first),
  )
