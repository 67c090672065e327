-- ===== src/CpuId/Match.antt =====
-- The text of MIDR_EL1 that `get_cpuid_str` returns, and its comparison by `strcmp_cpuid_str`.
use pmu_events.Base.{
  ℕ, zero, suc, ◌-◌, ◌^◌, ◌<◌, ◌≤◌, ◌≡◌, refl, ap, ◌∙◌, ◌≢◌, ◌↔◌, true, false, some, [], ◌∷◌, ◌++◌,
  Bytes, arith, length, length-append, Lacks, append-nil, All-append,
}
use pmu_events.CpuId.{read, midr_path, fgets, fgets_midr, get_cpuid_of, get_cpuid, get_cpuid_str}
use pmu_events.CpuMap.New.{CpuSystem}
use pmu_events.CpuMap.{PerfCpu, any_cpu}
use pmu_events.Libc.Number.Start.{strtoull_hex}
use pmu_events.Libc.Number.{
  Scanned, strtoull, finish_number, scan_digits, starts_with_digit, digit_value, is_digit,
}
use pmu_events.Libc.Print.Length.{length-print}
use pmu_events.Libc.Print.{
  print, reads, scan_digits-print, scan_digits_stop, starts_with_digit-print, finish_number_fits,
  print-Lacks,
}
use pmu_events.Midr.Order.{IsSamePart, midr, version, strcmp_cpuid_str_iff}
use pmu_events.Midr.{strcmp_cpuid_str}

-- `n` zeros.
unfoldable pub zeros : ℕ → Bytes
zeros zero = []
zeros (suc n) = b'0' ∷ zeros n

-- `0x%016llx`, as the kernel writes the register.
unfoldable pub midr_text : ℕ → Bytes
midr_text v = b'0' ∷ b'x' ∷ (zeros (16 - length (print 16 v)) ++ print 16 v)

length-zeros : (n : ℕ) → length (zeros n) ≡ n
unfolding zeros
length-zeros zero = refl
length-zeros (suc n) = ap suc (length-zeros n)

scan_digits-zeros : (n : ℕ) (s : Bytes) → scan_digits 16 0 (zeros n ++ s) ≡ scan_digits 16 0 s
unfolding scan_digits zeros digit_value is_digit
scan_digits-zeros zero s = refl
scan_digits-zeros (suc n) s = scan_digits-zeros n s

starts-zeros :
    (n : ℕ) (s : Bytes) → starts_with_digit 16 s ≡ true → starts_with_digit 16 (zeros n ++ s) ≡ true
unfolding zeros starts_with_digit digit_value is_digit
starts-zeros zero s h = h
starts-zeros (suc n) s h = refl

value_lem : (v : ℕ) → v < 2 ^ 64 → strtoull 16 (midr_text v) ≡ reads v []
unfolding midr_text
value_lem v h =
    let digits = print 16 v in
    let start : starts_with_digit 16 digits ≡ true =
      rw append-nil at (starts_with_digit-print 16 v [] (omega arith) (omega arith)) in
    let scanned : scan_digits 16 0 digits ≡ (v, []) =
      rw append-nil at (scan_digits-print 16 v [] (omega arith) (omega arith))
      ∙ scan_digits_stop 16 v [] (unfold starts_with_digit in refl) in
    strtoull_hex (zeros (16 - length digits) ++ digits)
      (starts-zeros (16 - length digits) digits start)
    ∙ ap (finish_number false) (scan_digits-zeros (16 - length digits) digits ∙ scanned)
    ∙ finish_number_fits v [] h

length-midr_text : (v : ℕ) → v < 2 ^ 64 → length (midr_text v) ≡ 18
unfolding midr_text
length-midr_text v h = omega (
  arith,
  length-append (zeros (16 - length (print 16 v))) (print 16 v),
  length-zeros (16 - length (print 16 v)),
  length-print 16 15 v (omega arith) (omega arith),
)

-- `fgets` stores a text of that many bytes, and not the newline behind it.
fgets_all : (s t : Bytes) → Lacks b'\n' s → fgets (length s) (s ++ t) ≡ s
unfolding fgets
fgets_all [] [] h = refl
fgets_all [] (c ∷ t) h = refl
fgets_all (c ∷ s) t (hc, h) = ground (arith, fgets_all s t h)

zeros-Lacks : (n : ℕ) → Lacks b'\n' (zeros n)
unfolding zeros
zeros-Lacks zero = tt
zeros-Lacks (suc n) = (omega arith, zeros-Lacks n)

midr_text-Lacks : (v : ℕ) → Lacks b'\n' (midr_text v)
unfolding midr_text
midr_text-Lacks v =
    let digits =
      print-Lacks 16 v b'\n' (omega arith) (omega arith)
        (unfold digit_value is_digit in omega arith) in
    (
      omega arith,
      (
        omega arith,
        All-append (λ c. c ≢ b'\n') (zeros (16 - length (print 16 v))) (print 16 v)
            (zeros-Lacks (16 - length (print 16 v))) digits,
      ),
    )

fgets_midr_lem : (v : ℕ) → v < 2 ^ 64 → fgets_midr (midr_text v ++ b'\n' ∷ []) ≡ some (midr_text v)
fgets_midr_lem v h =
    let stored =
      rw (length-midr_text v h) at (fgets_all (midr_text v) (b'\n' ∷ []) (midr_text-Lacks v)) in
    unfold fgets_midr midr_text in ap some (unfold midr_text in stored)

-- If the file of a CPU holds a 64-bit register as the kernel writes it, `get_cpuid_str` returns its
-- 18 digits without the newline, provided `malloc` gives the buffer; this text matches an
-- identifier of the table exactly if the register has the identifier's part, and no version below
-- it.
pub get_cpuid_str-match :
    (sys : CpuSystem) (cpu : PerfCpu) (v : ℕ) (mapcpuid : Bytes)
    → cpu ≢ any_cpu
    → v < 2 ^ 64
    → sys.contents (midr_path cpu) ≡ some (midr_text v ++ b'\n' ∷ [])
    → (get_cpuid_str sys true cpu ≡ read (midr_text v))
      × ((strcmp_cpuid_str mapcpuid (midr_text v) ≡ 0)
          ↔ (IsSamePart (midr mapcpuid) v × (version (midr mapcpuid) ≤ version v)))
unfolding get_cpuid_str get_cpuid get_cpuid_of
get_cpuid_str-match sys cpu v mapcpuid ne h e = (
  ground (arith, e, fgets_midr_lem v h),
  rw (ap (λ (s : Scanned). s.value) (value_lem v h)) at
      (strcmp_cpuid_str_iff mapcpuid (midr_text v)),
)
