-- ===== src/Tests/Parsing.antt =====
-- Range lists, assignments and format definitions.
use pmu_events.Apply.Defined.{apply_range-none_iff}
use pmu_events.Apply.Gather.{AreFields, IsApplied, apply_range_list_to_val-IsApplied}
use pmu_events.Apply.{range_len, apply_range, apply_range_list_to_val}
use pmu_events.Assign.Decimal.{decimal_field, parse_assignment-encode_decimal}
use pmu_events.Assign.Encode.{
  hexadecimal, decimal, Field, encode, encode_list, assignment_of, IsKey,
  parse_assignment_list-encode_list,
}
use pmu_events.Assign.Laws.{Assigns, parse_assignment_iff, parse_assignment_list-split}
use pmu_events.Assign.{asn, parse_assignment, parse_assignment_list}
use pmu_events.Base.{
  ℕ, ◌-◌, ◌<◌, ◌≤◌, ◌≡◌, refl, ◌↔◌, ◌⊎◌, inl, true, none, some, [], ◌∷◌, ◌++◌, arith, Bytes, codes,
  map, length, if◌then◌else◌, traverse,
}
use pmu_events.Commas.{parse_commas}
use pmu_events.Commas.Refine.{can_grow}
use pmu_events.Commas.Split.{split}
use pmu_events.Config.Laws.{IsPlaced, apply_config_def_to_attr-IsPlaced, parse_config_def_iff}
use pmu_events.Config.{
  config1, ConfigDef, PerfEventAttr, prefix, parse_config_def, apply_config_def_to_attr,
}
use pmu_events.Libc.Number.{strtoull}
use pmu_events.Libc.Text.{strchr, starts_with}
use pmu_events.Range.Print.{print_cpus}
use pmu_events.Range.RoundTrip.{parse_range_list-print_cpus}
use pmu_events.Range.{RangeList, range, parse_range, parse_range_list}
use pmu_events.Word.{shift_left, shift_right}

parse_range_list-print_cpus_example :
    parse_range_list (λ _. true) (print_cpus (range 0 17 ∷ range 36 36 ∷ []))
    ≡ some (range 0 17 ∷ range 36 36 ∷ [])
parse_range_list-print_cpus_example =
    parse_range_list-print_cpus (range 0 17) (range 36 36 ∷ []) (omega arith, omega arith)
      ((omega arith, omega arith), tt)

two_terms : parse_range_list (λ _. true) (codes "0-3,8") ≡ some (range 0 3 ∷ range 8 8 ∷ [])
unfolding parse_range_list parse_commas parse_range strchr strtoull starts_with
two_terms = refl

name_IsKey : IsKey (codes "cmask")
name_IsKey = record { has_key = cc; no_comma = omega arith; no_equal = omega arith }

abbrev mask_field : Field
mask_field = record { key = codes "cmask"; val = hexadecimal 16 }

abbrev digit_field : Field
digit_field = record { key = codes "cmask"; val = decimal 3 }

parse_assignment_list-encode_list_example :
    parse_assignment_list (λ _. true) (encode_list (mask_field ∷ digit_field ∷ []))
    ≡ some (map assignment_of (mask_field ∷ digit_field ∷ []))
parse_assignment_list-encode_list_example =
    parse_assignment_list-encode_list mask_field (digit_field ∷ [])
      ((name_IsKey, omega arith), ((name_IsKey, omega arith), tt))

parse_assignment_list-split_example :
    parse_assignment_list (λ _. true) (codes "event=0x3c,inv=1") ≡ (
      if can_grow (λ _. true) 0 (length (split b',' (codes "event=0x3c,inv=1")))
      then traverse parse_assignment (split b',' (codes "event=0x3c,inv=1"))
      else none)
parse_assignment_list-split_example =
    parse_assignment_list-split (λ _. true) (codes "event=0x3c,inv=1")

parse_assignment_iff_example :
    (parse_assignment (codes "umask=0x1f") ≡ some (asn (codes "umask") 31))
    ↔ Assigns (codes "umask=0x1f") (asn (codes "umask") 31)
parse_assignment_iff_example = parse_assignment_iff (codes "umask=0x1f") (asn (codes "umask") 31)

parse_assignment-encode_decimal_example :
    (v : ℕ) × (parse_assignment (encode (decimal_field (codes "cmask") 16))
      ≡ some (asn (codes "cmask") v))
    × (16 < v)
parse_assignment-encode_decimal_example =
    parse_assignment-encode_decimal (codes "cmask") 16 name_IsKey (omega arith) (omega arith)

-- Bits 8 to 15, then bits 40 to 47.
abbrev umask_bits : RangeList
umask_bits = range 8 15 ∷ range 40 47 ∷ []

umask_bits-AreFields : AreFields umask_bits
umask_bits-AreFields = (
  record { ordered = omega arith; inside = omega arith; partial = omega arith },
  (inl (omega arith), tt),
  (record { ordered = omega arith; inside = omega arith; partial = omega arith }, tt, tt),
)

two_fields : apply_range_list_to_val 0xff 0x1234 umask_bits ≡ some 0x1200000034ff
unfolding apply_range_list_to_val shift_right range_len shift_left
two_fields = refl

apply_range_list_to_val-IsApplied_example :
    IsApplied umask_bits 0xff 0x1234 (apply_range_list_to_val 0xff 0x1234 umask_bits)
apply_range_list_to_val-IsApplied_example =
    apply_range_list_to_val-IsApplied umask_bits 0xff 0x1234 (omega arith) umask_bits-AreFields

apply_range-none_iff_example :
    (apply_range 0 5 (range 0 63) ≡ none) ↔ ((64 ≤ 0) ⊎ (63 < 0) ⊎ (63 ≤ 63 - 0))
apply_range-none_iff_example = apply_range-none_iff 0 5 (range 0 63) (omega arith, omega arith)

abbrev attr : PerfEventAttr
attr = record { type = 4; config = 0xff; config1 = 0; config2 = 9 }

abbrev umask_def : ConfigDef
umask_def = record { var = config1; range = umask_bits }

apply_config_def_to_attr-IsPlaced_example :
    IsPlaced attr 0x1234 umask_def (apply_config_def_to_attr attr 0x1234 umask_def)
apply_config_def_to_attr-IsPlaced_example =
    apply_config_def_to_attr-IsPlaced attr 0x1234 umask_def (omega arith) umask_bits-AreFields

parse_config_def_iff_example :
    (parse_config_def (λ _. true) (codes "config1:8-15,40-47") ≡ some umask_def) ↔ (
      (s : Bytes) × (codes "config1:8-15,40-47" ≡ prefix config1 ++ s)
      × (parse_range_list (λ _. true) s ≡ some umask_bits))
parse_config_def_iff_example =
    parse_config_def_iff (λ _. true) (codes "config1:8-15,40-47") umask_def
