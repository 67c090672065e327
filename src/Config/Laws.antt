-- ===== src/Config/Laws.antt =====
-- What `parse_config_def` accepts, and what `apply_config_def_to_attr` changes.
use pmu_events.Apply.{apply_range_list_to_val}
use pmu_events.Apply.Gather.{
  AreFields, Outside, gather, span, IsApplied, apply_range_list_to_val-IsApplied,
}
use pmu_events.Base.{
  ℕ, ◌%◌, ◌^◌, ◌<◌, ◌≡◌, refl, ◌≢◌, ◌↔◌, Bool, true, false, ◌⊎◌, Option, none, some, ◌++◌, arith,
  Bytes, Option-cases, inl, inr,
}
use pmu_events.Config.{
  AttrVar, config, config1, config2, ConfigDef, PerfEventAttr, prefix, strip_var, parse_config_def,
  apply_to_member, apply_config_def_to_attr,
}
use pmu_events.Libc.Text.{strip_prefix, strip_prefix_sound}
use pmu_events.Commas.{parse_commas}
use pmu_events.Commas.Refine.{parse_commas-none}
use pmu_events.Range.{RangeList, parse_range, parse_range_list}
use pmu_events.Word.Bit.{bit}

strip_var-append : (v : AttrVar) (s : Bytes) → strip_var (prefix v ++ s) ≡ some (v, s)
unfolding strip_var strip_prefix
strip_var-append config s = refl
strip_var-append config1 s = refl
strip_var-append config2 s = refl

strip_var_sound :
    (term : Bytes) {v : AttrVar} {s : Bytes} → strip_var term ≡ some (v, s) → term ≡ prefix v ++ s
unfolding strip_var
strip_var_sound term {v} {s} h = elim (Option-cases (strip_prefix (prefix config) term)) [
  | inr (r, e) ↦ ground (arith, strip_prefix_sound (prefix config) term {r = r} e)
  | inl e ↦ elim (Option-cases (strip_prefix (prefix config1) term)) [
    | inr (r, e1) ↦ ground (arith, strip_prefix_sound (prefix config1) term {r = r} e1)
    | inl e1 ↦ elim (Option-cases (strip_prefix (prefix config2) term)) [
      | inr (r, e2) ↦ ground (arith, strip_prefix_sound (prefix config2) term {r = r} e2)
      | inl e2 ↦ absurd (ground arith)
    ]
  ]
]

-- A term gives a definition exactly if it is one of the three members' names with a colon, and
-- behind it a range list.
pub parse_config_def_iff :
    (realloc_ok : ℕ → Bool) (term : Bytes) (def : ConfigDef)
    → (parse_config_def realloc_ok term ≡ some def) ↔ (
        (s : Bytes) × (term ≡ prefix def.var ++ s)
        × (parse_range_list realloc_ok s ≡ some def.range))
unfolding parse_config_def
parse_config_def_iff realloc_ok term def = (
  λ h. elim (Option-cases (strip_var term)) [
    | inl e ↦ absurd (ground arith)
    | inr ((v, s), e) ↦ elim (Option-cases (parse_range_list realloc_ok s)) [
      | inl k ↦ absurd (ground arith)
      | inr (list, k) ↦ (s, ground (arith, strip_var_sound term {v = v} {s = s} e), ground arith)
    ]
  ],
  λ (s, e, k). rw (e, strip_var-append def.var s, k),
)

-- No definition for want of memory: then the array of ranges did not grow.
pub parse_config_def-none :
    (realloc_ok : ℕ → Bool) (term : Bytes)
    → parse_config_def realloc_ok term ≡ none
    → (parse_config_def (λ _. true) term ≡ none) ⊎ ((n : ℕ) × (realloc_ok n ≡ false))
unfolding parse_config_def parse_range_list
parse_config_def-none realloc_ok term h = elim (Option-cases (strip_var term)) [
  | inl e ↦ inl (rw (parse_config_def, e) refl)
  | inr ((v, s), e) ↦ elim (Option-cases (parse_commas realloc_ok parse_range s)) [
    | inr (list, k) ↦ absurd (ground arith)
    | inl k ↦ elim (parse_commas-none realloc_ok parse_range s k) [
      | inl n ↦ inl (rw (parse_config_def, e, parse_range_list, n) refl)
      | inr (n, le, f) ↦ inr (n, f)
    ]
  ]
]

-- The member that a definition names.
abbrev pub member : AttrVar → PerfEventAttr → ℕ
member config attr = attr.config
member config1 attr = attr.config1
member config2 attr = attr.config2

pub record IsPlaced (attr : PerfEventAttr) (val : ℕ) (def : ConfigDef)
    (result : Option PerfEventAttr) : Type 0 where
  pub out : PerfEventAttr
  pub returns : result ≡ some out
  pub same_type : out.type ≡ attr.type
  pub others : (v : AttrVar) → v ≢ def.var → member v out ≡ member v attr
  pub gathered : gather def.range (member def.var out) ≡ val % span def.range
  pub kept :
      (i : ℕ) → Outside def.range i → bit (member def.var out) i ≡ bit (member def.var attr) i
  pub word : member def.var out < 2 ^ 64

abbrev def_of : AttrVar → RangeList → ConfigDef
def_of v ranges = record { var = v; range = ranges }

apply_to_member-IsPlaced :
    (v : AttrVar) (attr : PerfEventAttr) (val : ℕ) (ranges : RangeList)
    → IsApplied ranges (member v attr) val (apply_range_list_to_val (member v attr) val ranges)
    → IsPlaced attr val (def_of v ranges) (apply_to_member v attr val ranges)
unfolding apply_to_member
apply_to_member-IsPlaced config attr val ranges a = record {
  out = record attr { config = a.out };
  returns = rw a.returns;
  same_type = refl;
  others = elim [ config ↦ λ ne. absurd (ne refl) | config1 ↦ λ _. refl | config2 ↦ λ _. refl ];
  gathered = a.gathered;
  kept = a.kept;
  word = a.word;
}
apply_to_member-IsPlaced config1 attr val ranges a = record {
  out = record attr { config1 = a.out };
  returns = rw a.returns;
  same_type = refl;
  others = elim [ config ↦ λ _. refl | config1 ↦ λ ne. absurd (ne refl) | config2 ↦ λ _. refl ];
  gathered = a.gathered;
  kept = a.kept;
  word = a.word;
}
apply_to_member-IsPlaced config2 attr val ranges a = record {
  out = record attr { config2 = a.out };
  returns = rw a.returns;
  same_type = refl;
  others = elim [ config ↦ λ _. refl | config1 ↦ λ _. refl | config2 ↦ λ ne. absurd (ne refl) ];
  gathered = a.gathered;
  kept = a.kept;
  word = a.word;
}

-- On bit ranges that do not overlap, none of them a whole word, and a member that is a 64-bit word:
-- the member that the definition names gets the low bits of the value in its ranges and keeps its
-- other bits, and the type and the other two members stay the same.
pub apply_config_def_to_attr-IsPlaced :
    (attr : PerfEventAttr) (val : ℕ) (def : ConfigDef)
    → member def.var attr < 2 ^ 64
    → AreFields def.range
    → IsPlaced attr val def (apply_config_def_to_attr attr val def)
unfolding apply_config_def_to_attr
apply_config_def_to_attr-IsPlaced attr val def h f =
    apply_to_member-IsPlaced def.var attr val def.range
      (apply_range_list_to_val-IsApplied def.range (member def.var attr) val h f)
