-- ===== src/Config.antt =====
-- `struct config_def` of include/pmu-events/_impl/pmu-events.h with its parser, and
-- `apply_config_def_to_attr`, in src/pmu-events.c.
pub mod Laws
use pmu_events.Apply.{apply_range_list_to_val}
use pmu_events.Base.{ℕ, Bool, Option, none, some, Bytes, codes}
use pmu_events.Libc.Text.{strip_prefix}
use pmu_events.Range.{RangeList, parse_range_list}
use pmu_events.Word.{◌>>=◌}

-- `enum ATTR_VAR`
pub data AttrVar : Type 0 where
  config config1 config2 : AttrVar

pub record ConfigDef : Type 0 where
  pub var : AttrVar
  pub range : RangeList

-- The members of `struct perf_event_attr` that the library sets. `type` is 32 bits wide.
pub record PerfEventAttr : Type 0 where
  pub type : ℕ
  pub config : ℕ
  pub config1 : ℕ
  pub config2 : ℕ

abbrev pub prefix : AttrVar → Bytes
prefix config = codes "config:"
prefix config1 = codes "config1:"
prefix config2 = codes "config2:"

-- The member that the term starts with, and `start_term`, the text behind its colon.
unfoldable pub strip_var : Bytes → Option (AttrVar × Bytes)
strip_var term = elim (strip_prefix (prefix config) term) [
  | some start_term ↦ some (config, start_term)
  | none ↦ elim (strip_prefix (prefix config1) term) [
    | some start_term ↦ some (config1, start_term)
    | none ↦ elim (strip_prefix (prefix config2) term) [
      | some start_term ↦ some (config2, start_term)
      | none ↦ none
    ]
  ]
]

unfoldable pub parse_config_def : (ℕ → Bool) → Bytes → Option ConfigDef
parse_config_def realloc_ok term = do
  (var, start_term) ← strip_var term
  ranges ← parse_range_list realloc_ok start_term
  some (record { var = var; range = ranges })

-- The member is set in place; `none` is an undefined shift.
unfoldable pub apply_to_member : AttrVar → PerfEventAttr → ℕ → RangeList → Option PerfEventAttr
apply_to_member config attr val ranges = do
  c ← apply_range_list_to_val attr.config val ranges
  some (record attr { config = c })
apply_to_member config1 attr val ranges = do
  c ← apply_range_list_to_val attr.config1 val ranges
  some (record attr { config1 = c })
apply_to_member config2 attr val ranges = do
  c ← apply_range_list_to_val attr.config2 val ranges
  some (record attr { config2 = c })

unfoldable pub apply_config_def_to_attr : PerfEventAttr → ℕ → ConfigDef → Option PerfEventAttr
unfolding apply_to_member
apply_config_def_to_attr attr val def = apply_to_member def.var attr val def.range
