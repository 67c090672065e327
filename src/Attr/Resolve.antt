-- ===== src/Attr/Resolve.antt =====
-- Which bits the assignments of an event go to, apart from how they are stored.
use pmu_events.Apply.Gather.{AreFields, Outside}
use pmu_events.Assign.{Assignment}
use pmu_events.Base.{ℕ, ◌^◌, ◌<◌, ◌≡◌, ◌≢◌, ◌⊎◌, some, List, [], ◌∷◌, arith, All, Bytes, codes}
use pmu_events.Attr.{done, apply_format, apply_assignment}
use pmu_events.Config.{
  AttrVar, ConfigDef, PerfEventAttr, parse_config_def, apply_config_def_to_attr,
}
use pmu_events.Config.Laws.{member}
use pmu_events.Files.{get_format_file_content}
use pmu_events.Libc.Text.{streq_iff}
use pmu_events.Pmu.{PmuInstance}
use pmu_events.System.{System}

-- A value and the bits that it goes to.
pub record Placement : Type 0 where
  pub def : ConfigDef
  pub value : ℕ

-- The members of the attributes are 64-bit words.
abbrev pub AreWords : PerfEventAttr → Type 0
AreWords attr = (v : AttrVar) → member v attr < 2 ^ 64

-- Bit `i` of member `v` is in none of the places.
abbrev pub Untouched : List Placement → AttrVar → ℕ → Type 0
Untouched places v i = All (λ p. (p.def.var ≢ v) ⊎ Outside p.def.range i) places

module _ (sys : System) (pmu_instance : PmuInstance) where
  -- The file `format/KEY` of the instance holds the definition.
  pub record HasFormat (key : Bytes) (def : ConfigDef) : Type 0 where
    pub text : Bytes
    pub content : get_format_file_content sys key pmu_instance ≡ some text
    pub parses : parse_config_def sys.realloc_ok text ≡ some def

  -- The places of the assignments, in order; `period` has none.
  pub data Resolves : List Assignment → List Placement → Type 0 where
    nil : Resolves [] []
    skip :
        {asn : Assignment} {list : List Assignment} {places : List Placement}
        → asn.key ≡ codes "period"
        → Resolves list places
        → Resolves (asn ∷ list) places
    place :
        {asn : Assignment} {def : ConfigDef} {list : List Assignment} {places : List Placement}
        → asn.key ≢ codes "period"
        → HasFormat asn.key def
        → AreFields def.range
        → Resolves list places
        → Resolves (asn ∷ list) (record { def = def; value = asn.value } ∷ places)

  pub apply_assignment_period :
      (attr : PerfEventAttr) (asn : Assignment)
      → asn.key ≡ codes "period"
      → apply_assignment sys pmu_instance attr asn ≡ done attr
  unfolding apply_assignment
  apply_assignment_period attr asn e = rw ((streq_iff asn.key (codes "period")).1 e)

  pub apply_assignment_place :
      (attr out : PerfEventAttr) (asn : Assignment) (def : ConfigDef)
      → asn.key ≢ codes "period"
      → HasFormat asn.key def
      → apply_config_def_to_attr attr asn.value def ≡ some out
      → apply_assignment sys pmu_instance attr asn ≡ done out
  unfolding apply_assignment apply_format
  apply_assignment_place attr out asn def ne f e =
      ground (arith, streq_iff asn.key (codes "period"), f.content, f.parses)
