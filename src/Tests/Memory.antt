-- ===== src/Tests/Memory.antt =====
-- What the library allocates and frees on the sample system, from a memory with no live block.
use pmu_events.Assign
use pmu_events.Assign.{make_assignment, parse_value, asn}
use pmu_events.Attr
use pmu_events.Attr.{done}
use pmu_events.Base.{◌≡◌, ◌≢◌, refl, Bool, true, false, Option, none, some, [], ◌∷◌, codes}
use pmu_events.Config
use pmu_events.Config.{PerfEventAttr}
use pmu_events.Free.{Block, free, release}
use pmu_events.Libc.Number.{strtoull}
use pmu_events.Libc.Text.{strchr, streq}
use pmu_events.Memory.{Memory, ◌>>=◌, malloc, freeing, touch, realloc, allot}
use pmu_events.Memory.Holds.{IsFresh}
use pmu_events.Memory.Owning.{owning}
use pmu_events.Memory.Triple.{Gives, Always}
use pmu_events.Owned.Assign.{key_blocks, parse_assignment, parse_assignment_list}
use pmu_events.Owned.Attr.{gen_attr_for_event}
use pmu_events.Owned.Attr.Loss.{IsLoss}
use pmu_events.Owned.Balance.{
  IsRestored, get_pmus-Gives, get_pmus-freed, parse_assignment_list-Gives, free_parsed_def,
  parse_config_def-freed, gen_attr_for_event-Gives, gen_attr_for_event-done,
}
use pmu_events.Owned.Commas.{failed, parse_commas}
use pmu_events.Owned.Commas.Laws.{parsed_blocks, values_of}
use pmu_events.Owned.Commas.Lost.{LostFirst}
use pmu_events.Owned.Pmus.{get_pmus, free_listed}
use pmu_events.Owned.Pmus.Laws.{listed_blocks, listing_of}
use pmu_events.Owned.Range.{parse_config_def}
use pmu_events.Pmus
use pmu_events.Tests.Attributes.{attr, load_attr}
use pmu_events.Tests.Folders.{sample_pmus}
use pmu_events.Tests.Samples.{
  sample, cpu_instance, load_event, core_pmu, imc_pmu, get_pmu_name_sample,
}

abbrev empty : Memory
empty = record { next = 0; live = λ b. false }

empty-IsFresh : IsFresh empty
empty-IsFresh b h = refl

sample_pmus-ne :
    Pmus.get_pmus sample get_pmu_name_sample (some (core_pmu ∷ imc_pmu ∷ [])) ≢ Pmus.crashed
sample_pmus-ne u = cc (u, sample_pmus)

load_attr-ne : Attr.gen_attr_for_event sample cpu_instance load_event attr ≢ Attr.undefined
load_attr-ne u = cc (u, load_attr)

get_pmus-Gives_example :
    Gives empty
      (get_pmus sample get_pmu_name_sample (some (core_pmu ∷ imc_pmu ∷ [])) empty)
      listed_blocks
      (λ r.
        listing_of r ≡ Pmus.get_pmus sample get_pmu_name_sample (some (core_pmu ∷ imc_pmu ∷ [])))
get_pmus-Gives_example =
    get_pmus-Gives sample get_pmu_name_sample (some (core_pmu ∷ imc_pmu ∷ [])) empty empty-IsFresh
      sample_pmus-ne

get_pmus-freed_example :
    IsRestored empty
      ((get_pmus sample get_pmu_name_sample (some (core_pmu ∷ imc_pmu ∷ [])) >>= free_listed) empty)
      Always
get_pmus-freed_example =
    get_pmus-freed sample get_pmu_name_sample (some (core_pmu ∷ imc_pmu ∷ [])) empty empty-IsFresh
      sample_pmus-ne

parse_assignment_list-Gives_example :
    Gives empty
      (parse_assignment_list (λ n. true) (codes "event=0xa3,umask") empty)
      (parsed_blocks key_blocks)
      (λ r.
        (values_of (λ asn. asn.value) r
          ≡ Assign.parse_assignment_list (λ n. true) (codes "event=0xa3,umask"))
        × LostFirst (λ asn. asn.value) Assign.parse_assignment (codes "event=0xa3,umask") r)
parse_assignment_list-Gives_example =
    parse_assignment_list-Gives (λ n. true) (codes "event=0xa3,umask") empty empty-IsFresh

abbrev is_live : {A : Type 0} → Block → Option (A × Memory) → Option (A × Bool)
is_live b none = none
is_live b (some (a, m)) = some (a, m.live b)

-- The key of the first term is lost when the second one is refused.
key_lost :
    is_live 2 (parse_assignment_list (λ n. true) (codes "event=0xa3,umask") empty)
    ≡ some (failed (owning (asn (codes "event") 0xa3) (record { key = some 2 }) ∷ []), true)
unfolding parse_assignment_list parse_commas parse_assignment Assign.parse_assignment
    make_assignment parse_value strchr streq strtoull malloc freeing free release touch realloc
    allot
key_lost = refl

parse_config_def-freed_example :
    IsRestored empty
      ((parse_config_def (λ n. true) (codes "config1:1,6-10,44") >>= free_parsed_def) empty)
      (λ r. r ≡ Config.parse_config_def (λ n. true) (codes "config1:1,6-10,44"))
parse_config_def-freed_example =
    parse_config_def-freed (λ n. true) (codes "config1:1,6-10,44") empty empty-IsFresh

gen_attr_for_event-Gives_example :
    Gives empty
      (gen_attr_for_event sample cpu_instance load_event attr empty)
      (λ o. o.lost)
      (λ o.
        (o.generated ≡ Attr.gen_attr_for_event sample cpu_instance load_event attr)
        × IsLoss sample cpu_instance load_event o)
gen_attr_for_event-Gives_example =
    gen_attr_for_event-Gives sample cpu_instance load_event attr empty empty-IsFresh load_attr-ne

abbrev load_out : PerfEventAttr
load_out = record { type = 4; config = 0x120d1; config1 = 0; config2 = 9 }

gen_attr_for_event-done_example :
    IsRestored empty
      (gen_attr_for_event sample cpu_instance load_event attr empty)
      (λ o. o.generated ≡ done load_out)
gen_attr_for_event-done_example =
    gen_attr_for_event-done sample cpu_instance load_event attr empty empty-IsFresh load_attr
