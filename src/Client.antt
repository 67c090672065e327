-- ===== src/Client.antt =====
-- `read_event` of examples/main.c, a client of the library: it opens the event on each instance that
-- has it, and reads the counters in turn.
pub mod Print
pub mod Collect
pub mod Laws
pub mod Named
pub mod Crash
pub mod Reads
use pmu_events.Attr.{Generated, done, failed, undefined, gen_attr_for_event}
use pmu_events.Base.{
  ℕ, zero, suc, ◌+◌, ◌≡◌, refl, Bool, true, false, Option, none, some, List, [], ◌∷◌, ◌++◌, Bytes,
  codes, length, if◌then◌else◌,
}
use pmu_events.Config.{PerfEventAttr}
use pmu_events.Event.{Search, found, missing, crashed, get_event_by_name}
use pmu_events.Libc.Text.{streq}
use pmu_events.Pmu.{PmuEvent, PmuTableEntry, PmuInstance, PmuClass}
use pmu_events.Pmus.{added, refused, overrun, add_classes}
use pmu_events.Range.{Range, RangeList}
use pmu_events.System.{System}

-- `struct whole_ev`; `pmu_instance` is its member `instance`.
pub record WholeEv : Type 0 where
  pub pmu_instance : PmuInstance
  pub ev : PmuEvent
  pub attr : PerfEventAttr
  pub fd : ℕ

-- How `read_event` ends, or `reading` with what `evs` holds; `stuck` is a NULL that is used, memory
-- that is not owned, or a shift that C leaves undefined.
pub data Outcome : Type 0 where
  no_match : Outcome
  not_generated : Option Bytes → Outcome
  not_opened : Outcome
  reading : List WholeEv → Outcome
  stuck : Outcome

infixl 5 ◌>>=◌
abbrev pub ◌>>=◌ : Outcome → (List WholeEv → Outcome) → Outcome
no_match >>= f = no_match
not_generated name >>= f = not_generated name
not_opened >>= f = not_opened
reading evs >>= f = f evs
stuck >>= f = stuck

-- `evs` with one more in front.
unfoldable pub and_ev : WholeEv → Outcome → Outcome
and_ev w rest = rest >>= λ evs. reading (w ∷ evs)

-- `cpus.ranges[0].start`
unfoldable pub first_cpu : RangeList → Option ℕ
first_cpu [] = none
first_cpu (r ∷ ranges) = some r.start

-- The `memset` starts at `attr.size` with the size of all of `attr`: it sets the members from `size`
-- on to 0, and the four bytes behind `attr`, which are `fd`.
unfoldable pub cleared : WholeEv → WholeEv
cleared w = record w { attr = record w.attr { config = 0; config1 = 0; config2 = 0 }; fd = 0 }

-- One line that the reading loop prints.
pub record Line : Type 0 where
  pub instance_name : Bytes
  pub event_name : Option Bytes
  pub count : ℕ

-- One round over `evs`. `answer` is the count that `read` stores; when it fails, `count` is printed as
-- it was.
unfoldable pub read_round : (ℕ → Option ℕ) → ℕ → List WholeEv → List Line
read_round answer count [] = []
read_round answer count (w ∷ evs) =
    let count' : ℕ = elim (answer w.fd) [ none ↦ count | some n ↦ n ] in
    record { instance_name = w.pmu_instance.name; event_name = w.ev.name; count = count' }
    ∷ read_round answer count' evs

-- `main` without `argv[0]`: what it calls, or the -1.
pub data Command : Type 0 where
  listing : Command
  reading_of : Bytes → Command
  usage : Command

unfoldable pub main : List Bytes → Command
main [] = usage
main (command ∷ args) =
    if streq command (codes "list")
    then listing
    else if streq command (codes "read")
    then elim args [ [] ↦ usage | (ev ∷ []) ↦ reading_of ev | (ev ∷ more ∷ rest) ↦ usage ]
    else usage

-- What surrounds `read_event`: the kernel with the allocator, functions of the generated file, the
-- system call with how often it was called before and `none` for its -1, and what memory from `realloc`
-- holds.
pub record Env : Type 0 where
  pub sys : System
  pub get_pmu_name : PmuTableEntry → Bytes
  pub decompress_event : ℕ → PmuEvent
  pub perf_event_open : ℕ → PerfEventAttr → ℕ → Option ℕ
  pub uninit : WholeEv

module _ (env : Env) (ev : Bytes) where
  unfoldable pub add_ev : List WholeEv → PmuInstance → Option (List WholeEv)
  add_ev evs cur_instance = elim (get_event_by_name env.decompress_event cur_instance ev) [
    | found pmu_ev ↦
        if env.sys.realloc_ok (length evs + 1)
        then some (evs ++ record env.uninit { pmu_instance = cur_instance; ev = pmu_ev } ∷ [])
        else none
    | missing ↦ some evs
    | crashed ↦ none
  ]

  unfoldable pub add_instances : List WholeEv → List PmuInstance → Option (List WholeEv)
  add_instances evs [] = some evs
  add_instances evs (cur_instance ∷ instances) = elim (add_ev evs cur_instance) [
    | none ↦ none
    | some evs' ↦ add_instances evs' instances
  ]

  unfoldable pub add_class_evs : List WholeEv → List PmuClass → Option (List WholeEv)
  add_class_evs evs [] = some evs
  add_class_evs evs (pmu_class ∷ classes) = elim (add_instances evs pmu_class.instances) [
    | none ↦ none
    | some evs' ↦ add_class_evs evs' classes
  ]

  unfoldable pub gen_attrs : List WholeEv → Outcome
  unfolding cleared
  gen_attrs [] = reading []
  gen_attrs (w ∷ evs) = elim (gen_attr_for_event env.sys w.pmu_instance w.ev (cleared w).attr) [
    | done attr ↦ and_ev (record (cleared w) { attr = attr }) (gen_attrs evs)
    | failed attr ↦ not_generated w.ev.name
    | undefined ↦ stuck
  ]

  unfoldable pub open_evs : ℕ → List WholeEv → Outcome
  open_evs n [] = reading []
  open_evs n (w ∷ evs) = elim (first_cpu w.pmu_instance.cpus) [
    | none ↦ stuck
    | some cpu ↦ elim (env.perf_event_open n w.attr cpu) [
      | none ↦ not_opened
      | some fd ↦ and_ev (record w { fd = fd }) (open_evs (n + 1) evs)
    ]
  ]

  unfoldable pub open_all : List WholeEv → Outcome
  open_all [] = no_match
  open_all (w ∷ evs) = do generated ← gen_attrs (w ∷ evs); open_evs 0 generated

  -- The result of `get_pmus` is not tested: without classes there is no match. When memory ran out for
  -- the first class, `num_classes` is 1 and `classes` NULL, which is read.
  unfoldable pub read_event : Option (List PmuTableEntry) → Outcome
  read_event none = stuck
  read_event (some pmus) = elim (add_classes env.sys env.get_pmu_name [] pmus) [
    | added classes ↦ elim (add_class_evs [] classes) [ none ↦ stuck | some evs ↦ open_all evs ]
    | refused ↦ stuck
    | overrun ↦ stuck
  ]
