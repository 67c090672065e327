-- ===== src/Pmu.antt =====
-- The structs of include/pmu-events/types.h for events, PMU instances and PMU classes.
-- A string that may be NULL is an `Option`, and an array with its length is a list.
use pmu_events.Base.{ℕ, Bool, Option, List, Bytes}
use pmu_events.Range.{RangeList}

pub record PmuEvent : Type 0 where
  pub name : Option Bytes
  pub compat : Option Bytes
  pub event : Option Bytes
  pub desc : Option Bytes
  pub topic : Option Bytes
  pub long_desc : Option Bytes
  pub pmu : Option Bytes
  pub unit : Option Bytes
  pub retirement_latency_mean : Option Bytes
  pub retirement_latency_min : Option Bytes
  pub retirement_latency_max : Option Bytes
  pub perpkg : Bool
  pub deprecated : Bool

-- An offset into the big string of the generated file.
pub record CompactPmuEvent : Type 0 where
  pub offset : ℕ

pub record PmuTableEntry : Type 0 where
  pub entries : List CompactPmuEvent
  pub pmu_name : CompactPmuEvent

pub record PmuInstance : Type 0 where
  pub cpus : RangeList
  pub name : Bytes
  pub entries : List CompactPmuEvent

pub record PmuClass : Type 0 where
  pub name : Bytes
  pub instances : List PmuInstance
