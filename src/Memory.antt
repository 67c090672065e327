-- ===== src/Memory.antt =====
-- Code that allocates and frees, as actions on a memory: which blocks are live, and where the next one
-- will be. `none` is what C leaves undefined, such as freeing a block that is not live.
pub mod Holds
pub mod Owning
pub mod Triple
use pmu_events.Base.{ℕ, ◌+◌, Bool, true, false, ◌==◌, if◌then◌else◌, Option, none, some}
use pmu_events.Free.{Block, Heap, release, free}

pub record Memory : Type 0 where
  pub next : Block
  pub live : Heap

abbrev pub Mem : Type 0 → Type 0
Mem A = Memory → Option (A × Memory)

abbrev pub pure : {A : Type 0} → A → Mem A
pure a m = some (a, m)

infixl 5 ◌>>=◌ ◌>>◌
abbrev pub ◌>>=◌ : {A B : Type 0} → Mem A → (A → Mem B) → Mem B
◌>>=◌ f g m = elim (f m) [ none ↦ none | some (a, m') ↦ g a m' ]

abbrev pub ◌>>◌ : {B : Type 0} → Mem (Unit {0}) → Mem B → Mem B
f >> g = f >>= λ _. g

-- What C leaves undefined.
abbrev pub crash : {A : Type 0} → Mem A
crash m = none

unfoldable pub allot : Block → Heap → Heap
allot b heap c = if c == b then true else heap c

-- `malloc` and `strdup`, which the code takes to succeed.
unfoldable pub malloc : Mem Block
malloc m = some (m.next, record { next = m.next + 1; live = allot m.next m.live })

-- A function that frees.
unfoldable pub freeing : (Heap → Option Heap) → Mem (Unit {0})
freeing f m = elim (f m.live) [ none ↦ none | some heap ↦ some (tt, record m { live = heap }) ]

-- The use of what a block holds.
unfoldable pub touch : Block → Mem (Unit {0})
touch b m = if m.live b then some (tt, m) else none

-- `realloc`: a NULL, with the block as it was, or the block moved to another place.
unfoldable pub realloc : Bool → Option Block → Mem (Option Block)
realloc false none = pure none
realloc false (some b) = do touch b; pure none
realloc true p = do freeing (free p); b ← malloc; pure (some b)
