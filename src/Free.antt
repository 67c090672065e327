-- ===== src/Free.antt =====
-- The functions of src/pmu-events.c that free what the library returns, on an account of the blocks
-- that are live. What is not a pointer to a block that the library owns is left out of the structs.
pub mod Blocks
pub mod Laws
use pmu_events.Base.{
  ℕ, ◌+◌, ◌≡◌, refl, Bool, true, false, ◌==◌, if◌then◌else◌, Option, none, some, List, [], ◌∷◌,
  ◌++◌,
}
use pmu_events.Word.{◌>>=◌}

-- The address of a block that `malloc` or `realloc` returned.
abbrev pub Block : Type 0
Block = ℕ

-- Which blocks are live.
abbrev pub Heap : Type 0
Heap = Block → Bool

unfoldable pub release : Block → Heap → Heap
release b heap c = if c == b then false else heap c

-- `free`: a block that is not live may not be freed, which is `none`; NULL may.
unfoldable pub free : Option Block → Heap → Option Heap
free none heap = some heap
free (some b) heap = if heap b then some (release b heap) else none

-- A pointer to an array with its length: NULL, or a block with its elements.
pub data Array {ℓ} (A : Type ℓ) : Type ℓ where
  null : Array A
  block : Block → List A → Array A

-- A pointer to a struct, or NULL.
abbrev pub Pointer {ℓ} : Type ℓ → Type ℓ
Pointer A = Option A

-- The loop that frees the elements of an array, each read from the array, and then the array.
module _ {ℓ} {A : Type ℓ} (free_member : A → Heap → Option Heap) where
  unfoldable pub free_members : Block → List A → Heap → Option Heap
  free_members array [] heap = some heap
  free_members array (a ∷ members) heap =
      if heap array then (do heap' ← free_member a heap; free_members array members heap') else none

  unfoldable pub free_array : Array A → Heap → Option Heap
  free_array null heap = free none heap
  free_array (block array members) heap = do
    heap' ← free_members array members heap
    free (some array) heap'

-- `struct range_list`
pub record RangeListBlocks : Type 0 where
  pub ranges : Option Block

-- `struct config_def`
pub record ConfigDefBlocks : Type 0 where
  pub range : RangeListBlocks

-- `struct assignment` and `struct assignment_list`
pub record AssignmentBlocks : Type 0 where
  pub key : Option Block

abbrev pub AssignmentListBlocks : Type 0
AssignmentListBlocks = Array AssignmentBlocks

-- `struct pmu_instance`, `struct pmu_class` and `struct pmus`; `entries` and the class's name are in
-- the generated file's tables.
pub record InstanceBlocks : Type 0 where
  pub cpus : RangeListBlocks
  pub name : Option Block

pub record ClassBlocks : Type 0 where
  pub instances : Array InstanceBlocks

pub record PmusBlocks : Type 0 where
  pub classes : Array ClassBlocks

-- A NULL in place of the struct does nothing.
unfoldable pub unless_null {ℓ} :
    {A : Type ℓ} → (A → Heap → Option Heap) → Pointer A → Heap → Option Heap
unless_null f none heap = some heap
unless_null f (some a) heap = f a heap

unfoldable pub free_range_list : Pointer RangeListBlocks → Heap → Option Heap
free_range_list = unless_null λ list. free list.ranges

unfoldable pub free_config_def : ConfigDefBlocks → Heap → Option Heap
free_config_def def = free_range_list (some def.range)

unfoldable pub free_assignment : AssignmentBlocks → Heap → Option Heap
free_assignment asn = free asn.key

unfoldable pub free_assignment_list : AssignmentListBlocks → Heap → Option Heap
free_assignment_list = free_array free_assignment

unfoldable pub free_pmu_instance : Pointer InstanceBlocks → Heap → Option Heap
free_pmu_instance =
    unless_null λ i heap. do heap' ← free_range_list (some i.cpus) heap; free i.name heap'

unfoldable pub free_pmu_class : Pointer ClassBlocks → Heap → Option Heap
free_pmu_class = unless_null λ c. free_array (λ i. free_pmu_instance (some i)) c.instances

unfoldable pub free_pmus : Pointer PmusBlocks → Heap → Option Heap
free_pmus = unless_null λ p. free_array (λ c. free_pmu_class (some c)) p.classes
