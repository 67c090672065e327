-- ===== src/Free/Laws.antt =====
-- The functions that free a struct free each of its blocks, once, and no other.
use pmu_events.Base.{
  ◌≡◌, refl, true, false, if◌then◌else◌, Option, none, some, List, [], ◌∷◌, ◌++◌, arith, All,
  append_assoc,
}
use pmu_events.Free.Blocks.{
  without, without-append, without_lem, IsOwned, IsOwned-front, IsOwned-back, has_block,
}
use pmu_events.Free.{
  Block, Heap, free, Array, null, block, free_members, free_array, RangeListBlocks, ConfigDefBlocks,
  AssignmentBlocks, AssignmentListBlocks, InstanceBlocks, ClassBlocks, PmusBlocks, unless_null,
  free_range_list, free_config_def, free_assignment, free_assignment_list, free_pmu_instance,
  free_pmu_class, free_pmus,
}

unfoldable pub pointed : Option Block → List Block
pointed none = []
pointed (some b) = b ∷ []

-- On owned blocks the function frees them, and leaves the others.
abbrev pub Frees {ℓ} : {A : Type ℓ} → (A → List Block) → (A → Heap → Option Heap) → Type ℓ
Frees {A} blocks f =
    (a : A) (heap : Heap) → IsOwned (blocks a) heap → f a heap ≡ some (without (blocks a) heap)

pub free-Frees : Frees pointed free
unfolding free pointed without
free-Frees none heap o = refl
free-Frees (some b) heap o = rw (free, o.1.0) refl

module _ {ℓ} {A : Type ℓ} (blocks : A → List Block) where
  unfoldable pub blocks_of : List A → List Block
  blocks_of [] = []
  blocks_of (a ∷ members) = blocks a ++ blocks_of members

  unfoldable pub array_blocks : Array A → List Block
  array_blocks null = []
  array_blocks (block array members) = blocks_of members ++ array ∷ []

last_live :
    (front : List Block) (array : Block) (heap : Heap)
    → All (λ b. heap b ≡ true) (front ++ array ∷ [])
    → heap array ≡ true
last_live [] array heap l = l.0
last_live (b ∷ front) array heap l = last_live front array heap l.1

module _ {ℓ} {A : Type ℓ} (blocks : A → List Block) (f : A → Heap → Option Heap)
    (frees : Frees blocks f) where
  free_members-Frees :
      (array : Block) (members : List A) (heap : Heap)
      → IsOwned (blocks_of blocks members ++ array ∷ []) heap
      → free_members f array members heap ≡ some (without (blocks_of blocks members) heap)
  unfolding free_members blocks_of
  free_members-Frees array [] heap o = unfold without in refl
  free_members-Frees array (a ∷ members) heap o =
      let split = append_assoc (blocks a) (blocks_of blocks members) (array ∷ []) in
      let o' : IsOwned (blocks a ++ (blocks_of blocks members ++ array ∷ [])) heap =
        rw (← split) o in
      let live = last_live (blocks a ++ blocks_of blocks members) array heap o.1 in
      let freed =
        frees a heap (IsOwned-front (blocks a) (blocks_of blocks members ++ array ∷ []) heap o') in
      rw (free_members, live, freed, without-append (blocks a) (blocks_of blocks members) heap)
        (free_members-Frees array members (without (blocks a) heap)
          (IsOwned-back (blocks a) (blocks_of blocks members ++ array ∷ []) heap o'))

  array-Frees : Frees (array_blocks blocks) (free_array f)
  unfolding array_blocks free_array free pointed
  array-Frees null heap o = unfold without in refl
  array-Frees (block array members) heap o =
      let back = IsOwned-back (blocks_of blocks members) (array ∷ []) heap o in
      rw
        (
          free_array,
          free_members-Frees array members heap o,
          without-append (blocks_of blocks members) (array ∷ []) heap,
        )
        (free-Frees (some array) (without (blocks_of blocks members) heap) back)

abbrev pub range_list_blocks : RangeListBlocks → List Block
range_list_blocks list = pointed list.ranges

abbrev pub config_def_blocks : ConfigDefBlocks → List Block
config_def_blocks def = range_list_blocks def.range

abbrev pub assignment_blocks : AssignmentBlocks → List Block
assignment_blocks asn = pointed asn.key

abbrev pub assignment_list_blocks : AssignmentListBlocks → List Block
assignment_list_blocks = array_blocks assignment_blocks

abbrev pub instance_blocks : InstanceBlocks → List Block
instance_blocks i = range_list_blocks i.cpus ++ pointed i.name

abbrev pub class_blocks : ClassBlocks → List Block
class_blocks c = array_blocks instance_blocks c.instances

abbrev pub pmus_blocks : PmusBlocks → List Block
pmus_blocks p = array_blocks class_blocks p.classes

pub free_config_def-Frees : Frees config_def_blocks free_config_def
unfolding free_config_def free_range_list unless_null
free_config_def-Frees def heap o = free-Frees def.range.ranges heap o

pub free_assignment_list-Frees : Frees assignment_list_blocks free_assignment_list
unfolding free_assignment_list
free_assignment_list-Frees =
    array-Frees assignment_blocks free_assignment
      λ asn heap o. unfold free_assignment in free-Frees asn.key heap o

pub free_pmu_instance-Frees : Frees instance_blocks (λ i. free_pmu_instance (some i))
unfolding free_pmu_instance free_range_list unless_null
free_pmu_instance-Frees i heap o =
    let cpus = pointed i.cpus.ranges in
    rw
      (
        free-Frees i.cpus.ranges heap (IsOwned-front cpus (pointed i.name) heap o),
        without-append cpus (pointed i.name) heap,
      )
      (free-Frees i.name (without cpus heap) (IsOwned-back cpus (pointed i.name) heap o))

pub free_pmu_class-Frees : Frees class_blocks (λ c. free_pmu_class (some c))
unfolding free_pmu_class unless_null
free_pmu_class-Frees c =
    array-Frees instance_blocks (λ i. free_pmu_instance (some i)) free_pmu_instance-Frees
      c.instances

pub free_pmus-Frees : Frees pmus_blocks (λ p. free_pmus (some p))
unfolding free_pmus unless_null
free_pmus-Frees p =
    array-Frees class_blocks (λ c. free_pmu_class (some c)) free_pmu_class-Frees p.classes

-- The function succeeds, and of the live blocks exactly these are gone.
abbrev pub IsFreed : List Block → (Heap → Option Heap) → Heap → Type 0
IsFreed blocks f heap =
    (heap' : Heap) × (f heap ≡ some heap')
    × ((b : Block) → heap' b ≡ (if has_block b blocks then false else heap b))

Frees-IsFreed :
    {A : Type 0} (blocks : A → List Block) (f : A → Heap → Option Heap)
    → Frees blocks f
    → (a : A) (heap : Heap) → IsOwned (blocks a) heap
    → IsFreed (blocks a) (f a) heap
Frees-IsFreed blocks f frees a heap o =
    (without (blocks a) heap, frees a heap o, without_lem (blocks a) heap)

-- If the blocks of a tree of PMUs are live and different, `free_pmus` frees each of them once,
-- reads no array that was freed before, and leaves every other block as it was.
pub free_pmus-IsFreed :
    (pmus : PmusBlocks) (heap : Heap)
    → IsOwned (pmus_blocks pmus) heap
    → IsFreed (pmus_blocks pmus) (free_pmus (some pmus)) heap
free_pmus-IsFreed = Frees-IsFreed pmus_blocks (λ p. free_pmus (some p)) free_pmus-Frees

-- If the blocks of an event's assignments are live and different, `free_assignment_list` frees each of
-- them once and leaves every other block; so does `free_config_def` with those of a format.
free_assignment_list-IsFreed :
    (list : AssignmentListBlocks) (def : ConfigDefBlocks) (heap : Heap)
    → IsOwned (assignment_list_blocks list) heap
    → IsOwned (config_def_blocks def) heap
    → IsFreed (assignment_list_blocks list) (free_assignment_list list) heap
      × IsFreed (config_def_blocks def) (free_config_def def) heap
free_assignment_list-IsFreed list def heap o d = (
  Frees-IsFreed assignment_list_blocks free_assignment_list free_assignment_list-Frees list heap o,
  Frees-IsFreed config_def_blocks free_config_def free_config_def-Frees def heap d,
)

has_block-last : (front : List Block) (b : Block) → has_block b (front ++ b ∷ []) ≡ true
unfolding has_block
has_block-last [] b = ground arith
has_block-last (c ∷ front) b = ground (arith, has_block-last front b)

array-freed :
    (free_member : ClassBlocks → Heap → Option Heap) (array : Block) (members : List ClassBlocks)
    (heap : Heap)
    → heap array ≡ false
    → free_array free_member (block array members) heap ≡ none
unfolding free_array free_members free
array-freed f array [] heap dead = rw dead refl
array-freed f array (c ∷ members) heap dead = rw (free_array, free_members, dead) refl

-- Freeing a tree of PMUs twice, as a caller does that frees it when `get_pmus` did so before its
-- -1, is not allowed, if its blocks are live and different and it has an array of classes.
free_pmus-twice :
    (array : Block) (classes : List ClassBlocks) (heap : Heap) {heap' : Heap}
    → IsOwned (pmus_blocks (record { classes = block array classes })) heap
    → free_pmus (some (record { classes = block array classes })) heap ≡ some heap'
    → free_pmus (some (record { classes = block array classes })) heap' ≡ none
unfolding free_pmus unless_null array_blocks
free_pmus-twice array classes heap {heap'} o h =
    let (left, e, which) = free_pmus-IsFreed (record { classes = block array classes }) heap o in
    let same : left ≡ heap' = ground (arith, h, e) in
    let gone = rw (has_block-last (blocks_of class_blocks classes) array) at (which array) in
    array-freed (λ c. free_pmu_class (some c)) array classes heap' (rw (← same) gone)
