-- ===== src/Memory/Owning.antt =====
-- Structs with the blocks that they own, and code that hands one to its caller or a -1.
use pmu_events.Base.{map, ◌≡◌, refl, arith, Option, none, some, List, [], ◌∷◌, ◌++◌}
use pmu_events.Free.{Block, Heap, Array, null, block, free}
use pmu_events.Free.Laws.{pointed, Frees, blocks_of, array_blocks}
use pmu_events.Memory.{Mem, pure, ◌>>=◌, ◌>>◌, touch, freeing}
use pmu_events.Memory.Holds.{count, swap-AreSame}
use pmu_events.Memory.Triple.{
  Triple, Always, triple-pure, triple-same, triple-bind, triple-touch, triple-free, triple-freeing,
}
use pmu_events.Word

-- What a struct holds, and the pointers in it.
pub record Owning (V : Type 0) (S : Type 0) : Type 0 where
  pub value : V
  pub blocks : S

abbrev pub owning : {V S : Type 0} → V → S → Owning V S
owning v s = record { value = v; blocks = s }

unfoldable pub optional : {B : Type 0} → (B → List Block) → Option B → List Block
optional of none = []
optional of (some b) = of b

-- The result, with the blocks forgotten.
unfoldable pub value_of : {A B : Type 0} → (B → A) → Option B → Option A
value_of val none = none
value_of val (some b) = some (val b)

-- The action leaves the blocks of its result and no others, and computes what the function does.
abbrev pub Parses : {A B : Type 0} → (B → A) → (B → List Block) → Mem (Option B) → Option A → Type 0
Parses val of f result =
    (blocks : List Block)
    → Triple blocks f (λ r. optional of r ++ blocks) (λ r. value_of val r ≡ result)

pub Parses-none :
    {A B : Type 0} (val : B → A) (of : B → List Block) → Parses val of (pure none) none
unfolding optional value_of
Parses-none val of blocks =
    triple-pure (λ r. optional of r ++ blocks) (λ r. value_of val r ≡ none) none refl

-- What follows if there was no -1 or NULL.
unfoldable pub unless_failed :
    {A B : Type 0} → Mem (Option A) → (A → Mem (Option B)) → Mem (Option B)
unless_failed f g = do r ← f; elim r [ none ↦ pure none | some a ↦ g a ]

-- The use of a block that is freed behind it, whatever comes of it.
unfoldable pub using : {A : Type 0} → Block → Mem A → Mem A
using b f = do touch b; r ← f; freeing (free (some b)); pure r

module _ {C D : Type 0} (val' : D → C) (of' : D → List Block) where
  pub Triple-then :
      {A B : Type 0} (val : B → A) (of : B → List Block) {pre : List Block} (blocks : List Block)
      (f : Mem (Option B)) (g : B → Mem (Option D)) {x : Option A} (h : A → Option C)
      → Triple pre f (λ r. optional of r ++ blocks) (λ r. value_of val r ≡ x)
      → ((b : B)
          → Triple
              (of b ++ blocks)
              (g b)
              (λ r. optional of' r ++ blocks)
              (λ r. value_of val' r ≡ h (val b)))
      → Triple pre
          (unless_failed f g)
          (λ r. optional of' r ++ blocks)
          (λ r. value_of val' r ≡ Word.◌>>=◌ x h)
  unfolding unless_failed optional value_of
  Triple-then val of blocks f g {x} h first then_ =
      triple-bind (λ r. optional of' r ++ blocks) _ (λ r. optional of r ++ blocks)
        (λ r. value_of val r ≡ x) first
        (elim [
          | none ↦ λ e. rw (← e) (Parses-none val' of' blocks)
          | some b ↦ λ e. rw (← e) (then_ b)
        ])

pub triple-using :
    {A : Type 0} (b : Block) (f : Mem A) (blocks : List Block) (post : A → List Block)
    (Q : A → Type 0)
    → Triple (b ∷ blocks) f (λ r. post r ++ (b ∷ blocks)) Q
    → Triple (b ∷ blocks) (using b f) (λ r. post r ++ blocks) Q
unfolding using pointed count
triple-using {A} b f blocks post Q t =
    let left = λ (r : A). post r ++ blocks in
    triple-bind left Q (λ _. b ∷ blocks) Always (triple-touch (b ∷ blocks) b (ground arith))
      λ _ _.
        triple-bind left Q (λ r. post r ++ (b ∷ blocks)) Q t
          λ r q.
            triple-same left Q {pre = b ∷ (post r ++ blocks)}
              (swap-AreSame (post r) (b ∷ []) blocks)
              (triple-bind left Q (λ _. post r ++ blocks) Always
                (triple-free (post r ++ blocks) (some b)) λ _ _. triple-pure left Q r q)

pub Parses-using :
    {C D : Type 0} (val : D → C) (of : D → List Block) (b : Block) (f : Mem (Option D))
    {y : Option C} (blocks : List Block)
    → Parses val of f y
    → Triple (b ∷ blocks) (using b f) (λ r. optional of r ++ blocks) (λ r. value_of val r ≡ y)
Parses-using val of b f {y} blocks parses =
    triple-using b f blocks (optional of) (λ r. value_of val r ≡ y) (parses (b ∷ blocks))

-- The array of the pointers in an array of structs.
unfoldable pub pointers : {V S : Type 0} → Array (Owning V S) → Array S
pointers null = null
pointers (block array list) = block array (map (λ s. s.blocks) list)

pointers-map :
    {V S : Type 0} (of : S → List Block) (list : List (Owning V S))
    → blocks_of of (map (λ s. s.blocks) list) ≡ blocks_of (λ s. of s.blocks) list
unfolding blocks_of
pointers-map of [] = refl
pointers-map of (s ∷ list) = rw (pointers-map of list)

pub pointers_lem :
    {V S : Type 0} (of : S → List Block) (array : Array (Owning V S))
    → array_blocks of (pointers array) ≡ array_blocks (λ s. of s.blocks) array
unfolding pointers array_blocks
pointers_lem of null = refl
pointers_lem of (block array list) = rw (pointers-map of list)

-- A function that frees an array of structs.
pub triple-pointers :
    {V S : Type 0} (of : S → List Block) (f : Array S → Heap → Option Heap)
    → Frees (array_blocks of) f
    → (array : Array (Owning V S)) (blocks : List Block)
    → Triple
        (array_blocks (λ s. of s.blocks) array ++ blocks)
        (freeing (f (pointers array)))
        (λ _. blocks)
        Always
triple-pointers of f frees array blocks =
    rw (← pointers_lem of array) (triple-freeing blocks (array_blocks of) f frees (pointers array))
