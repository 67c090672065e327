-- ===== src/Owned/Grow.antt =====
-- Arrays that `realloc` grows by one element, and what the elements own.
use pmu_events.Base.{
  ℕ, ◌+◌, ◌≤◌, ◌<◌, ◌≡◌, refl, sym, ◌∙◌, ◌⊎◌, Bool, true, false, Option, none, some, List, [], ◌∷◌,
  ◌++◌, map, length, is_empty, arith,
}
use pmu_events.Free.Laws.{pointed, blocks_of, array_blocks}
use pmu_events.Free.{Block, Array, null, block}
use pmu_events.Memory.{Mem, pure, ◌>>=◌, ◌>>◌, touch, realloc}
use pmu_events.Memory.Holds.{AreSame, count, count-append}
use pmu_events.Memory.Triple.{
  Triple, Always, triple-pure, triple-same, triple-bind, triple-touch, triple-realloc, grown_blocks,
  IsGiven,
}
use pmu_events.Owned.Commas.Laws.{members_of, blocks_of-append}

-- The use of what a pointer points to; a NULL is not used.
unfoldable pub touch_pointer : Option Block → Mem (Unit {0})
touch_pointer none = pure tt
touch_pointer (some b) = touch b

abbrev pub array_pointer : {B : Type 0} → Array B → Option Block
array_pointer null = none
array_pointer (block array list) = some array

abbrev pub elements : {B : Type 0} → Array B → List B
elements null = []
elements (block array list) = list

-- The array grows by the element that `make` gives; `lacks_memory` is what the code does else.
unfoldable pub add_element :
    {B X : Type 0} → (ℕ → Bool) → Array B → Mem X → Mem B → (Array B → X) → Mem X
add_element realloc_ok array lacks_memory make done = do
  tmp ← realloc (realloc_ok (length (elements array) + 1)) (array_pointer array)
  elim tmp [
    | none ↦ lacks_memory
    | some grown ↦ do b ← make; touch grown; pure (done (block grown (elements array ++ b ∷ [])))
  ]

-- An array without elements is a NULL.
abbrev pub IsFilled : {B : Type 0} → Array B → Type 0
IsFilled array = (array ≡ null) ⊎ (is_empty (elements array) ≡ false)

abbrev pub AreFilled : {B : Type 0} → Option (Array B) → Type 0
AreFilled none = Unit
AreFilled (some array) = IsFilled array

pub triple-touch_pointer :
    (blocks : List Block) (p : Option Block)
    → ((b : Block) → count b (pointed p) ≤ count b blocks)
    → Triple blocks (touch_pointer p) (λ _. blocks) Always
unfolding touch_pointer pointed count
triple-touch_pointer blocks none within = triple-pure (λ _. blocks) Always tt tt
triple-touch_pointer blocks (some b) within = triple-touch blocks b (ground (arith, within b))

pub is_empty-last : {B : Type 0} (list : List B) (b : B) → is_empty (list ++ b ∷ []) ≡ false
is_empty-last [] b = refl
is_empty-last (c ∷ list) b = refl

pub elements_members :
    {A B : Type 0} (val : B → A) (array : Array B) → map val (elements array) ≡ members_of val array
unfolding members_of
elements_members val null = refl
elements_members val (block array list) = refl

last_there : (front back : List Block) (b : Block) → 0 < count b (front ++ b ∷ back)
unfolding count
last_there front back b = ground (arith, count-append b front (b ∷ back))

module _ {B : Type 0} (of : B → List Block) where
  -- The array's own block and what its elements own.
  split-AreSame :
      (array : Array B) (blocks : List Block)
      → AreSame
          (array_blocks of array ++ blocks)
          (pointed (array_pointer array) ++ (blocks_of of (elements array) ++ blocks))
  unfolding pointed array_blocks count blocks_of
  split-AreSame null blocks b = refl
  split-AreSame (block array list) blocks b = omega (
    arith,
    count-append b (blocks_of of list ++ array ∷ []) blocks,
    count-append b (blocks_of of list) (array ∷ []),
    count-append b (blocks_of of list) blocks,
  )

  pub array_pointer-within :
      (array : Array B) (blocks : List Block) (b : Block)
      → count b (pointed (array_pointer array)) ≤ count b (array_blocks of array ++ blocks)
  array_pointer-within array blocks b = omega (
    arith,
    split-AreSame array blocks b,
    count-append b (pointed (array_pointer array)) (blocks_of of (elements array) ++ blocks),
  )

  pub elements_within :
      (array : Array B) (b : Block)
      → count b (blocks_of of (elements array)) ≤ count b (array_blocks of array)
  unfolding array_blocks blocks_of count
  elements_within null b = omega arith
  elements_within (block array list) b =
      omega (arith, count-append b (blocks_of of list) (array ∷ []))

  extra-AreSame :
      (grown : Block) (list : List B) (extra blocks : List Block)
      → AreSame
          (grown ∷ (blocks_of of list ++ (extra ++ blocks)))
          (extra ++ (grown ∷ (blocks_of of list ++ blocks)))
  unfolding count
  extra-AreSame grown list extra blocks b = omega (
    arith,
    count-append b (blocks_of of list) (extra ++ blocks),
    count-append b extra blocks,
    count-append b extra (grown ∷ (blocks_of of list ++ blocks)),
    count-append b (blocks_of of list) blocks,
  )

  last-AreSame :
      (grown : Block) (list : List B) (b : B) (blocks : List Block)
      → AreSame
          (of b ++ (grown ∷ (blocks_of of list ++ blocks)))
          (array_blocks of (block grown (list ++ b ∷ [])) ++ blocks)
  unfolding count array_blocks blocks_of
  last-AreSame grown list b blocks c = omega (
    arith,
    count-append c (of b) (grown ∷ (blocks_of of list ++ blocks)),
    count-append c (blocks_of of list) blocks,
    count-append c (blocks_of of (list ++ b ∷ []) ++ grown ∷ []) blocks,
    count-append c (blocks_of of (list ++ b ∷ [])) (grown ∷ []),
    blocks_of-append of list (b ∷ []) c,
    count-append c (of b) [],
  )

  -- `extra` goes into the new element, if the array grows.
  pub add_element-Triple :
      {X : Type 0} (post : X → List Block) (Q : X → Type 0) (R : B → Type 0) (realloc_ok : ℕ → Bool)
      (array : Array B) (extra blocks : List Block) (lacks_memory : Mem X) (make : Mem B)
      (done : Array B → X)
      → (realloc_ok (length (elements array) + 1) ≡ false
          → Triple (array_blocks of array ++ (extra ++ blocks)) lacks_memory post Q)
      → ((rest : List Block) → Triple (extra ++ rest) make (λ b. of b ++ rest) R)
      → (realloc_ok (length (elements array) + 1) ≡ true
          → (grown : Block) (b : B) → R b
          → AreSame
              (array_blocks of (block grown (elements array ++ b ∷ [])) ++ blocks)
              (post (done (block grown (elements array ++ b ∷ []))))
            × Q (done (block grown (elements array ++ b ∷ []))))
      → Triple
          (array_blocks of array ++ (extra ++ blocks))
          (add_element realloc_ok array lacks_memory make done)
          post
          Q
  unfolding add_element grown_blocks pointed
  add_element-Triple post Q R realloc_ok array extra blocks lacks_memory make done lacks makes
        ends =
      let held = blocks_of of (elements array) ++ (extra ++ blocks) in
      let members = blocks_of of (elements array) in
      triple-same post Q (split-AreSame array (extra ++ blocks)) (
        triple-bind post Q (λ tmp. grown_blocks (array_pointer array) tmp ++ held)
          (IsGiven (realloc_ok (length (elements array) + 1)))
          (triple-realloc (realloc_ok (length (elements array) + 1)) (array_pointer array) held)
          (elim [
            | none ↦ λ e.
                triple-same post Q (λ b. sym (split-AreSame array (extra ++ blocks) b)) (lacks e)
            | some grown ↦ λ e.
                let rest = grown ∷ (members ++ blocks) in
                triple-same post Q {pre = extra ++ rest}
                  (extra-AreSame grown (elements array) extra blocks)
                  (triple-bind post Q (λ b. of b ++ rest) R (makes rest)
                    λ b r.
                      triple-bind post Q (λ _. of b ++ rest) Always
                        (triple-touch (of b ++ rest) grown
                          (last_there (of b) (members ++ blocks) grown))
                        λ _ _.
                          triple-same post Q
                            (λ c.
                              last-AreSame grown (elements array) b blocks c
                              ∙ (ends e grown b r).0 c)
                            (triple-pure post Q (done (block grown (elements array ++ b ∷ [])))
                              (ends e grown b r).1))
          ]))
