-- ===== src/Free/Blocks.antt =====
-- Lists of distinct live blocks, and freeing them.
use pmu_events.Base.{
  ◌≡◌, refl, ◌≢◌, Bool, true, false, ◌==◌, if◌then◌else◌, List, [], ◌∷◌, ◌++◌, arith, All, Lacks,
}
use pmu_events.Free.{Block, Heap, release}

-- The heap without the blocks.
unfoldable pub without : List Block → Heap → Heap
without [] heap = heap
without (b ∷ blocks) heap = without blocks (release b heap)

-- Each block is there once.
abbrev pub IsDistinct : List Block → Type 0
IsDistinct [] = Unit
IsDistinct (b ∷ blocks) = Lacks b blocks × IsDistinct blocks

-- The blocks are live, and no two of them are the same.
abbrev pub IsOwned : List Block → Heap → Type 0
IsOwned blocks heap = IsDistinct blocks × All (λ b. heap b ≡ true) blocks

pub without-append :
    (xs ys : List Block) (heap : Heap) → without (xs ++ ys) heap ≡ without ys (without xs heap)
unfolding without
without-append [] ys heap = refl
without-append (x ∷ xs) ys heap = without-append xs ys (release x heap)

release-live :
    (b : Block) (blocks : List Block) (heap : Heap)
    → Lacks b blocks
    → All (λ c. heap c ≡ true) blocks
    → All (λ c. release b heap c ≡ true) blocks
unfolding release
release-live b [] heap h l = tt
release-live b (c ∷ blocks) heap (h, hs) (l, ls) = (ground arith, release-live b blocks heap hs ls)

IsOwned-tail :
    (b : Block) (blocks : List Block) (heap : Heap)
    → IsOwned (b ∷ blocks) heap
    → IsOwned blocks (release b heap)
IsOwned-tail b blocks heap ((h, d), (l, ls)) = (d, release-live b blocks heap h ls)

-- Of owned blocks those in front are owned, and those behind when these were freed.
All-front : (P : Block → Type 0) (xs ys : List Block) → All P (xs ++ ys) → All P xs
All-front P [] ys h = tt
All-front P (x ∷ xs) ys (h, hs) = (h, All-front P xs ys hs)

IsDistinct-front : (xs ys : List Block) → IsDistinct (xs ++ ys) → IsDistinct xs
IsDistinct-front [] ys h = tt
IsDistinct-front (x ∷ xs) ys (h, d) = (All-front (λ c. c ≢ x) xs ys h, IsDistinct-front xs ys d)

pub IsOwned-front : (xs ys : List Block) (heap : Heap) → IsOwned (xs ++ ys) heap → IsOwned xs heap
IsOwned-front xs ys heap (d, l) = (IsDistinct-front xs ys d, All-front (λ b. heap b ≡ true) xs ys l)

pub IsOwned-back :
    (xs ys : List Block) (heap : Heap) → IsOwned (xs ++ ys) heap → IsOwned ys (without xs heap)
unfolding without
IsOwned-back [] ys heap o = o
IsOwned-back (x ∷ xs) ys heap o =
    IsOwned-back xs ys (release x heap) (IsOwned-tail x (xs ++ ys) heap o)

-- Which blocks are live afterwards.
unfoldable pub has_block : Block → List Block → Bool
has_block b [] = false
has_block b (c ∷ blocks) = if b == c then true else has_block b blocks

pub without_lem :
    (blocks : List Block) (heap : Heap) (b : Block)
    → without blocks heap b ≡ (if has_block b blocks then false else heap b)
unfolding without has_block release
without_lem [] heap b = refl
without_lem (c ∷ blocks) heap b = ground (arith, without_lem blocks (release c heap) b)
