-- ===== src/Memory/Holds.antt =====
-- The blocks that a piece of code has allocated and not freed since a memory.
use pmu_events.Base.{
  ℕ, ◌+◌, ◌≤◌, ◌<◌, ◌≡◌, refl, sym, true, false, ◌==◌, ltb, if◌then◌else◌, List, [], ◌∷◌, ◌++◌,
  arith, All, Lacks,
}
use pmu_events.Free.Blocks.{without, without_lem, has_block, IsDistinct, IsOwned}
use pmu_events.Free.{Block}
use pmu_events.Memory.{Memory, allot}

-- How often the list has the block.
unfoldable pub count : Block → List Block → ℕ
count b [] = 0
count b (c ∷ blocks) = (if b == c then 1 else 0) + count b blocks

pub count-append : (b : Block) (xs ys : List Block) → count b (xs ++ ys) ≡ count b xs + count b ys
unfolding count
count-append b [] ys = omega arith
count-append b (x ∷ xs) ys = omega (arith, count-append b xs ys)

-- The same blocks, in any order.
abbrev pub AreSame : List Block → List Block → Type 0
AreSame xs ys = (b : Block) → count b xs ≡ count b ys

pub swap-AreSame : (xs ys zs : List Block) → AreSame (xs ++ (ys ++ zs)) (ys ++ (xs ++ zs))
swap-AreSame xs ys zs b = omega (
  arith,
  count-append b xs (ys ++ zs),
  count-append b ys zs,
  count-append b ys (xs ++ zs),
  count-append b xs zs,
)

-- Of the memory `old`, nothing was freed; these blocks, and no others, came to it.
pub record Holds (old : Memory) (blocks : List Block) (m : Memory) : Type 0 where
  pub sound : (b : Block) → old.next ≤ b → old.live b ≡ false
  pub later : old.next ≤ m.next
  pub once : (b : Block) → count b blocks ≤ 1
  pub fresh : (b : Block) → 0 < count b blocks → (old.next ≤ b) × (b < m.next)
  pub live : (b : Block) → m.live b ≡ (if ltb 0 (count b blocks) then true else old.live b)

module _ {old : Memory} where
  pub Holds-same :
      (xs ys : List Block) {m : Memory} → AreSame xs ys → Holds old xs m → Holds old ys m
  Holds-same xs ys {m} same h = record {
    sound = h.sound;
    later = h.later;
    once = λ b. omega (arith, h.once b, same b);
    fresh = λ b pos. h.fresh b (omega (arith, pos, same b));
    live = λ b. rw (← same b) (h.live b);
  }

  -- A new block.
  pub Holds-malloc :
      (blocks : List Block) (m : Memory)
      → Holds old blocks m
      → Holds old (m.next ∷ blocks) (record { next = m.next + 1; live = allot m.next m.live })
  unfolding allot count
  Holds-malloc blocks m h = record {
    sound = h.sound;
    later = omega (arith, h.later);
    once = λ b. ground (arith, h.once b, h.fresh b);
    fresh = λ b pos. ground (arith, h.later, h.fresh b);
    live = λ b. ground (arith, h.live b);
  }

count-zero-Lacks : (b : Block) (blocks : List Block) → count b blocks ≡ 0 → Lacks b blocks
unfolding count
count-zero-Lacks b [] h = tt
count-zero-Lacks b (c ∷ blocks) h =
    (λ e. ground (arith, h, sym e), count-zero-Lacks b blocks (ground (arith, h)))

once-IsDistinct : (blocks : List Block) → ((b : Block) → count b blocks ≤ 1) → IsDistinct blocks
unfolding count
once-IsDistinct [] h = tt
once-IsDistinct (c ∷ blocks) h = (
  count-zero-Lacks c blocks (ground (arith, h c)),
  once-IsDistinct blocks λ b. omega (arith, h b),
)

All-counted :
    (P : Block → Type 0) (blocks : List Block)
    → ((b : Block) → 0 < count b blocks → P b)
    → All P blocks
unfolding count
All-counted P [] h = tt
All-counted P (c ∷ blocks) h =
    (h c (ground arith), All-counted P blocks λ b pos. h b (omega (arith, pos)))

has_block-count : (b : Block) (blocks : List Block) → has_block b blocks ≡ ltb 0 (count b blocks)
unfolding has_block count
has_block-count b [] = ground arith
has_block-count b (c ∷ blocks) = ground (arith, has_block-count b blocks)

module _ {old : Memory} where
  pub Holds-IsOwned :
      (front back : List Block) {m : Memory} → Holds old (front ++ back) m → IsOwned front m.live
  Holds-IsOwned front back {m} h = (
    once-IsDistinct front λ b. omega (arith, h.once b, count-append b front back),
    All-counted (λ b. m.live b ≡ true) front
        λ b pos. ground (arith, h.live b, count-append b front back),
  )

  -- The blocks in front are freed.
  pub Holds-without :
      (front back : List Block) {m : Memory}
      → Holds old (front ++ back) m
      → Holds old back (record m { live = without front m.live })
  Holds-without front back {m} h = record {
    sound = h.sound;
    later = h.later;
    once = λ b. omega (arith, h.once b, count-append b front back);
    fresh = λ b pos. h.fresh b (omega (arith, pos, count-append b front back));
    live = λ b. ground (
      arith,
      without_lem front m.live b,
      has_block-count b front,
      h.live b,
      h.once b,
      h.fresh b,
      h.sound b,
      count-append b front back,
    );
  }

-- `malloc` takes blocks that are not live.
abbrev pub IsFresh : Memory → Type 0
IsFresh m = (b : Block) → m.next ≤ b → m.live b ≡ false

pub Holds-start : (m : Memory) → IsFresh m → Holds m [] m
unfolding count
Holds-start m sound = record {
  sound = sound;
  later = omega arith;
  once = λ b. omega arith;
  fresh = λ b pos. absurd (omega (arith, pos));
  live = λ b. refl;
}
