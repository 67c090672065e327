-- ===== src/Memory/Triple.antt =====
-- What code does to a memory: from the blocks that it may use to those that it leaves.
use pmu_events.Base.{
  ◌<◌, ◌≡◌, refl, Bool, true, false, Option, none, some, List, [], ◌∷◌, ◌++◌, arith,
}
use pmu_events.Free.Laws.{Frees, pointed, free-Frees}
use pmu_events.Free.{Block, Heap, free}
use pmu_events.Memory.{Memory, Mem, pure, ◌>>=◌, malloc, freeing, touch, realloc}
use pmu_events.Memory.Holds.{
  AreSame, count, Holds, Holds-same, Holds-malloc, Holds-IsOwned, Holds-without,
}

-- The action ends, with the blocks and the property that belong to its value.
pub record Gives {A : Type 0} (old : Memory) (x : Option (A × Memory)) (post : A → List Block)
    (Q : A → Type 0) : Type 0 where
  pub value : A
  pub after : Memory
  pub returns : x ≡ some (value, after)
  pub holds : Holds old (post value) after
  pub result : Q value

-- Whatever was live before, and whatever the other blocks are, it is used in no undefined way.
abbrev pub Triple : {A : Type 0} → List Block → Mem A → (A → List Block) → (A → Type 0) → Type 0
Triple pre f post Q = (old m : Memory) → Holds old pre m → Gives old (f m) post Q

abbrev pub Always : {A : Type 0} → A → Type 0
Always a = Unit {0}

module _ {A : Type 0} (post : A → List Block) (Q : A → Type 0) where
  pub triple-pure : (a : A) → Q a → Triple (post a) (pure a) post Q
  triple-pure a q old m h = record { value = a; after = m; returns = refl; holds = h; result = q }

  pub triple-same :
      {pre pre' : List Block} {f : Mem A}
      → AreSame pre' pre
      → Triple pre f post Q
      → Triple pre' f post Q
  triple-same {pre} {pre'} same t old m h = t old m (Holds-same pre' pre same h)

  pub triple-bind :
      {B : Type 0} {pre : List Block} {f : Mem B} {g : B → Mem A} (mid : B → List Block)
      (R : B → Type 0)
      → Triple pre f mid R
      → ((b : B) → R b → Triple (mid b) (g b) post Q)
      → Triple pre (f >>= g) post Q
  triple-bind {B} {pre} {f} {g} mid R first then_ old m h =
      let r = first old m h in
      let s = then_ r.value r.result old r.after r.holds in
      record {
        value = s.value;
        after = s.after;
        returns = rw (◌>>=◌, r.returns) s.returns;
        holds = s.holds;
        result = s.result;
      }

  pub triple-weaken :
      {pre : List Block} {f : Mem A} (post' : A → List Block) (Q' : A → Type 0)
      → ((a : A) → Q' a → AreSame (post' a) (post a) × Q a)
      → Triple pre f post' Q'
      → Triple pre f post Q
  triple-weaken post' Q' weaker t old m h =
      let r = t old m h in
      let (same, q) = weaker r.value r.result in
      record {
        value = r.value;
        after = r.after;
        returns = r.returns;
        holds = Holds-same (post' r.value) (post r.value) same r.holds;
        result = q;
      }

  -- The action, with what its value is turned into.
  pub triple-return :
      {B : Type 0} {pre : List Block} {f : Mem B} (g : B → A) (mid : B → List Block)
      (R : B → Type 0)
      → Triple pre f mid R
      → ((b : B) → R b → AreSame (mid b) (post (g b)) × Q (g b))
      → Triple pre (f >>= λ b. pure (g b)) post Q
  triple-return g mid R t turned =
      triple-bind mid R t λ b r. triple-same (turned b r).0 (triple-pure (g b) (turned b r).1)

module _ (blocks : List Block) where
  pub triple-malloc : Triple blocks malloc (λ b. b ∷ blocks) Always
  unfolding malloc
  triple-malloc old m h = record {
    value = m.next;
    after = _;
    returns = refl;
    holds = Holds-malloc blocks m h;
    result = tt;
  }

  pub triple-freeing :
      {A : Type 0} (of : A → List Block) (f : A → Heap → Option Heap)
      → Frees of f
      → (a : A) → Triple (of a ++ blocks) (freeing (f a)) (λ _. blocks) Always
  unfolding freeing
  triple-freeing of f frees a old m h = record {
    value = tt;
    after = _;
    returns = rw (freeing, frees a m.live (Holds-IsOwned (of a) blocks h)) refl;
    holds = Holds-without (of a) blocks h;
    result = tt;
  }

  pub triple-free :
      (p : Option Block) → Triple (pointed p ++ blocks) (freeing (free p)) (λ _. blocks) Always
  triple-free = triple-freeing pointed free free-Frees

  -- A block that is there may be used.
  pub triple-touch : (b : Block) → 0 < count b blocks → Triple blocks (touch b) (λ _. blocks) Always
  unfolding touch
  triple-touch b there old m h = record {
    value = tt;
    after = m;
    returns = ground (arith, h.live b, there);
    holds = h;
    result = tt;
  }

-- What `realloc` leaves: the new block, or the old one.
unfoldable pub grown_blocks : Option Block → Option Block → List Block
grown_blocks p none = pointed p
grown_blocks p (some b) = b ∷ []

-- The block was given exactly if there was memory.
abbrev pub IsGiven : Bool → Option Block → Type 0
IsGiven ok none = ok ≡ false
IsGiven ok (some b) = ok ≡ true

pub triple-realloc :
    (ok : Bool) (p : Option Block) (blocks : List Block)
    → Triple (pointed p ++ blocks) (realloc ok p) (λ q. grown_blocks p q ++ blocks) (IsGiven ok)
unfolding realloc grown_blocks pointed
triple-realloc false none blocks =
    triple-pure (λ q. grown_blocks none q ++ blocks) (IsGiven false) none refl
triple-realloc false (some b) blocks =
    triple-bind (λ q. grown_blocks (some b) q ++ blocks) (IsGiven false) (λ _. b ∷ blocks) Always
      (triple-touch (b ∷ blocks) b (unfold count in ground arith))
      λ _ _. triple-pure (λ q. grown_blocks (some b) q ++ blocks) (IsGiven false) none refl
triple-realloc true p blocks =
    let post = λ (q : Option Block). grown_blocks p q ++ blocks in
    triple-bind post (IsGiven true) (λ _. blocks) Always (triple-free blocks p)
      λ _ _.
        triple-bind post (IsGiven true) (λ b. b ∷ blocks) Always (triple-malloc blocks)
          λ b _. triple-pure post (IsGiven true) (some b) refl
