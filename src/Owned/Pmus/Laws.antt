-- ===== src/Owned/Pmus/Laws.antt =====
-- What `get_pmus` leaves, and that `free_pmus` frees it.
use pmu_events.Base.{
  ◌≡◌, refl, ◌≢◌, inl, inr, Option, none, some, List, [], ◌∷◌, ◌++◌, if◌then◌else◌, Bytes, is_empty,
  Bool-cases,
}
use pmu_events.Free.Laws.{array_blocks, class_blocks, free_pmus-Frees}
use pmu_events.Free.{Block, Array, null, block, free_pmus}
use pmu_events.Memory.{pure}
use pmu_events.Memory.Owning.{optional, triple-pointers}
use pmu_events.Memory.Triple.{Triple, Always, triple-pure, triple-same, triple-bind}
use pmu_events.Owned.Grow.{elements, IsFilled}
use pmu_events.Owned.Pmus.{
  OwnedClass, tree_blocks, Listed, listed, failed, get_pmus, free_listed, list_or_fail,
}
use pmu_events.Pmu.{PmuTableEntry}
use pmu_events.Pmus
use pmu_events.System.{System}
use pmu_events.Owned.Pmus.Loop.{classes_of, kept_blocks, add_classes-Triple}

-- The tree that a 0 hands to the caller.
unfoldable pub listed_blocks : Listed → List Block
listed_blocks (listed classes) = array_blocks tree_blocks classes
listed_blocks failed = []

unfoldable pub listing_of : Listed → Pmus.Listing
listing_of (listed classes) = Pmus.listed (classes_of classes)
listing_of failed = Pmus.failed

module _ (sys : System) (get_pmu_name : PmuTableEntry → Bytes) where
  is_empty-classes :
      (classes : Array OwnedClass) → is_empty (classes_of classes) ≡ is_empty (elements classes)
  is_empty-classes null = refl
  is_empty-classes (block array []) = refl
  is_empty-classes (block array (c ∷ list)) = refl

  list_or_fail-Triple :
      (classes : Array OwnedClass) (blocks : List Block)
      → IsFilled classes
      → Triple
          (array_blocks tree_blocks classes ++ blocks)
          (pure (list_or_fail sys get_pmu_name (some classes)))
          (λ r. listed_blocks r ++ blocks)
          (λ r. listing_of r ≡ (
            if is_empty (classes_of classes)
            then Pmus.failed
            else Pmus.listed (classes_of classes)))
  unfolding listed_blocks listing_of
  list_or_fail-Triple classes blocks filled =
      let post = λ (r : Listed). listed_blocks r ++ blocks in
      elim (Bool-cases (is_empty (elements classes))) [
        | inl e ↦ elim filled [
          | inl n ↦
              rw (is_empty-classes classes, e)
                (triple-same post _ {pre = blocks} (λ b. rw n (unfold array_blocks in refl))
                  (triple-pure post _ failed refl))
          | inr k ↦ absurd (cc (e, k))
        ]
        | inr e ↦ rw (is_empty-classes classes, e) (triple-pure post _ (listed classes) refl)
      ]

  pub get_pmus-Triple :
      (table : Option (List PmuTableEntry)) (blocks : List Block)
      → Pmus.get_pmus sys get_pmu_name table ≢ Pmus.crashed
      → Triple blocks
          (get_pmus sys get_pmu_name table)
          (λ r. listed_blocks r ++ blocks)
          (λ r. listing_of r ≡ Pmus.get_pmus sys get_pmu_name table)
  unfolding get_pmus Pmus.get_pmus array_blocks listed_blocks listing_of kept_blocks optional
  get_pmus-Triple none blocks defined = absurd (defined refl)
  get_pmus-Triple (some pmus) blocks defined =
      triple-bind (λ r. listed_blocks r ++ blocks) _ (λ c. kept_blocks c ++ blocks) _
        (add_classes-Triple sys get_pmu_name null pmus blocks (inl refl)
          (λ n. defined (rw (Pmus.get_pmus, n) refl)))
        (elim [
          | none ↦ λ e.
              rw (Pmus.get_pmus, ← e) (triple-pure (λ r. listed_blocks r ++ blocks) _ failed refl)
          | some classes ↦ λ (e, f). rw (Pmus.get_pmus, ← e) (list_or_fail-Triple classes blocks f)
        ])

pub free_listed-Triple :
    (r : Listed) (blocks : List Block)
    → Triple (listed_blocks r ++ blocks) (free_listed r) (λ _. blocks) Always
unfolding free_listed listed_blocks
free_listed-Triple (listed classes) blocks =
    triple-pointers class_blocks (λ a. free_pmus (some (record { classes = a })))
      (λ a heap o. free_pmus-Frees (record { classes = a }) heap o) classes blocks
free_listed-Triple failed blocks = triple-pure (λ _. blocks) Always tt tt
