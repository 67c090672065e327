-- ===== src/Owned/Attr/Loop.antt =====
-- The loop of `gen_attr_for_event` over the assignments: it frees their list.
use pmu_events.Attr
use pmu_events.Attr.{Generated, done, failed, undefined}
use pmu_events.Attr.Errors.{enters_format, apply_assignment_period}
use pmu_events.Base.{
  ◌≤◌, ◌≡◌, refl, sym, inl, inr, ◌≢◌, List, [], ◌∷◌, ◌++◌, map, codes, arith, Bool-cases,
}
use pmu_events.Config.{PerfEventAttr}
use pmu_events.Free.Laws.{blocks_of, array_blocks}
use pmu_events.Free.{Block, Array}
use pmu_events.Libc.Text.{streq}
use pmu_events.Memory.Holds.{count, count-append}
use pmu_events.Memory.Owning.{optional}
use pmu_events.Memory.Triple.{Triple, Always, triple-pure, triple-bind}
use pmu_events.Owned.Assign.{OwnedAssignment, key_blocks, free_list-Triple}
use pmu_events.Owned.Attr.{apply_assignment, apply_assignments}
use pmu_events.Owned.Attr.Laws.{round_blocks, post, apply_format-Triple}
use pmu_events.Owned.Grow.{array_pointer, triple-touch_pointer, array_pointer-within}
use pmu_events.Owned.Files.{text_blocks}
use pmu_events.Owned.Files.Laws.{get_format_file_content-Parses}
use pmu_events.Pmu.{PmuInstance}
use pmu_events.System.{System}

module _ (sys : System) (pmu_instance : PmuInstance) (asn_list : Array OwnedAssignment)
    (blocks : List Block) where
  abbrev held : List Block
  held = array_blocks key_blocks asn_list

  apply_assignment-Triple :
      (attr : PerfEventAttr) (asn : OwnedAssignment)
      → ((b : Block) → count b (key_blocks asn) ≤ count b held)
      → Attr.apply_assignment sys pmu_instance attr asn.value ≢ undefined
      → Triple
          (held ++ blocks)
          (apply_assignment sys pmu_instance asn_list attr asn)
          (post sys pmu_instance asn_list blocks)
          (λ r. r ≡ Attr.apply_assignment sys pmu_instance attr asn.value)
  unfolding apply_assignment round_blocks
  apply_assignment-Triple attr asn within defined =
      let pre = held ++ blocks in
      let p = post sys pmu_instance asn_list blocks in
      triple-bind p _ (λ _. pre) Always
        (triple-touch_pointer pre (array_pointer asn_list)
          (array_pointer-within key_blocks asn_list blocks))
        λ _ _.
          triple-bind p _ (λ _. pre) Always
            (triple-touch_pointer pre asn.blocks.key
              (λ b. omega (arith, within b, count-append b held blocks)))
            λ _ _. elim (Bool-cases (streq asn.value.key (codes "period"))) [
              | inl e ↦ rw e (
                  triple-pure p _ (done attr)
                    (sym (apply_assignment_period sys pmu_instance attr asn.value e)))
              | inr e ↦
                  let enters = enters_format sys pmu_instance attr asn.value e in
                  rw e (
                    triple-bind p _ (λ r. optional text_blocks r ++ pre) _
                      (get_format_file_content-Parses sys asn.value.key pmu_instance pre)
                      λ text k.
                        rw (enters, ← k)
                          (apply_format-Triple sys pmu_instance asn_list blocks attr asn text
                            (rw (k, ← enters) defined)))
            ]

  -- The list is freed when the loop ends, however it does.
  pub apply_assignments-Triple :
      (attr : PerfEventAttr) (list : List OwnedAssignment)
      → ((b : Block) → count b (blocks_of key_blocks list) ≤ count b held)
      → Attr.apply_assignments sys pmu_instance attr (map (λ asn. asn.value) list) ≢ undefined
      → Triple
          (held ++ blocks)
          (apply_assignments sys pmu_instance asn_list attr list)
          (λ _. blocks)
          (λ r. r ≡ Attr.apply_assignments sys pmu_instance attr (map (λ asn. asn.value) list))
  unfolding apply_assignments Attr.apply_assignments round_blocks blocks_of
  apply_assignments-Triple attr [] within defined =
      triple-bind (λ _. blocks) _ (λ _. blocks) Always (free_list-Triple asn_list blocks)
        λ _ _. triple-pure (λ _. blocks) _ (done attr) refl
  apply_assignments-Triple attr (asn ∷ list) within defined =
      let both = λ (b : Block). count-append b (key_blocks asn) (blocks_of key_blocks list) in
      triple-bind (λ _. blocks) _ (post sys pmu_instance asn_list blocks) _
        (apply_assignment-Triple attr asn (λ b. omega (arith, within b, both b))
          (λ u. defined (rw (Attr.apply_assignments, u) refl)))
        (elim [
          | done attr' ↦ λ e.
              rw (Attr.apply_assignments, ← e)
                (apply_assignments-Triple attr' list (λ b. omega (arith, within b, both b))
                  (λ u. defined (rw (Attr.apply_assignments, ← e) u)))
          | failed attr' ↦ λ e.
              rw (Attr.apply_assignments, ← e) (triple-pure (λ _. blocks) _ (failed attr') refl)
          | undefined ↦ λ e. absurd (defined (rw (Attr.apply_assignments, ← e) refl))
        ])
