-- ===== src/Owned/Commas/Loop.antt =====
-- What the comma loop leaves, and that its result is that of the loop without blocks.
use mathlib.Core.List.{map, map-append}
use pmu_events.Base.{
  ℕ, zero, suc, ◌+◌, ◌<◌, ◌≡◌, refl, sym, ◌∙◌, ap, Bool, true, Option, none, some, List, [], ◌∷◌,
  ◌++◌, Bytes, length, length-map, arith, Option-cases, inl, inr,
}
use pmu_events.Commas
use pmu_events.Commas.Split.{split-strchr-some}
use pmu_events.Free.Laws.{pointed, blocks_of}
use pmu_events.Free.{Block}
use pmu_events.Libc.Text.{strchr}
use pmu_events.Memory.{Mem}
use pmu_events.Memory.Holds.{AreSame, count, count-append}
use pmu_events.Memory.Owning.{optional, value_of, Parses}
use pmu_events.Memory.Triple.{
  Triple, Always, triple-same, triple-bind, triple-malloc, triple-touch, triple-realloc,
  triple-weaken, IsGiven, grown_blocks,
}
use pmu_events.Owned.Commas.{Parsed, failed, finish, parse_into, round, comma_loop, parse_commas}
use pmu_events.Owned.Commas.Laws.{
  blocks_of-append, members_of, values_of, parsed_blocks, held, post, give_up-Triple, finish-Triple,
}
use pmu_events.Owned.Commas.Lost.{
  loop_refused, loop_last, loop_next, Lost, LostFirst, Lost-first, Lost-none, Lost-cons,
}

module _ {A B : Type 0} (val : B → A) (of : B → List Block) (realloc_ok : ℕ → Bool)
    (parse : Bytes → Mem (Option B)) (parse_value : Bytes → Option A)
    (parses : (term : Bytes) → Parses val of (parse term) (parse_value term)) (text : Block)
    (blocks : List Block) where
  into-AreSame :
      (array : Block) (list : List B) (b : B)
      → AreSame
          (of b ++ held of (some array) text list blocks)
          (held of (some array) text (list ++ b ∷ []) blocks)
  unfolding held pointed count blocks_of
  into-AreSame array list b c = omega (
    arith,
    count-append c (of b) (array ∷ (text ∷ (blocks_of of list ++ blocks))),
    count-append c (blocks_of of list) blocks,
    count-append c (blocks_of of (list ++ b ∷ [])) blocks,
    blocks_of-append of list (b ∷ []) c,
    count-append c (of b) [],
  )

  parse_into-Triple :
      (Q : Parsed B → Type 0) (array : Block) (list : List B) (term : Bytes)
      (next : List B → Mem (Parsed B))
      → (parse_value term ≡ none → Q (failed list))
      → ((b : B)
          → parse_value term ≡ some (val b)
          → Triple
              (held of (some array) text (list ++ b ∷ []) blocks)
              (next (list ++ b ∷ []))
              (post of blocks)
              Q)
      → Triple
          (held of (some array) text list blocks)
          (parse_into realloc_ok parse text array list term next)
          (post of blocks)
          Q
  unfolding parse_into optional value_of
  parse_into-Triple Q array list term next refused stored =
      let pre = held of (some array) text list blocks in
      let p = post of blocks in
      triple-bind p Q (λ _. pre) Always
        (triple-touch pre text (unfold held pointed count in ground arith))
        λ _ _.
          triple-bind p Q (λ r. optional of r ++ pre) (λ r. value_of val r ≡ parse_value term)
            (parses term pre)
            elim [
              | none ↦ λ e.
                  give_up-Triple of text blocks Q realloc_ok parse (some array) list
                    (refused (sym e))
              | some b ↦ λ e.
                  triple-bind p Q (λ _. of b ++ pre) Always
                    (triple-touch (of b ++ pre) array
                      (unfold held pointed count in ground (arith, count-append array (of b) pre)))
                    λ _ _. triple-same p Q (λ c. into-AreSame array list b c) (stored b (sym e))
            ]

  -- The result is that of the loop without blocks, and what a -1 loses is parsed from the first terms.
  abbrev Computes : ℕ → List B → Bytes → Parsed B → Type 0
  Computes fuel list cur r =
      (values_of val r ≡ Commas.comma_loop realloc_ok parse_value fuel (map val list) cur)
      × Lost val parse_value list cur r

  round-Triple :
      (fuel : ℕ) (next : Block → List B → Bytes → Mem (Parsed B)) (array : Option Block)
      (list : List B) (cur : Bytes)
      → ((grown : Block) (list' : List B) (rest : Bytes)
          → length rest < length cur
          → Triple
              (held of (some grown) text list' blocks)
              (next grown list' rest)
              (post of blocks)
              (Computes fuel list' rest))
      → Triple
          (held of array text list blocks)
          (round realloc_ok parse text next array list cur)
          (post of blocks)
          (Computes (suc fuel) list cur)
  unfolding round held grown_blocks pointed values_of members_of
  round-Triple fuel next array list cur next_ok =
      let p = post of blocks in
      let Q = Computes (suc fuel) list cur in
      let rest = text ∷ (blocks_of of list ++ blocks) in
      triple-bind p Q (λ tmp. grown_blocks array tmp ++ rest)
        (IsGiven (realloc_ok (length list + 1)))
        (triple-realloc (realloc_ok (length list + 1)) array rest)
        (elim [
          | none ↦ λ e. give_up-Triple of text blocks Q realloc_ok parse array list (
            sym (
                loop_refused realloc_ok parse_value fuel (map val list) cur
                  (rw (length-map val list) e)),
            Lost-none val parse_value list cur,
          )
          | some grown ↦ λ e.
              let ok : realloc_ok (length (map val list) + 1) ≡ true = rw (length-map val list) e in
              elim (Option-cases (strchr b',' cur)) [
                | inl k ↦
                    let one = loop_last realloc_ok parse_value fuel (map val list) cur ok k in
                    rw k (
                      parse_into-Triple Q grown list cur (finish realloc_ok parse text grown)
                        (λ n. (sym (one ∙ rw n), Lost-none val parse_value list cur))
                        λ b v.
                          finish-Triple of text blocks Q realloc_ok parse grown (list ++ b ∷ [])
                            (ap some (map-append val list (b ∷ [])) ∙ sym (one ∙ rw v), tt))
                | inr ((term, after), k) ↦
                    let one =
                      loop_next realloc_ok parse_value fuel (map val list) cur term after ok k in
                    let (s, shorter) = split-strchr-some b',' cur term after k in
                    rw k (
                      parse_into-Triple Q grown list term (λ list'. next grown list' after)
                        (λ n. (sym (one ∙ rw n), Lost-none val parse_value list cur))
                        λ b v.
                          triple-weaken p Q p (Computes fuel (list ++ b ∷ []) after)
                            (λ r (q, lost). (
                              λ c. refl,
                              (
                                q ∙ rw (map-append val list (b ∷ [])) (sym (one ∙ rw v)),
                                Lost-cons val parse_value term after cur list b r s v lost,
                              ),
                            ))
                            (next_ok grown (list ++ b ∷ []) after shorter))
              ]
        ])

  comma_loop-Triple :
      (fuel : ℕ) (array : Option Block) (list : List B) (cur : Bytes)
      → length cur < fuel
      → Triple
          (held of array text list blocks)
          (comma_loop realloc_ok parse fuel text array list cur)
          (post of blocks)
          (Computes fuel list cur)
  unfolding comma_loop
  comma_loop-Triple zero array list cur enough = absurd (omega (arith, enough))
  comma_loop-Triple (suc fuel) array list cur enough =
      round-Triple fuel (λ grown. comma_loop realloc_ok parse fuel text (some grown)) array list cur
        λ grown list' rest shorter.
          comma_loop-Triple fuel (some grown) list' rest (omega (arith, enough, shorter))

module _ {A B : Type 0} (val : B → A) (of : B → List Block) (realloc_ok : ℕ → Bool)
    (parse : Bytes → Mem (Option B)) (parse_value : Bytes → Option A)
    (parses : (term : Bytes) → Parses val of (parse term) (parse_value term)) where
  -- Whatever the terms are, and however far the array can grow, what is left is the array with what
  -- its elements hold, or, with a -1, what the elements hold.
  pub parse_commas-Triple :
      (blocks : List Block) (term : Bytes)
      → Triple blocks
          (parse_commas realloc_ok parse term)
          (λ r. parsed_blocks of r ++ blocks)
          (λ r.
            (values_of val r ≡ Commas.parse_commas realloc_ok parse_value term)
            × LostFirst val parse_value term r)
  unfolding parse_commas Commas.parse_commas
  parse_commas-Triple blocks term =
      let Q = λ (r : Parsed B).
        (values_of val r ≡ Commas.comma_loop realloc_ok parse_value (length term + 1) [] term)
        × LostFirst val parse_value term r in
      triple-bind (post of blocks) Q (λ b. b ∷ blocks) Always (triple-malloc blocks)
        λ text _.
          triple-same (post of blocks) Q {pre = held of none text [] blocks}
            (λ c. unfold held pointed blocks_of in refl)
            (triple-weaken (post of blocks) Q (post of blocks) _
              (λ r (e, lost). (λ c. refl, (e, Lost-first val parse_value term r lost)))
              (comma_loop-Triple val of realloc_ok parse parse_value parses text blocks
                (length term + 1) none [] term (omega arith)))
