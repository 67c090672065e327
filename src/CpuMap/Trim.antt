-- ===== src/CpuMap/Trim.antt =====
-- The map that `cpu_map__trim_new` returns: sorting, and removing duplicates in place.
use pmu_events.Base.{
  ℕ, ◌+◌, ◌-◌, ◌≡◌, refl, sym, ap, ◌∙◌, inl, inr, ◌==◌, if◌then◌else◌, List, [], ◌∷◌, ◌++◌, arith,
  length, take, take-append, append_assoc, append-nil, length-append, Bool-cases,
}
use pmu_events.CpuMap.{cpu_at, set_cpu, trim_round, trim_loop}

-- The list without repeated neighbours, `p` standing in front of it.
unfoldable pub distinct : ℕ → List ℕ → List ℕ
distinct p [] = []
distinct p (c ∷ cpus) = if c == p then distinct c cpus else c ∷ distinct c cpus

-- `cpu_at` and `set_cpu` in the middle of an array.
cpu_at-append : (front back : List ℕ) (c : ℕ) → cpu_at (length front) (front ++ c ∷ back) ≡ c
unfolding cpu_at
cpu_at-append [] back c = refl
cpu_at-append (d ∷ front) back c = cpu_at-append front back c

set_cpu-append :
    (front back : List ℕ) (c n : ℕ)
    → set_cpu (length front) n (front ++ c ∷ back) ≡ front ++ n ∷ back
unfolding set_cpu
set_cpu-append [] back c n = refl
set_cpu-append (d ∷ front) back c n = ap (λ (t : List ℕ). d ∷ t) (set_cpu-append front back c n)

at_split :
    (i : ℕ) (cpus front back : List ℕ) (c : ℕ)
    → cpus ≡ front ++ c ∷ back
    → length front ≡ i
    → cpu_at i cpus ≡ c
at_split i cpus front back c e n = rw (← n, e) (cpu_at-append front back c)

-- The array after round `i`: what is kept, what is left over, what is still to come; `p` is entry `i`.
record Shape (kept : List ℕ) (p : ℕ) (rest : List ℕ) (i : ℕ) (cpus : List ℕ) : Type 0 where
  old : List ℕ
  array : cpus ≡ kept ++ (old ++ rest)
  before : length kept + length old ≡ i + 1
  last : cpu_at i cpus ≡ p

Shape-current :
    (kept : List ℕ) (p c : ℕ) (rest : List ℕ) (i : ℕ) (cpus : List ℕ)
    → Shape kept p (c ∷ rest) i cpus
    → cpu_at (i + 1) cpus ≡ c
Shape-current kept p c rest i cpus s =
    at_split (i + 1) cpus (kept ++ s.old) rest c
      (s.array ∙ sym (append_assoc kept s.old (c ∷ rest))) (length-append kept s.old ∙ s.before)

-- The entry is passed over.
Shape-skip :
    (kept : List ℕ) (p c : ℕ) (rest : List ℕ) (i : ℕ) (cpus : List ℕ)
    → Shape kept p (c ∷ rest) i cpus
    → Shape kept c rest (i + 1) cpus
Shape-skip kept p c rest i cpus s = record {
  old = s.old ++ c ∷ [];
  array = s.array ∙ ap (λ (t : List ℕ). kept ++ t) (sym (append_assoc s.old (c ∷ []) rest));
  before = omega (arith, length-append s.old (c ∷ []), s.before);
  last = Shape-current kept p c rest i cpus s;
}

-- The entry is moved behind what is kept.
Shape-keep :
    (kept : List ℕ) (p c : ℕ) (rest : List ℕ) (i : ℕ) (cpus : List ℕ)
    → Shape kept p (c ∷ rest) i cpus
    → Shape (kept ++ c ∷ []) c rest (i + 1) (set_cpu (length kept) c cpus)
Shape-keep kept p c rest i cpus s = moved s.old s.array s.before
  where
    moved :
        (old : List ℕ)
        → cpus ≡ kept ++ (old ++ c ∷ rest)
        → length kept + length old ≡ i + 1
        → Shape (kept ++ c ∷ []) c rest (i + 1) (set_cpu (length kept) c cpus)
    moved [] e n =
        let same : set_cpu (length kept) c cpus ≡ kept ++ c ∷ rest =
          rw e (set_cpu-append kept rest c c) in
        record {
          old = [];
          array = same ∙ sym (append_assoc kept (c ∷ []) rest);
          before = omega (arith, length-append kept (c ∷ []));
          last = at_split (i + 1) (set_cpu (length kept) c cpus) kept rest c same (omega arith);
        }
    moved (o ∷ os) e n =
        let new : set_cpu (length kept) c cpus ≡ (kept ++ c ∷ []) ++ (os ++ c ∷ rest) =
          rw e (set_cpu-append kept (os ++ c ∷ rest) o c)
          ∙ sym (append_assoc kept (c ∷ []) (os ++ c ∷ rest)) in
        record {
          old = os ++ c ∷ [];
          array =
              new
              ∙ ap (λ (t : List ℕ). (kept ++ c ∷ []) ++ t) (sym (append_assoc os (c ∷ []) rest));
          before = omega (arith, length-append kept (c ∷ []), length-append os (c ∷ []));
          last =
              at_split (i + 1) (set_cpu (length kept) c cpus) ((kept ++ c ∷ []) ++ os) rest c
                (new ∙ sym (append_assoc (kept ++ c ∷ []) os (c ∷ rest)))
                (omega (arith, length-append (kept ++ c ∷ []) os, length-append kept (c ∷ [])));
        }

-- What is kept at the end.
abbrev pub kept_part : ℕ × List ℕ → List ℕ
kept_part state = take state.0 state.1

trim_round-Shape :
    (kept : List ℕ) (p c : ℕ) (rest : List ℕ) (i : ℕ) (cpus : List ℕ)
    → Shape kept p (c ∷ rest) i cpus
    → trim_round (i + 1) (length kept, cpus)
      ≡ (if c == p then (length kept, cpus) else (length kept + 1, set_cpu (length kept) c cpus))
unfolding trim_round
trim_round-Shape kept p c rest i cpus s =
    let back : i + 1 - 1 ≡ i = omega arith in
    rw (back, s.last, Shape-current kept p c rest i cpus s) (ground arith)

trim_loop-distinct :
    (rest kept : List ℕ) (p i : ℕ) (cpus : List ℕ)
    → Shape kept p rest i cpus
    → kept_part (trim_loop (length rest) (i + 1) (length kept, cpus)) ≡ kept ++ distinct p rest
unfolding trim_loop distinct
trim_loop-distinct [] kept p i cpus s =
    rw s.array (take-append kept (s.old ++ []) ∙ sym (append-nil kept))
trim_loop-distinct (c ∷ rest) kept p i cpus s = elim (Bool-cases (c == p)) [
  | inl e ↦
      rw (trim_loop, trim_round-Shape kept p c rest i cpus s, e)
        (trim_loop-distinct rest kept c (i + 1) cpus (Shape-skip kept p c rest i cpus s))
  | inr e ↦
      let longer : length kept + 1 ≡ length (kept ++ c ∷ []) =
        omega (arith, length-append kept (c ∷ [])) in
      rw (trim_loop, trim_round-Shape kept p c rest i cpus s, e, longer)
        (trim_loop-distinct rest (kept ++ c ∷ []) c (i + 1) (set_cpu (length kept) c cpus)
            (Shape-keep kept p c rest i cpus s)
          ∙ append_assoc kept (c ∷ []) (distinct c rest))
]

-- The list without repeated neighbours.
unfoldable pub firsts : List ℕ → List ℕ
firsts [] = []
firsts (c ∷ cpus) = c ∷ distinct c cpus

-- The loop that removes duplicates in place leaves the list without repeated neighbours.
pub trim_loop-firsts :
    (cpus : List ℕ) → kept_part (trim_loop (length cpus) 0 (0, cpus)) ≡ firsts cpus
unfolding trim_loop firsts trim_round cpu_at set_cpu
trim_loop-firsts [] = refl
trim_loop-firsts (c ∷ cpus) =
    trim_loop-distinct cpus (c ∷ []) c 0 (c ∷ cpus)
      (record { old = []; array = refl; before = refl; last = unfold cpu_at in refl })
