-- ===== src/Attr/Readback.antt =====
-- What `gen_attr_for_event` stores in the attributes, and how it is read back from them.
use pmu_events.Apply.Field.{width, within}
use pmu_events.Apply.Gather.{AreFields, Outside, gather, span, field, bit-field}
use pmu_events.Assign.{Assignment, parse_assignment_list}
use pmu_events.Attr.{
  Generated, done, apply_assignment, apply_assignments, generate, gen_attr_for_event,
}
use pmu_events.Attr.Resolve.{
  Placement, AreWords, Untouched, Resolves, nil, skip, place, apply_assignment_period,
  apply_assignment_place,
}
use pmu_events.Base.{
  ℕ, ◌+◌, ◌%◌, ◌≤◌, ◌≡◌, refl, sym, ◌≢◌, ◌⊎◌, inl, inr, ◌∙◌, true, false, Option, some, List, [],
  ◌∷◌, arith, All, Bytes, ltb, if◌then◌else◌, Bool-cases,
}
use pmu_events.Config.{
  AttrVar, config, config1, config2, ConfigDef, PerfEventAttr, apply_config_def_to_attr,
}
use pmu_events.Config.Laws.{member, IsPlaced, apply_config_def_to_attr-IsPlaced}
use pmu_events.Files.{read_perf_type, minus_one}
use pmu_events.Pmu.{PmuEvent, PmuInstance}
use pmu_events.Range.{Range, RangeList}
use pmu_events.System.{System}
use pmu_events.Word.Bit.{bit, bits_ext}

-- The places of two assignments do not overlap: they are in two members, or share no bit.
abbrev pub Apart : Placement → Placement → Type 0
Apart p q = (p.def.var ≢ q.def.var) ⊎ ((i : ℕ) → Outside p.def.range i ⊎ Outside q.def.range i)

abbrev pub Separate : List Placement → Type 0
Separate [] = Unit
Separate (p ∷ places) = All (Apart p) places × Separate places

abbrev pub IsReadBack : PerfEventAttr → Placement → Type 0
IsReadBack attr p = gather p.def.range (member p.def.var attr) ≡ p.value % span p.def.range

var_cases : (v w : AttrVar) → (v ≡ w) ⊎ (v ≢ w)
var_cases config config = inl refl
var_cases config1 config1 = inl refl
var_cases config2 config2 = inl refl
var_cases config config1 = inr cc
var_cases config config2 = inr cc
var_cases config1 config = inr cc
var_cases config1 config2 = inr cc
var_cases config2 config = inr cc
var_cases config2 config1 = inr cc

field_agree :
    (r : Range) (c d : ℕ)
    → r.start ≤ r.end
    → ((i : ℕ) → within r i ≡ true → bit c i ≡ bit d i)
    → field r c ≡ field r d
field_agree r c d o h =
    bits_ext (field r c) (field r d)
      λ i. bit-field r c i ∙ same_bit i (Bool-cases (ltb i (width r))) ∙ sym (bit-field r d i)
  where
    same_bit :
        (i : ℕ)
        → (ltb i (width r) ≡ true) ⊎ (ltb i (width r) ≡ false)
        → (if ltb i (width r) then bit c (r.start + i) else 0)
          ≡ (if ltb i (width r) then bit d (r.start + i) else 0)
    same_bit i (inl e) = rw e (h (r.start + i) (ground arith))
    same_bit i (inr e) = rw e

-- What is gathered depends on the bits of the ranges alone.
gather_agree :
    (list : RangeList) (c d : ℕ)
    → AreFields list
    → ((i : ℕ) → ¬ Outside list i → bit c i ≡ bit d i)
    → gather list c ≡ gather list d
unfolding gather
gather_agree [] c d f h = refl
gather_agree (r ∷ list) c d (f, _, fs) h = rw (
  field_agree r c d f.ordered (λ i k. h i (λ o. cc (k, o.0))),
  gather_agree list c d fs (λ i k. h i (λ o. k o.1)),
)

Untouched-Apart :
    (p : Placement) (places : List Placement) (i : ℕ)
    → All (Apart p) places
    → ¬ Outside p.def.range i
    → Untouched places p.def.var i
Untouched-Apart p [] i h k = tt
Untouched-Apart p (q ∷ places) i (inl ne, hs) k =
    (inl (λ e. ne (sym e)), Untouched-Apart p places i hs k)
Untouched-Apart p (q ∷ places) i (inr f, hs) k =
    (elim (f i) [ inl o ↦ absurd (k o) | inr o ↦ inr o ], Untouched-Apart p places i hs k)

pub record AreStored (attr : PerfEventAttr) (places : List Placement) (result : Generated)
    : Type 0 where
  pub out : PerfEventAttr
  pub returns : result ≡ done out
  pub same_type : out.type ≡ attr.type
  pub words : AreWords out
  pub untouched :
      (v : AttrVar) (i : ℕ) → Untouched places v i → bit (member v out) i ≡ bit (member v attr) i
  pub read_back : Separate places → All (IsReadBack out) places

IsPlaced-words :
    (attr : PerfEventAttr) (val : ℕ) (def : ConfigDef) (result : Option PerfEventAttr)
    (p : IsPlaced attr val def result)
    → AreWords attr
    → AreWords p.out
IsPlaced-words attr val def result p h v = elim (var_cases v def.var) [
  | inl e ↦ rw e p.word
  | inr ne ↦ rw (p.others v ne) (h v)
]

IsPlaced-untouched :
    (attr : PerfEventAttr) (val : ℕ) (def : ConfigDef) (result : Option PerfEventAttr)
    (p : IsPlaced attr val def result) (v : AttrVar) (i : ℕ)
    → (def.var ≢ v) ⊎ Outside def.range i
    → bit (member v p.out) i ≡ bit (member v attr) i
IsPlaced-untouched attr val def result p v i (inl ne) = rw (p.others v (λ e. ne (sym e)))
IsPlaced-untouched attr val def result p v i (inr o) = elim (var_cases v def.var) [
  | inl e ↦ rw e (p.kept i o)
  | inr ne ↦ rw (p.others v ne)
]

abbrev at : ConfigDef → ℕ → Placement
at def value = record { def = def; value = value }

AreStored-place :
    {attr : PerfEventAttr} {val : ℕ} {def : ConfigDef} {result : Option PerfEventAttr}
    {places : List Placement} {rest : Generated} (p : IsPlaced attr val def result)
    → AreFields def.range
    → AreStored p.out places rest
    → AreStored attr (at def val ∷ places) rest
AreStored-place {attr} {val} {def} {result} {places} p f s = record {
  out = s.out;
  returns = s.returns;
  same_type = s.same_type ∙ p.same_type;
  words = s.words;
  untouched = λ v i u. s.untouched v i u.1 ∙ IsPlaced-untouched attr val def result p v i u.0;
  read_back = λ sep. (
    gather_agree def.range (member def.var s.out) (member def.var p.out) f
          (λ i k. s.untouched def.var i (Untouched-Apart (at def val) places i sep.0 k))
        ∙ p.gathered,
    s.read_back sep.1,
  );
}

module _ (sys : System) (pmu_instance : PmuInstance) where
  apply_assignments-cons :
      (attr : PerfEventAttr) {out : PerfEventAttr} (asn : Assignment) (list : List Assignment)
      → apply_assignment sys pmu_instance attr asn ≡ done out
      → apply_assignments sys pmu_instance attr (asn ∷ list)
        ≡ apply_assignments sys pmu_instance out list
  unfolding apply_assignments
  apply_assignments-cons attr asn list e = rw e

  apply_assignments-AreStored :
      {list : List Assignment} {places : List Placement} (attr : PerfEventAttr)
      → AreWords attr
      → Resolves sys pmu_instance list places
      → AreStored attr places (apply_assignments sys pmu_instance attr list)
  apply_assignments-AreStored attr w nil = record {
    out = attr;
    returns = unfold apply_assignments in refl;
    same_type = refl;
    words = w;
    untouched = λ v i u. refl;
    read_back = λ sep. tt;
  }
  apply_assignments-AreStored attr w (skip {asn} {list} {places} e r) =
      rw
        (apply_assignments-cons attr asn list (apply_assignment_period sys pmu_instance attr asn e))
        (apply_assignments-AreStored attr w r)
  apply_assignments-AreStored attr w (place {asn} {def} {list} {places} ne format f r) =
      let p = apply_config_def_to_attr-IsPlaced attr asn.value def (w def.var) f in
      rw
        (apply_assignments-cons attr asn list
          (apply_assignment_place sys pmu_instance attr p.out asn def ne format p.returns))
        (AreStored-place p f (
          apply_assignments-AreStored p.out
            (IsPlaced-words attr asn.value def (apply_config_def_to_attr attr asn.value def) p w)
            r))

  -- If the type is read, the event's text is a list of assignments, each of these but `period` has
  -- a format file that names bit ranges which do not overlap, none a whole word, and the members
  -- were 64-bit words, then 0 is returned: the type is the one read, the members are 64-bit words,
  -- every bit that no assignment names is as it was, and if no two assignments share a bit, the low
  -- bits of each value can be read back from its ranges.
  pub gen_attr_for_event-AreStored :
      {event : Bytes} {list : List Assignment} {places : List Placement} (ev : PmuEvent)
      (attr : PerfEventAttr)
      → read_perf_type sys pmu_instance ≢ minus_one
      → ev.event ≡ some event
      → parse_assignment_list sys.realloc_ok event ≡ some list
      → AreWords attr
      → Resolves sys pmu_instance list places
      → AreStored
          (record attr { type = read_perf_type sys pmu_instance })
          places
          (gen_attr_for_event sys pmu_instance ev attr)
  gen_attr_for_event-AreStored {event} {list} ev attr ne e parses w r =
      rw (enters) (apply_assignments-AreStored typed words r)
    where
      typed : PerfEventAttr
      typed = record attr { type = read_perf_type sys pmu_instance }

      words : AreWords typed
      words = elim [ config ↦ w config | config1 ↦ w config1 | config2 ↦ w config2 ]

      enters :
          gen_attr_for_event sys pmu_instance ev attr
          ≡ apply_assignments sys pmu_instance typed list
      enters = unfold gen_attr_for_event generate in ground (arith, ne, e, parses)
