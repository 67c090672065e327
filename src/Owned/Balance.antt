-- ===== src/Owned/Balance.antt =====
-- What the functions that allocate leave behind them, from a memory on.
use pmu_events.Assign
use pmu_events.Attr
use pmu_events.Attr.{Generated, done, failed, undefined}
use pmu_events.Base.{
  ℕ, ◌==◌, ◌≡◌, refl, append-nil, sym, ◌∙◌, ◌≢◌, Bool, Option, none, some, List, [], ◌++◌, Bytes,
  Bool-cases, inl, inr,
}
use pmu_events.Config
use pmu_events.Config.{PerfEventAttr, ConfigDef}
use pmu_events.Files
use pmu_events.Files.{minus_one}
use pmu_events.Free.Laws.{config_def_blocks, free_config_def-Frees}
use pmu_events.Free.{Block, free_config_def}
use pmu_events.Memory.{Memory, Mem, pure, ◌>>=◌, ◌>>◌, freeing}
use pmu_events.Memory.Holds.{IsFresh, Holds-start, count}
use pmu_events.Memory.Owning.{optional, value_of}
use pmu_events.Memory.Triple.{
  Gives, Triple, Always, triple-weaken, triple-pure, triple-bind, triple-freeing,
}
use pmu_events.Owned.Assign.{key_blocks, parse_assignment_list, parse_assignment_list-Triple}
use pmu_events.Owned.Attr.{Outcome, gen_attr_for_event}
use pmu_events.Owned.Attr.Loss.{IsLoss, nothing, type_text, keys, gen_attr_for_event-Triple}
use pmu_events.Owned.Commas.Laws.{parsed_blocks, values_of}
use pmu_events.Owned.Commas.Lost.{LostFirst}
use pmu_events.Owned.Pmus.{get_pmus, free_listed}
use pmu_events.Owned.Pmus.Laws.{listed_blocks, listing_of, get_pmus-Triple, free_listed-Triple}
use pmu_events.Owned.Range.{OwnedDef, def_blocks, parse_config_def, parse_config_def-Parses}
use pmu_events.Pmu.{PmuEvent, PmuInstance, PmuTableEntry}
use pmu_events.Pmus
use pmu_events.System.{System}

-- The code ends, with this value's property, and the same blocks are live as before.
pub record IsRestored {A : Type 0} (m : Memory) (x : Option (A × Memory)) (Q : A → Type 0)
    : Type 0 where
  pub value : A
  pub after : Memory
  pub returns : x ≡ some (value, after)
  pub live : (b : Block) → after.live b ≡ m.live b
  pub result : Q value

Gives-IsRestored :
    {A : Type 0} {m : Memory} {x : Option (A × Memory)} {post : A → List Block} {Q : A → Type 0}
    (g : Gives m x post Q)
    → post g.value ≡ []
    → IsRestored m x Q
unfolding count
Gives-IsRestored {m = m} g e = record {
  value = g.value;
  after = g.after;
  returns = g.returns;
  live = λ b. rw e at (g.holds.live b);
  result = g.result;
}

from_fresh :
    {A : Type 0} {post : A → List Block} {Q : A → Type 0} {f : Mem A} (m : Memory)
    → Triple [] f (λ a. post a ++ []) Q
    → IsFresh m
    → Gives m (f m) post Q
from_fresh {post = post} {Q = Q} m t fresh =
    triple-weaken post Q (λ a. post a ++ []) Q (λ a q. ((λ b. rw append-nil refl), q)) t m m
      (Holds-start m fresh)

-- If `malloc` takes blocks that are not live, a table is found and the array of classes does not
-- fail to grow behind a class, then `get_pmus` lists what it lists apart from memory, or returns
-- the -1, and after it exactly the blocks of the listed tree came to the memory: they are new,
-- different and live, and every other block is as it was.
pub get_pmus-Gives :
    (sys : System) (get_pmu_name : PmuTableEntry → Bytes) (table : Option (List PmuTableEntry))
    (m : Memory)
    → IsFresh m
    → Pmus.get_pmus sys get_pmu_name table ≢ Pmus.crashed
    → Gives m
        (get_pmus sys get_pmu_name table m)
        listed_blocks
        (λ r. listing_of r ≡ Pmus.get_pmus sys get_pmu_name table)
get_pmus-Gives sys get_pmu_name table m fresh defined =
    from_fresh m (get_pmus-Triple sys get_pmu_name table [] defined) fresh

-- If `malloc` takes blocks that are not live, a table is found and the array of classes does not
-- fail to grow behind a class, then `free_pmus` may free what `get_pmus` listed, and then the
-- memory has the live blocks that it had before both.
pub get_pmus-freed :
    (sys : System) (get_pmu_name : PmuTableEntry → Bytes) (table : Option (List PmuTableEntry))
    (m : Memory)
    → IsFresh m
    → Pmus.get_pmus sys get_pmu_name table ≢ Pmus.crashed
    → IsRestored m ((get_pmus sys get_pmu_name table >>= free_listed) m) Always
get_pmus-freed sys get_pmu_name table m fresh defined =
    Gives-IsRestored
      (from_fresh {post = λ _. []} m
        (triple-bind (λ _. []) Always (λ r. listed_blocks r ++ []) _
          (get_pmus-Triple sys get_pmu_name table [] defined) λ r _. free_listed-Triple r [])
        fresh)
      refl

-- If `malloc` takes blocks that are not live, then on any text and however far the array grows,
-- `parse_assignment_list` returns what it returns apart from memory; a 0 adds exactly the array and
-- the keys in it, and a -1 the keys of some assignments, those that the first terms of the text
-- parse to.
pub parse_assignment_list-Gives :
    (realloc_ok : ℕ → Bool) (str : Bytes) (m : Memory)
    → IsFresh m
    → Gives m (parse_assignment_list realloc_ok str m) (parsed_blocks key_blocks) (λ r.
      (values_of (λ asn. asn.value) r ≡ Assign.parse_assignment_list realloc_ok str)
      × LostFirst (λ asn. asn.value) Assign.parse_assignment str r)
parse_assignment_list-Gives realloc_ok str m fresh =
    from_fresh m (parse_assignment_list-Triple realloc_ok str []) fresh

-- What the caller of `parse_config_def` owes: `free_config_def` after a 0.
unfoldable pub free_parsed_def : Option OwnedDef → Mem (Option ConfigDef)
free_parsed_def none = pure none
free_parsed_def (some def) = do freeing (free_config_def def.blocks); pure (some def.value)

-- If `malloc` takes blocks that are not live, then on any text and however far the array grows,
-- `parse_config_def`, with `free_config_def` after a 0, computes what it computes apart from
-- memory, and leaves the blocks that were live.
pub parse_config_def-freed :
    (realloc_ok : ℕ → Bool) (term : Bytes) (m : Memory)
    → IsFresh m
    → IsRestored m
        ((parse_config_def realloc_ok term >>= free_parsed_def) m)
        (λ r. r ≡ Config.parse_config_def realloc_ok term)
unfolding free_parsed_def optional value_of
parse_config_def-freed realloc_ok term m fresh =
    Gives-IsRestored
      (from_fresh {post = λ _. []} m
        (triple-bind (λ _. []) (λ r. r ≡ Config.parse_config_def realloc_ok term)
          (λ r. optional def_blocks r ++ []) _ (parse_config_def-Parses realloc_ok term [])
          (elim [
            | none ↦
                λ e. triple-pure (λ _. []) (λ r. r ≡ Config.parse_config_def realloc_ok term) none e
            | some def ↦ λ e.
                triple-bind (λ _. []) _ (λ _. []) Always
                  (triple-freeing [] config_def_blocks free_config_def free_config_def-Frees
                    def.blocks)
                  λ _ _. triple-pure (λ _. []) _ (some def.value) e
          ]))
        fresh)
      refl

undefined_done : {b : PerfEventAttr} → undefined ≢ done b
undefined_done e = cc

failed_done : {a b : PerfEventAttr} → failed a ≢ done b
failed_done e = cc

-- Nothing is lost with a 0.
loss_done :
    (sys : System) (pmu_instance : PmuInstance) (ev : PmuEvent) (attr : PerfEventAttr) (o : Outcome)
    {out : PerfEventAttr}
    → Attr.gen_attr_for_event sys pmu_instance ev attr ≡ done out
    → IsLoss sys pmu_instance ev o
    → o.lost ≡ []
unfolding Attr.gen_attr_for_event Attr.generate
loss_done sys pmu_instance ev attr o e (nothing n) = n
loss_done sys pmu_instance ev attr o e (type_text t) =
    absurd (failed_done (rw (Attr.gen_attr_for_event, t) at e))
loss_done sys pmu_instance ev attr o e (keys event has refused) =
    elim (Bool-cases (Files.read_perf_type sys pmu_instance == minus_one)) [
      | inl k ↦ absurd (failed_done (rw (Attr.gen_attr_for_event, k) at e))
      | inr k ↦
          absurd (failed_done (rw (Attr.gen_attr_for_event, k, has, Attr.generate, refused) at e))
    ]

module _ (sys : System) (pmu_instance : PmuInstance) (ev : PmuEvent) (attr : PerfEventAttr)
    (m : Memory) where
  -- If `malloc` takes blocks that are not live, and no shift and no NULL text is undefined, then
  -- `gen_attr_for_event` generates what it generates apart from memory, and adds exactly the blocks
  -- that it loses. It loses blocks only when the type is read as -1, or when
  -- `parse_assignment_list` refuses the event's text, because this is no list of assignments or
  -- because the array does not grow.
  pub gen_attr_for_event-Gives :
      IsFresh m
      → Attr.gen_attr_for_event sys pmu_instance ev attr ≢ undefined
      → Gives m
          (gen_attr_for_event sys pmu_instance ev attr m)
          (λ o. o.lost)
          (λ o.
            (o.generated ≡ Attr.gen_attr_for_event sys pmu_instance ev attr)
            × IsLoss sys pmu_instance ev o)
  gen_attr_for_event-Gives fresh defined =
      from_fresh m (gen_attr_for_event-Triple sys pmu_instance [] ev attr defined) fresh

  -- If `malloc` takes blocks that are not live, and attributes are generated, the same blocks are
  -- live as before.
  pub gen_attr_for_event-done :
      {out : PerfEventAttr}
      → IsFresh m
      → Attr.gen_attr_for_event sys pmu_instance ev attr ≡ done out
      → IsRestored m (gen_attr_for_event sys pmu_instance ev attr m) (λ o. o.generated ≡ done out)
  gen_attr_for_event-done fresh e =
      let g = gen_attr_for_event-Gives fresh (λ u. undefined_done (sym u ∙ e)) in
      let r = Gives-IsRestored g (loss_done sys pmu_instance ev attr g.value e g.result.1) in
      record {
        value = r.value;
        after = r.after;
        returns = r.returns;
        live = r.live;
        result = r.result.0 ∙ e;
      }
