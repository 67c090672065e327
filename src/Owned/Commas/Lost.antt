-- ===== src/Owned/Commas/Lost.antt =====
-- One round of the loop without blocks, and what a -1 of the loop loses.
use mathlib.Core.Path.{subst}
use mathlib.Core.List.{map}
use pmu_events.Base.{
  ℕ, suc, ◌+◌, ◌≡◌, refl, sym, ◌∙◌, Bool, true, false, Option, none, some, List, [], ◌∷◌, ◌++◌,
  Bytes, length, traverse, traverse-cons, take, append-nil, append_assoc,
}
use pmu_events.Commas
use pmu_events.Commas.Split.{split}
use pmu_events.Libc.Text.{strchr}
use pmu_events.Owned.Commas.{Parsed, parsed, failed}

-- The elements and what is read of the text decide the round of the loop without blocks.
module _ {A : Type 0} (realloc_ok : ℕ → Bool) (parse : Bytes → Option A) where
  pub loop_refused :
      (fuel : ℕ) (list : List A) (text : Bytes)
      → realloc_ok (length list + 1) ≡ false
      → Commas.comma_loop realloc_ok parse (suc fuel) list text ≡ none
  unfolding Commas.comma_loop
  loop_refused fuel list text e = rw e

  pub loop_last :
      (fuel : ℕ) (list : List A) (text : Bytes)
      → realloc_ok (length list + 1) ≡ true
      → strchr b',' text ≡ none
      → Commas.comma_loop realloc_ok parse (suc fuel) list text
        ≡ (elim (parse text) [ none ↦ none | some r ↦ some (list ++ r ∷ []) ])
  unfolding Commas.comma_loop
  loop_last fuel list text e k = rw (e, k)

  pub loop_next :
      (fuel : ℕ) (list : List A) (text term rest : Bytes)
      → realloc_ok (length list + 1) ≡ true
      → strchr b',' text ≡ some (term, rest)
      → Commas.comma_loop realloc_ok parse (suc fuel) list text ≡ (elim (parse term) [
        | none ↦ none
        | some r ↦ Commas.comma_loop realloc_ok parse fuel (list ++ r ∷ []) rest
      ])
  unfolding Commas.comma_loop
  loop_next fuel list text term rest e k = rw (e, k)

module _ {A B : Type 0} (val : B → A) (parse_value : Bytes → Option A) where
  -- The elements are what the first terms of the text parse to.
  unfoldable pub AreFirst : List B → Bytes → Type 0
  AreFirst list text =
      traverse parse_value (take (length list) (split b',' text)) ≡ some (map val list)

  -- What a -1 loses: `list`, and what the first terms of the text behind it parse to.
  abbrev pub Lost : List B → Bytes → Parsed B → Type 0
  Lost list cur (parsed array) = Unit
  Lost list cur (failed lost) = (more : List B) × (lost ≡ list ++ more) × AreFirst more cur

  -- What a -1 loses from the whole text.
  abbrev pub LostFirst : Bytes → Parsed B → Type 0
  LostFirst cur (parsed array) = Unit
  LostFirst cur (failed lost) = AreFirst lost cur

  pub Lost-first : (cur : Bytes) (r : Parsed B) → Lost [] cur r → LostFirst cur r
  Lost-first cur (parsed array) lost = tt
  Lost-first cur (failed lost) (more, e, first) = subst (λ l. AreFirst l cur) (sym e) first

  pub Lost-none : (list : List B) (cur : Bytes) → Lost list cur (failed list)
  unfolding AreFirst traverse
  Lost-none list cur = ([], sym (append-nil list), refl)

  AreFirst-cons :
      (term after cur : Bytes) (b : B) (more : List B)
      → split b',' cur ≡ term ∷ split b',' after
      → parse_value term ≡ some (val b)
      → AreFirst more after
      → AreFirst (b ∷ more) cur
  unfolding AreFirst
  AreFirst-cons term after cur b more s v first =
      rw (AreFirst, s)
        (traverse-cons parse_value term (take (length more) (split b',' after)) v first)

  pub Lost-cons :
      (term after cur : Bytes) (list : List B) (b : B) (r : Parsed B)
      → split b',' cur ≡ term ∷ split b',' after
      → parse_value term ≡ some (val b)
      → Lost (list ++ b ∷ []) after r
      → Lost list cur r
  Lost-cons term after cur list b (parsed array) s v lost = tt
  Lost-cons term after cur list b (failed lost) s v (more, e, first) =
      (b ∷ more, e ∙ append_assoc list (b ∷ []) more, AreFirst-cons term after cur b more s v first)
