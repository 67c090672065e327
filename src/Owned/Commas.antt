-- ===== src/Owned/Commas.antt =====
-- The loop of `parse_range_list` and `parse_assignment_list` with its blocks: the copy that `strdup`
-- makes, the array that `realloc` grows, and what the elements hold.
pub mod Laws
pub mod Lost
pub mod Loop
use pmu_events.Base.{
  ℕ, zero, suc, ◌+◌, Bool, Option, none, some, List, [], ◌∷◌, ◌++◌, if◌then◌else◌, Bytes, length,
}
use pmu_events.Free.{Block, Array, null, block, free}
use pmu_events.Libc.Text.{strchr}
use pmu_events.Memory.{Mem, pure, ◌>>=◌, ◌>>◌, malloc, freeing, touch, realloc}

-- A 0 with the array, or a -1, with the elements whose array was freed.
pub data Parsed (B : Type 0) : Type 0 where
  parsed : Array B → Parsed B
  failed : List B → Parsed B

module _ {B : Type 0} (realloc_ok : ℕ → Bool) (parse : Bytes → Mem (Option B)) where
  -- A -1: the array is freed, and the copy.
  unfoldable pub give_up : Block → Option Block → List B → Mem (Parsed B)
  give_up text array list = do freeing (free array); freeing (free (some text)); pure (failed list)

  unfoldable pub finish : Block → Block → List B → Mem (Parsed B)
  finish text array list = do freeing (free (some text)); pure (parsed (block array list))

  -- The term is parsed into the last element of the array; `next` goes on with the elements.
  unfoldable pub parse_into :
      Block → Block → List B → Bytes → (List B → Mem (Parsed B)) → Mem (Parsed B)
  unfolding give_up
  parse_into text array list term next = do
    touch text
    result ← parse term
    elim result [
      | none ↦ give_up text (some array) list
      | some b ↦ do touch array; next (list ++ b ∷ [])
    ]

  -- One round; `next` is the loop with the array, the elements and the text behind the comma.
  unfoldable pub round :
      Block
      → (Block → List B → Bytes → Mem (Parsed B))
      → Option Block
      → List B
      → Bytes
      → Mem (Parsed B)
  unfolding give_up finish parse_into
  round text next array list cur_range = do
    tmp ← realloc (realloc_ok (length list + 1)) array
    elim tmp [
      | none ↦ give_up text array list
      | some grown ↦ elim (strchr b',' cur_range) [
        | none ↦ parse_into text grown list cur_range (finish text grown)
        | some (term, rest) ↦ parse_into text grown list term λ list'. next grown list' rest
      ]
    ]

  unfoldable pub comma_loop : ℕ → Block → Option Block → List B → Bytes → Mem (Parsed B)
  unfolding round
  comma_loop zero text array list cur_range = λ m. none
  comma_loop (suc fuel) text array list cur_range =
      round text (λ grown. comma_loop fuel text (some grown)) array list cur_range

  unfoldable pub parse_commas : Bytes → Mem (Parsed B)
  unfolding comma_loop
  parse_commas term = do text ← malloc; comma_loop (length term + 1) text none [] term
