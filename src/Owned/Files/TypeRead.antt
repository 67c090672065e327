-- ===== src/Owned/Files/TypeRead.antt =====
-- `read_perf_type` of src/pmu-events.c with the texts that it allocates.
use pmu_events.Base.{
  ◌%◌, ◌^◌, ◌≡◌, refl, ◌⊎◌, inl, inr, ℕ, Option, none, some, List, ◌++◌, if◌then◌else◌, codes,
  is_empty, Option-cases, Bool-cases, arith,
}
use pmu_events.Files
use pmu_events.Files.{pmu_devices_base, first_line, minus_one}
use pmu_events.Free.Laws.{pointed}
use pmu_events.Free.{Block, free}
use pmu_events.Libc.Number.{strtoull}
use pmu_events.Libc.Text.{c_string}
use pmu_events.Memory.{Mem, pure, ◌>>=◌, ◌>>◌, freeing, touch}
use pmu_events.Memory.Holds.{count}
use pmu_events.Memory.Owning.{
  optional, value_of, Parses, Parses-none, unless_failed, using, Triple-then, Parses-using,
}
use pmu_events.Memory.Triple.{Triple, Always, triple-pure, triple-bind, triple-free, triple-touch}
use pmu_events.Owned.Files.{OwnedText, text_blocks, concat_path, read_buffer}
use pmu_events.Owned.Files.Laws.{concat_path-Parses, read_buffer-Parses}
use pmu_events.Pmu.{PmuInstance}
use pmu_events.System.{System}
use pmu_events.Word

-- The number that is returned, and the text that is not freed.
pub record TypeRead : Type 0 where
  pub type : ℕ
  pub lost : Option Block

-- From the text of the file on: a text that is no number is not freed.
unfoldable pub read_number : Option OwnedText → Mem TypeRead
read_number none = pure (record { type = minus_one; lost = none })
read_number (some content) =
    let res = strtoull 10 (first_line (c_string content.value)) in
    if is_empty res.rest
    then (do
      freeing (free (some content.blocks))
      pure (record { type = res.value % 2 ^ 32; lost = none }))
    else pure (record { type = minus_one; lost = some content.blocks })

module _ (sys : System) where
  -- The path is freed before the file is read.
  unfoldable pub open_and_read : OwnedText → Mem (Option OwnedText)
  open_and_read type_path = do
    touch type_path.blocks
    freeing (free (some type_path.blocks))
    elim (sys.open_file type_path.value) [ none ↦ pure none | some file ↦ read_buffer sys file ]

  unfoldable pub type_file : PmuInstance → Mem (Option OwnedText)
  unfolding open_and_read
  type_file pmu_instance =
      unless_failed (concat_path pmu_devices_base pmu_instance.name) λ full_path.
        unless_failed (using full_path.blocks (concat_path full_path.value (codes "type")))
          open_and_read

  unfoldable pub read_perf_type : PmuInstance → Mem TypeRead
  unfolding read_number
  read_perf_type pmu_instance = do content ← type_file pmu_instance; read_number content

  open_and_read-Triple :
      (path : OwnedText) (blocks : List Block)
      → Triple
          (text_blocks path ++ blocks)
          (open_and_read path)
          (λ r. optional text_blocks r ++ blocks)
          (λ r.
            value_of (λ s. s.value) r
            ≡ Word.◌>>=◌ (sys.open_file path.value) (λ file. Files.read_buffer sys file))
  unfolding open_and_read pointed count
  open_and_read-Triple path blocks =
      let post = λ (r : Option OwnedText). optional text_blocks r ++ blocks in
      triple-bind post _ (λ _. text_blocks path ++ blocks) Always
        (triple-touch (text_blocks path ++ blocks) path.blocks (ground arith))
        λ _ _.
          triple-bind post _ (λ _. blocks) Always (triple-free blocks (some path.blocks))
            λ _ _. elim (Option-cases (sys.open_file path.value)) [
              | inl e ↦ rw e (Parses-none (λ (s : OwnedText). s.value) text_blocks blocks)
              | inr (file, e) ↦ rw e (read_buffer-Parses sys file blocks)
            ]

  type_file-Parses :
      (pmu_instance : PmuInstance)
      → Parses
          (λ s. s.value)
          text_blocks
          (type_file pmu_instance)
          (Files.type_file sys pmu_instance)
  unfolding type_file Files.type_file
  type_file-Parses pmu_instance blocks =
      Triple-then (λ s. s.value) text_blocks (λ s. s.value) text_blocks blocks _ _ _
        (concat_path-Parses pmu_devices_base pmu_instance.name blocks)
        λ full_path.
          Triple-then (λ s. s.value) text_blocks (λ s. s.value) text_blocks blocks _ _ _
            (Parses-using (λ s. s.value) text_blocks full_path.blocks _ blocks
              (concat_path-Parses full_path.value (codes "type")))
            λ type_path. open_and_read-Triple type_path blocks

  -- The number, and a text is lost only with a -1.
  abbrev pub IsType : ℕ → TypeRead → Type 0
  IsType type r = (r.type ≡ type) × ((r.lost ≡ none) ⊎ (r.type ≡ minus_one))

  pub read_perf_type-Triple :
      (pmu_instance : PmuInstance) (blocks : List Block)
      → Triple blocks
          (read_perf_type pmu_instance)
          (λ r. pointed r.lost ++ blocks)
          (IsType (Files.read_perf_type sys pmu_instance))
  unfolding read_perf_type Files.read_perf_type Files.parse_type read_number
  read_perf_type-Triple pmu_instance blocks =
      let post = λ (r : TypeRead). pointed r.lost ++ blocks in
      triple-bind post _ (λ r. optional text_blocks r ++ blocks) _
        (type_file-Parses pmu_instance blocks)
        (elim [
          | none ↦ λ e.
              unfold optional value_of pointed in
              rw (Files.read_perf_type, ← e)
                (triple-pure post _ (record { type = minus_one; lost = none }) (refl, inl refl))
          | some content ↦ λ e.
              unfold optional value_of pointed in
              rw (Files.read_perf_type, ← e)
                (elim (Bool-cases
                  (is_empty (strtoull 10 (first_line (c_string content.value))).rest)) [
                    | inl k ↦ rw k (
                        triple-bind post _ (λ _. blocks) Always
                          (triple-free blocks (some content.blocks))
                          λ _ _. triple-pure post _ _ (refl, inl refl))
                    | inr k ↦ rw k (
                        triple-pure post _ (record { type = minus_one; lost = some content.blocks })
                          (refl, inr refl))
                  ])
        ])
