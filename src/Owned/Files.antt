-- ===== src/Owned/Files.antt =====
-- The functions of src/pmu-events.c that read files under `/sys`, with the texts that they allocate.
pub mod Laws
pub mod TypeRead
use pmu_events.Base.{
  ℕ, ◌+◌, ◌%◌, ◌^◌, ◌≡◌, refl, ◌∙◌, Bool, true, false, Option, none, some, List, [], ◌∷◌, ◌++◌,
  if◌then◌else◌, Bytes, codes, length, drop, is_empty, Option-cases, Bool-cases, inl, inr,
}
use pmu_events.Files
use pmu_events.Files.{ended_buffer, pmu_devices_base, first_line, minus_one}
use pmu_events.Free.Laws.{pointed}
use pmu_events.Free.{Block, free}
use pmu_events.Libc.Number.{strtoull}
use pmu_events.Libc.Text.{c_string}
use pmu_events.Memory.{Mem, pure, ◌>>=◌, ◌>>◌, malloc, freeing, touch}
use pmu_events.Memory.Holds.{count}
use pmu_events.Memory.Owning.{Owning, owning, optional, value_of, unless_failed, using}
use pmu_events.Memory.Triple.{
  Triple, Always, triple-pure, triple-bind, triple-return, triple-malloc, triple-free, triple-touch,
}
use pmu_events.Owned.Range.{OwnedRanges, ranges_blocks, parse_range_list, parse_range_list-Parses}
use pmu_events.Pmu.{PmuInstance}
use pmu_events.System.{System, File}
use pmu_events.Word

-- A text in a block.
abbrev pub OwnedText : Type 0
OwnedText = Owning Bytes Block

abbrev pub text_blocks : OwnedText → List Block
text_blocks s = s.blocks ∷ []

unfoldable pub concat_path : Bytes → Bytes → Mem (Option OwnedText)
concat_path base filename = do
  path ← malloc
  elim (Files.concat_path base filename) [
    | none ↦ do freeing (free (some path)); pure none
    | some text ↦ pure (some (owning text path))
  ]

-- From `lseek` to the NUL that is stored at the end of the buffer.
unfoldable pub read_buffer : System → File → Mem (Option OwnedText)
read_buffer sys file = elim file.size [
  | none ↦ pure none
  | some end ↦ do
    content ← malloc
    elim (file.read end) [
      | none ↦ do freeing (free (some content)); pure none
      | some bytes ↦ do touch content; pure (some (owning (ended_buffer sys end bytes) content))
    ]
]

unfoldable pub cut_line : Option OwnedText → Option OwnedText
cut_line none = none
cut_line (some content) = some (owning (first_line (c_string content.value)) content.blocks)

unfoldable pub get_file_content : System → Bytes → Mem (Option OwnedText)
unfolding cut_line
get_file_content sys path = elim (sys.open_file path) [
  | none ↦ pure none
  | some file ↦ do content ← read_buffer sys file; pure (cut_line content)
]

module _ (sys : System) where
  unfoldable pub read_if_there : OwnedText → Mem (Option OwnedText)
  read_if_there path =
      using path.blocks
        (if sys.access path.value then get_file_content sys path.value else pure none)

  -- `get_cpus_for` and `get_cpumask_for`. A NULL from `concat_path` is refused by `access`.
  unfoldable pub get_cpu_list : Bytes → Bytes → Mem (Option OwnedRanges)
  unfolding read_if_there
  get_cpu_list filename pmu_path = unless_failed (concat_path pmu_path filename) λ cpus_path.
      unless_failed (read_if_there cpus_path)
        λ content. using content.blocks (parse_range_list sys.realloc_ok content.value)

  -- Each path is freed once the next one is made from it.
  unfoldable pub get_format_file_content : Bytes → PmuInstance → Mem (Option OwnedText)
  get_format_file_content fmt_file pmu_instance =
      unless_failed (concat_path pmu_devices_base pmu_instance.name) λ full_path.
        unless_failed (using full_path.blocks (concat_path full_path.value (codes "format/")))
          λ format_path.
            unless_failed (using format_path.blocks (concat_path format_path.value fmt_file))
              λ path. using path.blocks (get_file_content sys path.value)

unfoldable pub get_cpus_for : System → Bytes → Mem (Option OwnedRanges)
get_cpus_for sys = get_cpu_list sys (codes "cpus")

unfoldable pub get_cpumask_for : System → Bytes → Mem (Option OwnedRanges)
get_cpumask_for sys = get_cpu_list sys (codes "cpumask")
