-- ===== src/Files.antt =====
-- The functions of src/pmu-events.c that read files under `/sys`.
pub mod Laws
use pmu_events.Base.{
  ℕ, ◌+◌, Bool, true, false, not, Option, none, some, List, [], ◌∷◌, ◌++◌, ◌==◌, if◌then◌else◌,
  Bytes, codes, length, take, drop, is_empty, ◌%◌, ◌^◌, ◌-◌,
}
use pmu_events.Libc.Number.{strtoull}
use pmu_events.Libc.Text.{strchr, c_string}
use pmu_events.Pmu.{PmuInstance}
use pmu_events.Range.{RangeList, range, parse_range_list}
use pmu_events.System.{System, File}
use pmu_events.Word.{◌>>=◌, sub64}

abbrev pub pmu_devices_base : Bytes
pmu_devices_base = codes "/sys/bus/event_source/devices"

-- `snprintf` returns the length of the whole text.
unfoldable pub concat_path : Bytes → Bytes → Option Bytes
concat_path base filename =
    let path_len = length base + length filename + 1 in
    let path = base ++ b'/' ∷ filename in if length path == path_len then some path else none

-- The text up to its first newline.
unfoldable pub first_line : Bytes → Bytes
first_line content = elim (strchr b'\n' content) [ none ↦ content | some (line, rest) ↦ line ]

-- A buffer of `end + 1` bytes from `malloc`, with what `read` stored in front and a NUL at `end`.
unfoldable pub ended_buffer : System → ℕ → Bytes → Bytes
ended_buffer sys end bytes =
    bytes ++ (take (end - length bytes) (drop (length bytes) (sys.malloc (end + 1))) ++ 0 ∷ [])

-- From `lseek` to the NUL that is stored at the buffer's end.
unfoldable pub read_buffer : System → File → Option Bytes
unfolding ended_buffer
read_buffer sys file = do end ← file.size; bytes ← file.read end; some (ended_buffer sys end bytes)

unfoldable pub get_file_content : System → Bytes → Option Bytes
get_file_content sys path = do
  file ← sys.open_file path
  content ← read_buffer sys file
  some (first_line (c_string content))

unfoldable pub all_cpus : System → RangeList
all_cpus sys = range 0 (sub64 sys.nprocessors 1) ∷ []

-- `get_cpus_for` and `get_cpumask_for`, which differ in the file's name alone.
unfoldable pub get_cpu_list : Bytes → System → Bytes → Option RangeList
get_cpu_list filename sys pmu_path = do
  cpus_path ← concat_path pmu_path filename
  content ← if sys.access cpus_path then get_file_content sys cpus_path else none
  parse_range_list sys.realloc_ok content

unfoldable pub get_cpus_for : System → Bytes → Option RangeList
get_cpus_for = get_cpu_list (codes "cpus")

unfoldable pub get_cpumask_for : System → Bytes → Option RangeList
get_cpumask_for = get_cpu_list (codes "cpumask")

unfoldable pub get_format_file_content : System → Bytes → PmuInstance → Option Bytes
get_format_file_content sys fmt_file pmu_instance = do
  full_path ← concat_path pmu_devices_base pmu_instance.name
  format_path ← concat_path full_path (codes "format/")
  path ← concat_path format_path fmt_file
  get_file_content sys path

-- -1 as the 32 bits of an `int`.
abbrev pub minus_one : ℕ
minus_one = 2 ^ 32 - 1

-- The number in the file's first line, cut to 32 bits, if the line holds nothing else.
unfoldable pub parse_type : Bytes → ℕ
parse_type content =
    let res = strtoull 10 (first_line (c_string content)) in
    if is_empty res.rest then res.value % 2 ^ 32 else minus_one

unfoldable pub type_file : System → PmuInstance → Option Bytes
type_file sys pmu_instance = do
  full_path ← concat_path pmu_devices_base pmu_instance.name
  type_path ← concat_path full_path (codes "type")
  file ← sys.open_file type_path
  read_buffer sys file

-- The 32 bits of the `int` that is returned.
unfoldable pub read_perf_type : System → PmuInstance → ℕ
read_perf_type sys pmu_instance = elim (type_file sys pmu_instance) [
  | none ↦ minus_one
  | some content ↦ parse_type content
]
