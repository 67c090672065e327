-- ===== src/Lib.antt =====
-- pmu-events: a stand-alone library for perf's names of hardware events.
--
-- The program. A script, jevents.py, compresses the events of every CPU into one generated C file.
-- The library, src/pmu-events.c, finds the PMUs of the running system under
-- /sys/bus/event_source/devices (get_pmus), looks an event up by its name in the table of an
-- instance (get_event_by_name), and turns the event's text, as in `event=0xa3,umask=0x2`, into the
-- type and the three config words of a `struct perf_event_attr` (gen_attr_for_event). For that it
-- reads, for each key of the text, the instance's format file, as in `config:0-7,32-35`, which names
-- the bits that the value goes to. The header include/pmu-events/types.h has the library's structs,
-- include/pmu-events/_impl/pmu-events.h those of its parsers, and examples/main.c is a client.
--
-- How the parts are modelled. Fallible functions return an Option, or a data type of their own where
-- there are more outcomes than success and -1: a shift or a NULL that C leaves undefined is an
-- outcome of its own. Strings are lists of bytes without the final NUL, arrays with a length are
-- lists, pointers to results are results. A 64-bit word is a natural number below 2 ^ 64, with its
-- wrap-around written out. What the kernel and the allocator answer is a record, System, of which
-- nothing is assumed: what open, lseek, read, access, readdir and sysconf return, whether realloc
-- succeeds for an array of so many elements, the array of classes apart from the others, and what
-- stands in memory that malloc returns. The
-- answers stay the same during one call. map_for_cpu, get_pmu_name and decompress_event are in
-- the generated file and are parameters of what calls them; the text of the first and the last is
-- modelled on its own.
--
-- Files. Base has shared types and lemmas, Libc the functions of string.h and stdlib.h that the code
-- calls and the digits that printf writes, Word the 64-bit operators and their bits.
--   Commas: the loop over comma-separated terms that parse_range_list and parse_assignment_list
--     share, with its reference, a split at every comma followed by a traversal.
--   Range: struct range, struct range_list, in_range_list, parse_range, parse_range_list
--     (src/pmu-events.c), and how examples/main.c prints the CPUs of an instance (Range/Print).
--   Assign: struct assignment, parse_assignment, parse_assignment_list; Assign/Encode and
--     Assign/Decimal: how jevents.py writes the values of an event.
--   Apply: apply_range_list_to_val. Config: struct config_def, parse_config_def and
--     apply_config_def_to_attr.
--   Pmu: the structs of include/pmu-events/types.h. System: the kernel and the allocator.
--   Files: concat_path, get_file_content, all_cpus, get_cpus_for, get_cpumask_for,
--     get_format_file_content, read_perf_type.
--   Event: get_event_by_name. Attr: gen_attr_for_event. Instances: get_all_pmu_instances_for.
--   Pmus: get_pmus. Midr: strcmp_cpuid_str of include/pmu-events/aarch64/util.h, by which the
--     generated file matches the running CPU with an entry of its table.
--   Reader: the buffered reader of include/pmu-events/aarch64/util.h, io__get_char, io__getdelim and
--     filename__read_str; what poll and read return is a list of answers.
--   CpuMap: struct perf_cpu_map of include/pmu-events/aarch64/util.h, the parser and the loops of
--     perf_cpu_map__new, and cpu_map__trim_new; CpuMap/New: perf_cpu_map__new with
--     perf_cpu_map__new_online_cpus, which call each other.
--   CpuId: get_cpuid and get_cpuid_str of the same file, which read MIDR_EL1 of a CPU.
--   X86: include/pmu-events/x86/util.h, the text that names a CPU and its comparison with a pattern of
--     the table; the instruction cpuid and the functions of regex.h are parameters.
--   Client: read_event and main of examples/main.c, on top of get_pmus, get_event_by_name and
--     gen_attr_for_event; Client/Print: list_events. The record Env has what surrounds them.
--   Free: the functions free_* of src/pmu-events.c, on a heap that says which blocks are live; the
--     structs are reduced to the pointers to blocks that they own.
--   Memory: actions on a memory, malloc, realloc and free, and what code does to the blocks that it
--     holds (Memory/Holds, Memory/Triple, Memory/Owning).
--   Owned: the functions of src/pmu-events.c that allocate, as such actions: Owned/Commas, Owned/Range
--     and Owned/Assign the parsers, Owned/Files the readers of files, Owned/Attr gen_attr_for_event,
--     Owned/Instances get_all_pmu_instances_for, Owned/Pmus get_pmus, Owned/Grow the arrays that grow
--     by one element. What they compute is that of Range, Assign, Files, Attr, Instances and Pmus,
--     whose functions of the same names have no memory; what they free, the functions of Free free.
--     Owned/Balance compares the memory before and after.
--   BigString: build_c_string and decompress_event, the latter as jevents.py writes it into the
--     generated file.
--   TableMap: map_for_cpu as it stands in the generated file, with its static variables.
--   Tests: runs on a sample system with two PMUs, on lists of CPUs, on a heap and on a memory.
-- A component's file has its definitions, and the files below it what is proved of them.
--
-- Bounds. The loop over comma-separated terms has the text's length and one as fuel: every round
-- but the last takes a comma. Printing a number n has n + 1 as fuel: each round divides it by the
-- base. The search for the lowest bit of a mask has 64, the bits of a word. Reading a line has as
-- many rounds as there are bytes to come, and one. The loops over the entries of a list of CPUs and
-- over the dashes of an identifier have the text's length and one: every round takes a byte. Calls of
-- perf_cpu_map__new within each other are counted, and two are enough. All other loops are
-- structural recursion on the list that the code walks.
--
-- Not modelled. malloc and strdup without a test are taken to succeed. What examples/main.c and
-- include/pmu-events/aarch64/util.h allocate, and the file descriptors. A block has no bytes: what is
-- in it stands beside it as a value. The 32-bit counters of loops do not wrap, since the lists are shorter.
-- What examples/main.c writes to the terminal while it reads, its signal and its pauses, and the
-- inline assembly of cpuid. How jevents.py merges the strings of all events into one and computes
-- their offsets, the tables of the generated file and the rest of jevents.py; metric.py.
mod Base
pub mod Libc
pub mod Word
pub mod Commas
pub mod Range
pub mod Apply
pub mod Config
pub mod Assign
pub mod Pmu
pub mod System
pub mod Files
pub mod Event
pub mod Attr
pub mod Instances
pub mod Pmus
pub mod Midr
pub mod Reader
pub mod CpuMap
pub mod Client
pub mod CpuId
pub mod X86
pub mod Free
pub mod Memory
pub mod Owned
pub mod BigString
pub mod TableMap
mod Tests
