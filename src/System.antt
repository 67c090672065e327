-- ===== src/System.antt =====
-- What the library asks of the kernel and of the allocator: the answers during one call.
-- A -1 or a NULL is `none`. Nothing is assumed of the answers here.
use pmu_events.Base.{ℕ, Bool, Option, List, Bytes}

pub record File : Type 0 where
  -- `lseek(fd, 0, SEEK_END)`
  pub size : Option ℕ
  -- `read(fd, content, n)`: the bytes that it stores
  pub read : ℕ → Option Bytes

pub record System : Type 0 where
  pub open_file : Bytes → Option File
  -- `access(path, F_OK) == 0`
  pub access : Bytes → Bool
  -- The names that `readdir` returns for a path that `opendir` opens.
  pub dir_entries : Bytes → Option (List Bytes)
  -- `sysconf(_SC_NPROCESSORS_ONLN)`, as a 64-bit word
  pub nprocessors : ℕ
  -- Whether `realloc` gives an array of so many elements, other than the array of classes.
  pub realloc_ok : ℕ → Bool
  -- The same for the array of classes, whose elements have another size.
  pub classes_ok : ℕ → Bool
  -- What stands in the bytes that `malloc` returns, before anything is stored there.
  pub malloc : ℕ → Bytes
