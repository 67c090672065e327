-- ===== src/Reader.antt =====
-- The buffered reader of include/pmu-events/aarch64/util.h: `struct io`, `io__fill_buffer`,
-- `io__get_char`, `io__getdelim` and `filename__read_str`.
pub mod Stream
pub mod Lines
use pmu_events.Base.{
  ℕ, zero, suc, ◌+◌, ◌≡◌, refl, Bool, true, false, not, ◌==◌, ◌&&◌, if◌then◌else◌, Option, none,
  some, List, [], ◌∷◌, ◌++◌, Bytes, codes, length, is_empty,
}

-- What the kernel answers when the buffer is filled: whether `poll` finds the file readable within
-- the timeout, and the bytes that `read` stores, none for its 0 and its -1.
pub record Answer : Type 0 where
  pub readable : Bool
  pub bytes : Bytes

-- `buffered` is what stands between the pointers `data` and `end`, `answers` what the kernel will answer.
pub record Io : Type 0 where
  pub buffered : Bytes
  pub timeout_ms : ℕ
  pub eof : Bool
  pub answers : List Answer

unfoldable pub io_init : List Answer → Io
io_init answers = record { buffered = []; timeout_ms = 0; eof = false; answers = answers }

-- The kernel's answer ends the file, or fails.
unfoldable pub is_end : ℕ → Answer → Bool
is_end timeout_ms a = if not (timeout_ms == 0) && not a.readable then true else is_empty a.bytes

unfoldable pub take_answer : Io → List Answer → Bool × Io
take_answer io [] = (false, record io { eof = true })
take_answer io (a ∷ answers) =
    if is_end io.timeout_ms a
    then (false, record io { eof = true; answers = answers })
    else (true, record io { buffered = a.bytes; answers = answers })

-- `false` is the -1.
unfoldable pub io_fill_buffer : Io → Bool × Io
io_fill_buffer io = if io.eof then (false, io) else take_answer io io.answers

unfoldable pub pop : Io → Bytes → Option ℕ × Io
pop io [] = (none, io)
pop io (c ∷ buffered) = (some c, record io { buffered = buffered })

-- A `char` has no sign on this platform: only the end gives -1, which is `none`.
unfoldable pub io_get_char : Io → Option ℕ × Io
io_get_char io =
    if is_empty io.buffered
    then (let (ok, io') = io_fill_buffer io in if ok then pop io' io'.buffered else (none, io'))
    else pop io io.buffered

-- The delimiter -1, which no character equals, is `none`.
unfoldable pub is_delim : Option ℕ → ℕ → Bool
is_delim none c = false
is_delim (some delim) c = c == delim

-- The number of bytes that can still be read: fuel for the loop.
unfoldable pub pending : ℕ → List Answer → ℕ
pending n [] = n
pending n (a ∷ answers) = pending (n + length a.bytes) answers

module _ (realloc_ok : ℕ → Bool) where
  -- The end of the function: `buf` goes behind `line`, with a NUL.
  unfoldable pub finish_line : Bytes → Bytes → Io → Option (Bytes × Io)
  finish_line line buf io =
      if realloc_ok (length line + length buf + 1) then some (line ++ buf, io) else none

  -- A full `buf` of 128 bytes goes behind `line`.
  unfoldable pub flush : Bytes → Bytes → Option (Bytes × Bytes)
  flush line buf =
      if length buf == 128
      then (if realloc_ok (length line + 128) then some (line ++ buf, []) else none)
      else some (line, buf)

  -- The loop, with fuel for the characters; `none` is -ENOMEM.
  unfoldable pub getdelim_loop : ℕ → Option ℕ → Bytes → Bytes → Io → Option (Bytes × Io)
  getdelim_loop zero delim line buf io = none
  getdelim_loop (suc fuel) delim line buf io =
      let (ch, io') = io_get_char io in
      elim ch [
        | none ↦ finish_line line buf io'
        | some c ↦ elim (flush line buf) [
          | none ↦ none
          | some (line', buf') ↦ elim (is_delim delim c) [
            | true ↦ finish_line line' (buf' ++ c ∷ []) io'
            | false ↦ getdelim_loop fuel delim line' (buf' ++ c ∷ []) io'
          ]
        ]
      ]

  -- `ch` is 0 before the loop, so that the delimiter 0 ends it at once.
  unfoldable pub io_getdelim : Io → Option ℕ → Option (Bytes × Io)
  io_getdelim io delim =
      if is_delim delim 0
      then finish_line [] [] io
      else getdelim_loop (pending (length io.buffered) io.answers + 1) delim [] [] io

  -- The argument is what the kernel answers for the file, if it opens. An error is `none`.
  unfoldable pub filename_read_str : Option (List Answer) → Option Bytes
  filename_read_str none = none
  filename_read_str (some answers) = elim (io_getdelim (io_init answers) none) [
    | none ↦ none
    | some (buf, io) ↦ some buf
  ]
