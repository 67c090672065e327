-- ===== src/Files/Laws.antt =====
-- What the file readers return.
use pmu_events.Base.{
  ℕ, ◌≡◌, refl, ap, some, [], ◌∷◌, ◌++◌, Bytes, Lacks, arith, append_assoc, append-nil,
}
use pmu_events.Files.{first_line, ended_buffer, read_buffer, get_file_content}
use pmu_events.Libc.Text.{strchr, c_string}
use pmu_events.System.{System, File}

c_string-append : (s t : Bytes) → Lacks 0 s → c_string (s ++ t) ≡ s ++ c_string t
unfolding c_string
c_string-append [] t h = refl
c_string-append (b ∷ s) t (hb, h) = ground (arith, c_string-append s t h)

-- What the file holds: a line with no NUL, and behind its newline anything.
pub record HasLine (file : File) (line : Bytes) : Type 0 where
  pub end : ℕ
  pub rest : Bytes
  pub size : file.size ≡ some end
  pub reads : file.read end ≡ some (line ++ b'\n' ∷ rest)
  pub one_line : Lacks b'\n' line
  pub no_nul : Lacks 0 line

first_line-append : (s t : Bytes) → Lacks b'\n' s → first_line (s ++ t) ≡ s ++ first_line t
unfolding first_line strchr
first_line-append [] t h = refl
first_line-append (b ∷ s) t (hb, h) = ground (arith, first_line-append s t h)

first_line_empty : (t : Bytes) → first_line (b'\n' ∷ t) ≡ []
unfolding first_line strchr
first_line_empty t = refl

first_line-newline :
    (line tail : Bytes)
    → Lacks b'\n' line
    → Lacks 0 line
    → first_line (c_string (line ++ b'\n' ∷ tail)) ≡ line
unfolding c_string
first_line-newline line tail h k = rw (c_string-append line (b'\n' ∷ tail) k) (
    rw (first_line-append line (b'\n' ∷ c_string tail) h, first_line_empty (c_string tail))
      (append-nil line))

-- A file that opens and holds a newline, with no NUL in front of it, is read up to the newline,
-- whatever the allocator left in the buffer and however many bytes `read` returned behind it.
get_file_content-HasLine :
    (sys : System) (path : Bytes) (file : File) (line : Bytes)
    → sys.open_file path ≡ some file
    → HasLine file line
    → get_file_content sys path ≡ some line
unfolding get_file_content read_buffer ended_buffer
get_file_content-HasLine sys path file line e h =
    rw (e, h.size, h.reads, append_assoc line (b'\n' ∷ h.rest))
      (ap some (first_line-newline line _ h.one_line h.no_nul))
