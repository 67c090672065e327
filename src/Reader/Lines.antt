-- ===== src/Reader/Lines.antt =====
-- What `io__getdelim` and `filename__read_str` read.
use pmu_events.Base.{
  ℕ, zero, suc, ◌+◌, ◌<◌, ◌≡◌, ◌≢◌, refl, ap, ◌∙◌, inl, inr, Bool, true, false, ◌==◌, if◌then◌else◌,
  Option, none, some, List, [], ◌∷◌, ◌++◌, Bytes, length, arith, Bool-cases, append_assoc,
  append-nil, All,
}
use pmu_events.Reader.{
  Answer, Io, io_get_char, is_delim, finish_line, flush, getdelim_loop, pending, io_getdelim,
  io_init, filename_read_str,
}
use pmu_events.Reader.Stream.{unread, joined, io_get_char_cases, unread-pending, stream-joined}

-- Up to and including the first delimiter.
unfoldable pub upto : Option ℕ → Bytes → Bytes
upto delim [] = []
upto delim (c ∷ s) = if is_delim delim c then c ∷ [] else c ∷ upto delim s

unfoldable pub beyond : Option ℕ → Bytes → Bytes
beyond delim [] = []
beyond delim (c ∷ s) = if is_delim delim c then s else beyond delim s

-- A line was read: it is what was to be read up to the delimiter, behind what is there already, and
-- the rest is still to be read.
pub record IsLine (delim : Option ℕ) (front s : Bytes) (result : Option (Bytes × Io)) : Type 0 where
  pub out : Io
  pub returns : result ≡ some (front ++ upto delim s, out)
  pub rest : unread out ≡ beyond delim s

IsLine-nil :
    (delim : Option ℕ) (front : Bytes) (io : Io)
    → unread io ≡ []
    → IsLine delim front [] (some (front, io))
unfolding upto beyond
IsLine-nil delim front io e = record { out = io; returns = rw (append-nil front) refl; rest = e }

IsLine-last :
    (delim : Option ℕ) (front : Bytes) (c : ℕ) (io : Io)
    → is_delim delim c ≡ true
    → IsLine delim front (c ∷ unread io) (some (front ++ c ∷ [], io))
unfolding upto beyond
IsLine-last delim front c io d = record { out = io; returns = rw d refl; rest = rw d refl }

IsLine-cons :
    (delim : Option ℕ) (front : Bytes) (c : ℕ) (s : Bytes) (result : Option (Bytes × Io))
    → is_delim delim c ≡ false
    → IsLine delim (front ++ c ∷ []) s result
    → IsLine delim front (c ∷ s) result
unfolding upto beyond
IsLine-cons delim front c s result d h = record {
  out = h.out;
  returns = h.returns ∙ rw (d, append_assoc front (c ∷ []) (upto delim s)) refl;
  rest = h.rest ∙ rw d refl;
}

upto-none : (s : Bytes) → upto none s ≡ s
unfolding upto is_delim
upto-none [] = refl
upto-none (c ∷ s) = ap (λ (t : Bytes). c ∷ t) (upto-none s)

module _ (realloc_ok : ℕ → Bool) (ok : (n : ℕ) → realloc_ok n ≡ true) where
  finish_line_lem :
      (line buf : Bytes) (io : Io) → finish_line realloc_ok line buf io ≡ some (line ++ buf, io)
  unfolding finish_line
  finish_line_lem line buf io = rw (ok (length line + length buf + 1))

  flush_lem :
      (line buf : Bytes)
      → (line' : Bytes) × (buf' : Bytes) × (flush realloc_ok line buf ≡ some (line', buf'))
        × (line' ++ buf' ≡ line ++ buf)
  unfolding flush
  flush_lem line buf = elim (Bool-cases (length buf == 128)) [
    | inl e ↦ (line ++ buf, [], rw (e, ok (length line + 128)) refl, append-nil (line ++ buf))
    | inr e ↦ (line, buf, rw e refl, refl)
  ]

  getdelim_loop_end :
      (fuel : ℕ) (delim : Option ℕ) (line buf : Bytes) (io : Io) {out : Io}
      → io_get_char io ≡ (none, out)
      → getdelim_loop realloc_ok (suc fuel) delim line buf io ≡ some (line ++ buf, out)
  unfolding getdelim_loop
  getdelim_loop_end fuel delim line buf io {out} e =
      rw (getdelim_loop, ap (λ (p : Option ℕ × Io). p.0) e, ap (λ (p : Option ℕ × Io). p.1) e)
        (finish_line_lem line buf out)

  getdelim_loop_pop :
      (fuel : ℕ) (delim : Option ℕ) (line buf : Bytes) (io : Io) {line' buf' : Bytes} {c : ℕ}
      {out : Io}
      → io_get_char io ≡ (some c, out)
      → flush realloc_ok line buf ≡ some (line', buf')
      → getdelim_loop realloc_ok (suc fuel) delim line buf io ≡ (
          if is_delim delim c
          then some (line' ++ (buf' ++ c ∷ []), out)
          else getdelim_loop realloc_ok fuel delim line' (buf' ++ c ∷ []) out)
  unfolding getdelim_loop
  getdelim_loop_pop fuel delim line buf io {line'} {buf'} {c} {out} e f =
      elim (Bool-cases (is_delim delim c)) [
        | inl d ↦
            rw
              (
                getdelim_loop,
                ap (λ (p : Option ℕ × Io). p.0) e,
                f,
                d,
                ap (λ (p : Option ℕ × Io). p.1) e,
              )
              (finish_line_lem line' (buf' ++ c ∷ []) out)
        | inr d ↦
            rw
              (
                getdelim_loop,
                ap (λ (p : Option ℕ × Io). p.0) e,
                f,
                d,
                ap (λ (p : Option ℕ × Io). p.1) e,
              )
              refl
      ]

  getdelim_loop-IsLine :
      (fuel : ℕ) (delim : Option ℕ) (line buf : Bytes) (io : Io)
      → length (unread io) < fuel
      → IsLine delim (line ++ buf) (unread io) (getdelim_loop realloc_ok fuel delim line buf io)
  getdelim_loop-IsLine zero delim line buf io h = absurd (omega arith)
  getdelim_loop-IsLine (suc fuel) delim line buf io h = elim (io_get_char_cases io) [
    | inl end ↦
        rw (end.empty, getdelim_loop_end fuel delim line buf io end.returns)
          (IsLine-nil delim (line ++ buf) end.out end.stays)
    | inr p ↦
        let (line', buf', f, same) = flush_lem line buf in
        rw (p.splits, getdelim_loop_pop fuel delim line buf io p.returns f, ← same)
          (elim (Bool-cases (is_delim delim p.c)) [
            | inl d ↦ rw d (
                rw (← append_assoc line' buf' (p.c ∷ []))
                  (IsLine-last delim (line' ++ buf') p.c p.out d))
            | inr d ↦ rw d (
                IsLine-cons delim (line' ++ buf') p.c (unread p.out) _ d (
                  rw (append_assoc line' buf' (p.c ∷ [])) (
                    getdelim_loop-IsLine fuel delim line' (buf' ++ p.c ∷ []) p.out
                      (omega (arith, h, ap length p.splits)))))
          ])
  ]

  -- With memory for all and a delimiter that is not NUL, `io__getdelim` returns what is still to be
  -- read up to the first delimiter, it included, and leaves what stands behind it to be read,
  -- however the kernel cuts the file into pieces and whichever of them the buffer holds.
  pub io_getdelim-IsLine :
      (io : Io) (delim : Option ℕ)
      → is_delim delim 0 ≡ false
      → IsLine delim [] (unread io) (io_getdelim realloc_ok io delim)
  unfolding io_getdelim
  io_getdelim-IsLine io delim e = rw e (
      getdelim_loop-IsLine (pending (length io.buffered) io.answers + 1) delim [] [] io
        (omega (arith, unread-pending io)))

  -- With memory for all, a file that opens is read whole, whatever its bytes, if `read` returns it in
  -- pieces that are not empty: the text is these pieces in order.
  filename_read_str-joined :
      (answers : List Answer)
      → All (λ a. a.bytes ≢ []) answers
      → filename_read_str realloc_ok (some answers) ≡ some (joined answers)
  unfolding filename_read_str unread io_init
  filename_read_str-joined answers h =
      let line = io_getdelim-IsLine (io_init answers) none (unfold is_delim in refl) in
      rw (filename_read_str, line.returns)
        (ap some (upto-none (unread (io_init answers)) ∙ stream-joined answers h))
