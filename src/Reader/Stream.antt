-- ===== src/Reader/Stream.antt =====
-- What is still to be read of a `struct io`, and how `io__get_char` takes it byte by byte.
use pmu_events.Base.{
  ℕ, ◌+◌, ◌≤◌, ◌≡◌, ◌≢◌, refl, ap, ◌⊎◌, inl, inr, Bool, true, false, if◌then◌else◌, none, some,
  List, [], ◌∷◌, ◌++◌, Bytes, length, is_empty, arith, Bool-cases, length-append, All,
}
use pmu_events.Reader.{Answer, Io, is_end, take_answer, io_fill_buffer, pop, io_get_char, pending}

-- The bytes of the answers, up to the first that ends the file.
unfoldable pub stream : ℕ → List Answer → Bytes
stream timeout_ms [] = []
stream timeout_ms (a ∷ answers) =
    if is_end timeout_ms a then [] else a.bytes ++ stream timeout_ms answers

-- All that is still to be read.
unfoldable pub unread : Io → Bytes
unread io = if io.eof then io.buffered else io.buffered ++ stream io.timeout_ms io.answers

-- What a read of one character does.
pub record AtEnd (io : Io) : Type 0 where
  pub out : Io
  pub returns : io_get_char io ≡ (none, out)
  pub empty : unread io ≡ []
  pub stays : unread out ≡ []

pub record Pops (io : Io) : Type 0 where
  pub c : ℕ
  pub out : Io
  pub returns : io_get_char io ≡ (some c, out)
  pub splits : unread io ≡ c ∷ unread out

abbrev io_of : Bytes → ℕ → Bool → List Answer → Io
io_of buffered timeout_ms eof answers = record {
  buffered = buffered;
  timeout_ms = timeout_ms;
  eof = eof;
  answers = answers;
}

abbrev answer : Bool → Bytes → Answer
answer readable bytes = record { readable = readable; bytes = bytes }

is_end-nil : (t : ℕ) (readable : Bool) → is_end t (answer readable []) ≡ true
unfolding is_end
is_end-nil t readable = ground arith

get_char_filled :
    (t : ℕ) (readable : Bool) (bytes : Bytes) (answers : List Answer)
    → is_end t (answer readable bytes) ≡ false
    → AtEnd (io_of [] t false (answer readable bytes ∷ answers))
      ⊎ Pops (io_of [] t false (answer readable bytes ∷ answers))
unfolding io_get_char io_fill_buffer take_answer pop unread stream
get_char_filled t readable [] answers e = absurd (cc (e, is_end-nil t readable))
get_char_filled t readable (c ∷ bytes) answers e =
    inr
      (record { c = c; out = io_of bytes t false answers; returns = rw e refl; splits = rw e refl })

get_char_cases :
    (buffered : Bytes) (t : ℕ) (eof : Bool) (answers : List Answer)
    → AtEnd (io_of buffered t eof answers) ⊎ Pops (io_of buffered t eof answers)
unfolding io_get_char io_fill_buffer take_answer pop unread stream
get_char_cases (c ∷ buffered) t true answers =
    inr (record { c = c; out = io_of buffered t true answers; returns = refl; splits = refl })
get_char_cases (c ∷ buffered) t false answers =
    inr (record { c = c; out = io_of buffered t false answers; returns = refl; splits = refl })
get_char_cases [] t true answers =
    inl (record { out = io_of [] t true answers; returns = refl; empty = refl; stays = refl })
get_char_cases [] t false [] =
    inl (record { out = io_of [] t true []; returns = refl; empty = refl; stays = refl })
get_char_cases [] t false (a ∷ answers) = elim (Bool-cases (is_end t a)) [
  | inl e ↦ inl (record {
    out = io_of [] t true answers;
    returns = rw e refl;
    empty = rw e refl;
    stays = refl;
  })
  | inr e ↦ get_char_filled t a.readable a.bytes answers e
]

pub io_get_char_cases : (io : Io) → AtEnd io ⊎ Pops io
io_get_char_cases io = get_char_cases io.buffered io.timeout_ms io.eof io.answers

pending_add : (n : ℕ) (answers : List Answer) → pending n answers ≡ n + pending 0 answers
unfolding pending
pending_add n [] = omega arith
pending_add n (a ∷ answers) =
    omega
      (arith, pending_add (n + length a.bytes) answers, pending_add (0 + length a.bytes) answers)

stream-pending : (t : ℕ) (answers : List Answer) → length (stream t answers) ≤ pending 0 answers
unfolding stream pending
stream-pending t [] = omega arith
stream-pending t (a ∷ answers) = elim (Bool-cases (is_end t a)) [
  | inl e ↦ rw e (omega arith)
  | inr e ↦ rw e (
      omega (
        arith,
        length-append a.bytes (stream t answers),
        pending_add (0 + length a.bytes) answers,
        stream-pending t answers,
      ))
]

-- The fuel is enough for what is to be read.
pub unread-pending : (io : Io) → length (unread io) ≤ pending (length io.buffered) io.answers
unfolding unread
unread-pending io = ground (
  arith,
  pending_add (length io.buffered) io.answers,
  stream-pending io.timeout_ms io.answers,
  length-append io.buffered (stream io.timeout_ms io.answers),
)

-- The bytes of all answers.
unfoldable pub joined : List Answer → Bytes
joined [] = []
joined (a ∷ answers) = a.bytes ++ joined answers

is_empty_ne : (s : Bytes) → s ≢ [] → is_empty s ≡ false
is_empty_ne [] ne = absurd (ne refl)
is_empty_ne (c ∷ s) ne = refl

pub stream-joined :
    (answers : List Answer) → All (λ a. a.bytes ≢ []) answers → stream 0 answers ≡ joined answers
unfolding stream joined is_end
stream-joined [] h = refl
stream-joined (a ∷ answers) (ne, h) =
    rw (is_empty_ne a.bytes ne) (ap (λ (t : Bytes). a.bytes ++ t) (stream-joined answers h))
