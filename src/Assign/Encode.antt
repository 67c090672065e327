-- ===== src/Assign/Encode.antt =====
-- How jevents.py writes the assignments of an event, and how the library reads them.
use pmu_events.Assign.{Assignment, asn, parse_value, parse_assignment, parse_assignment_list}
use pmu_events.Assign.Laws.{parse_assignment_iff}
use pmu_events.Base.{
  ℕ, ◌^◌, ◌<◌, ◌≡◌, refl, ◌≢◌, ◌∙◌, true, false, some, List, [], ◌∷◌, ◌++◌, arith, Bytes, Lacks,
  codes, ltb, if◌then◌else◌, inl, inr, ◌⊎◌, ltb→lt, traverse, traverse-cons, All, All-append,
  length, Bool-cases, map,
}
use pmu_events.Commas.Refine.{parse_commas-split, can_grow_always}
use pmu_events.Commas.Split.{split, join, split-join}
use pmu_events.Libc.Number.{strtoull, digit_value}
use pmu_events.Libc.Print.{print, print-Lacks, reads, digit_char}
use pmu_events.Libc.Print.Strtoull.{strtoull_digit, strtoull-print_hex_all, print_one_digit}
use pmu_events.Libc.Text.{streq}

-- `str` and `hex` of Python on a number that is not negative.
abbrev str : ℕ → Bytes
str = print 10

abbrev hex : ℕ → Bytes
hex x = b'0' ∷ b'x' ∷ print 16 x

unfoldable pub llx : ℕ → Bytes
llx x = if ltb x 10 then str x else hex x

-- A number of the JSON files: one that is written by `llx`, since its text begins with `0x` or it is
-- the event's code, or a decimal one.
pub data JsonNumber : Type 0 where
  hexadecimal decimal : ℕ → JsonNumber

abbrev pub number : JsonNumber → ℕ
number (hexadecimal n) = n
number (decimal n) = n

unfoldable pub canonicalize_value : JsonNumber → Bytes
unfolding llx
canonicalize_value (hexadecimal n) = llx n
canonicalize_value (decimal n) = str n

-- A field of the event with its value, as in `umask=0x10`.
pub record Field : Type 0 where
  pub key : Bytes
  pub val : JsonNumber

unfoldable pub encode : Field → Bytes
unfolding canonicalize_value
encode f = f.key ++ b'=' ∷ canonicalize_value f.val

-- All fields, with a comma before each but the first.
unfoldable pub encode_list : List Field → Bytes
unfolding encode
encode_list list = join (b',' ∷ []) (map encode list)

-- A key that can be read back: not empty, with neither a comma nor an equal sign.
pub record IsKey (key : Bytes) : Type 0 where
  pub has_key : key ≢ []
  pub no_comma : Lacks b',' key
  pub no_equal : Lacks b'=' key

llx_cases : (x : ℕ) → ((x < 10) × (llx x ≡ digit_char x ∷ [])) ⊎ (llx x ≡ b'0' ∷ b'x' ∷ print 16 x)
unfolding llx
llx_cases x = elim (Bool-cases (ltb x 10)) [
  | inl e ↦ inl (ltb→lt x 10 e, rw e (print_one_digit x (ltb→lt x 10 e)))
  | inr e ↦ inr (rw e)
]

strtoull-llx : (x : ℕ) → x < 2 ^ 64 → strtoull 16 (llx x) ≡ reads x []
strtoull-llx x h = elim (llx_cases x) [
  | inl (small, e) ↦ rw e (strtoull_digit x small)
  | inr e ↦ rw e (strtoull-print_hex_all x h)
]

-- The text of a number is neither empty nor `None`, and holds no comma.
abbrev IsPlain : Bytes → Type 0
IsPlain s = (s ≢ []) × (streq s (codes "None") ≡ false) × Lacks b',' s

digit-IsPlain : (x : ℕ) → x < 10 → IsPlain (digit_char x ∷ [])
unfolding digit_char streq
digit-IsPlain x h = (cc, ground arith, (ground arith, tt))

hex-IsPlain : (x : ℕ) → IsPlain (b'0' ∷ b'x' ∷ print 16 x)
unfolding streq digit_value
hex-IsPlain x = (
  cc,
  refl,
  (omega arith, (omega arith, print-Lacks 16 x b',' (omega arith) (omega arith) (omega arith))),
)

llx-IsPlain : (x : ℕ) → IsPlain (llx x)
llx-IsPlain x = elim (llx_cases x) [
  | inl (small, e) ↦ rw e (digit-IsPlain x small)
  | inr e ↦ rw e (hex-IsPlain x)
]

parse_value-llx : (x : ℕ) → x < 2 ^ 64 → parse_value (llx x) ≡ some x
unfolding parse_value
parse_value-llx x h = rw ((llx-IsPlain x).1, strtoull-llx x h)

-- Values that base 16 reads as they are meant: one decimal digit, or a 64-bit word with its `0x`.
abbrev pub IsReadable : JsonNumber → Type 0
IsReadable (hexadecimal n) = n < 2 ^ 64
IsReadable (decimal n) = n < 10

canonicalize_value-llx : (v : JsonNumber) → IsReadable v → canonicalize_value v ≡ llx (number v)
unfolding canonicalize_value llx
canonicalize_value-llx (hexadecimal n) h = refl
canonicalize_value-llx (decimal n) h = elim (Bool-cases (ltb n 10)) [
  | inl e ↦ rw e refl
  | inr e ↦ absurd (ground arith)
]

number-lt : (v : JsonNumber) → IsReadable v → number v < 2 ^ 64
number-lt (hexadecimal n) h = h
number-lt (decimal n) h = omega arith

abbrev pub CanEncode : Field → Type 0
CanEncode f = IsKey f.key × IsReadable f.val

abbrev pub assignment_of : Field → Assignment
assignment_of f = asn f.key (number f.val)

-- A field that jevents.py writes is read back.
parse_assignment-encode :
    (f : Field) → CanEncode f → parse_assignment (encode f) ≡ some (assignment_of f)
unfolding encode
parse_assignment-encode f (k, r) = (parse_assignment_iff (encode f) (assignment_of f)).1 (record {
  text = llx (number f.val);
  splits = rw (encode, canonicalize_value-llx f.val r) refl;
  plain_key = k.no_equal;
  has_key = k.has_key;
  has_text = (llx-IsPlain (number f.val)).0;
  is_value = parse_value-llx (number f.val) (number-lt f.val r);
})

encode-Lacks : (f : Field) → CanEncode f → Lacks b',' (encode f)
unfolding encode
encode-Lacks f (k, r) =
    rw (encode, canonicalize_value-llx f.val r)
      (All-append _ f.key (b'=' ∷ llx (number f.val)) k.no_comma
        (omega arith, (llx-IsPlain (number f.val)).2))

map-Lacks : (list : List Field) → All CanEncode list → All (Lacks b',') (map encode list)
map-Lacks [] h = tt
map-Lacks (f ∷ list) (h, hs) = (encode-Lacks f h, map-Lacks list hs)

traverse-map :
    (list : List Field)
    → All CanEncode list
    → traverse parse_assignment (map encode list) ≡ some (map assignment_of list)
unfolding traverse
traverse-map [] h = refl
traverse-map (f ∷ list) (h, hs) =
    traverse-cons parse_assignment (encode f) (map encode list) (parse_assignment-encode f h)
      (traverse-map list hs)

-- If memory lasts, the fields that jevents.py writes from numbers for an event, at least one, are
-- read back as their keys and numbers: each key is not empty and has no comma and no equal sign,
-- and each number is a 64-bit word that is written by `llx`, or a decimal digit.
pub parse_assignment_list-encode_list :
    (f : Field) (list : List Field)
    → All CanEncode (f ∷ list)
    → parse_assignment_list (λ _. true) (encode_list (f ∷ list))
      ≡ some (map assignment_of (f ∷ list))
unfolding parse_assignment_list
parse_assignment_list-encode_list f list (h, hs) =
    parse_commas-split (λ _. true) parse_assignment (encode_list (f ∷ list))
    ∙ rw (terms, can_grow_always 0 (length (encode f ∷ map encode list)))
        (traverse-map (f ∷ list) (h, hs))
  where
    terms : split b',' (encode_list (f ∷ list)) ≡ encode f ∷ map encode list
    terms =
        unfold encode_list in
        split-join b',' (encode f) (map encode list) (encode-Lacks f h) (map-Lacks list hs)
