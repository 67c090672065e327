-- ===== src/X86.antt =====
-- include/pmu-events/x86/util.h: the text that names an x86 CPU, and its comparison with the table's.
pub mod Text
pub mod Full
pub mod Compare
use pmu_events.Base.{
  ℕ, zero, suc, ◌+◌, ◌-◌, ◌*◌, ◌/◌, ◌%◌, ◌^◌, ◌≡◌, refl, bit_and, Bool, true, false, not, ◌&&◌,
  ◌==◌, ltb, leb, if◌then◌else◌, Option, none, some, List, [], ◌∷◌, ◌++◌, Bytes, codes, length,
  take, map,
}
use pmu_events.Libc.Print.{print}
use pmu_events.Libc.Text.{strchr, c_string}

-- What the instruction `cpuid` stores, as 32-bit words.
pub record Registers : Type 0 where
  pub a : ℕ
  pub b : ℕ
  pub c : ℕ
  pub d : ℕ

-- The bytes of a word in memory.
unfoldable pub word_bytes : ℕ → Bytes
word_bytes w = w % 2 ^ 8 ∷ w / 2 ^ 8 % 2 ^ 8 ∷ w / 2 ^ 16 % 2 ^ 8 ∷ w / 2 ^ 24 % 2 ^ 8 ∷ []

-- The `n` bytes that `strncpy` stores: behind a NUL they are 0.
unfoldable pub strncpy : ℕ → Bytes → Bytes
strncpy zero s = []
strncpy (suc n) [] = 0 ∷ strncpy n []
strncpy (suc n) (c ∷ s) =
    let zeros = strncpy n [] in let rest = strncpy n s in if c == 0 then 0 ∷ zeros else c ∷ rest

-- -1 printed by `%u` and `%X`.
abbrev pub uint_minus_one : ℕ
uint_minus_one = 2 ^ 32 - 1

pub record Version : Type 0 where
  pub family : ℕ
  pub model : ℕ
  pub step : ℕ

unfoldable pub family_of : ℕ → ℕ
family_of a =
    let family = bit_and (a / 2 ^ 8) 0xf in
    if family == 0xf then family + bit_and (a / 2 ^ 20) 0xff else family

unfoldable pub model_of : ℕ → ℕ → ℕ
model_of family a =
    let model = bit_and (a / 2 ^ 4) 0xf in
    if leb 0x6 family then model + bit_and (a / 2 ^ 16) 0xf * 2 ^ 4 else model

-- `%X`
unfoldable pub upper_char : ℕ → ℕ
upper_char c = if leb b'a' c && leb c b'z' then c - 32 else c

unfoldable pub print_upper : ℕ → Bytes
print_upper n = map upper_char (print 16 n)

-- `"%s-%u-%X-%X"`
unfoldable pub id_text : Bytes → Version → Bytes
id_text vendor v =
    vendor
    ++ b'-' ∷ (print 10 v.family ++ b'-' ∷ (print_upper v.model ++ b'-' ∷ print_upper v.step))

-- `copied` is a 0, with the text in the buffer; `enobufs` the other return; `overrun` a byte stored
-- behind the buffer.
pub data Copied : Type 0 where
  copied : Bytes → Copied
  enobufs : Bytes → Copied
  overrun : Copied

-- `snprintf` stores `sz - 1` bytes and a NUL, and returns the length of the whole text.
unfoldable pub finish_text : ℕ → Bytes → Copied
finish_text sz text =
    let buffer = take (sz - 1) text in
    let nb = length text in
    elim (strchr b'$' buffer) [
      | none ↦ enobufs buffer
      | some found ↦ if ltb (nb - 1) sz then copied (take (nb - 1) buffer) else overrun
    ]

module _ (cpuid : ℕ → Registers) where
  -- The buffer `vendor`, with its NUL.
  unfoldable pub get_cpuid_0 : Bytes
  get_cpuid_0 =
      let r = cpuid 0 in
      strncpy 4 (word_bytes r.b)
      ++ (strncpy 4 (word_bytes r.d) ++ (strncpy 4 (word_bytes r.c) ++ 0 ∷ []))

  unfoldable pub cpu_version : Version
  cpu_version =
      let a = (cpuid 1).a in
      let family = family_of a in
      if leb 1 (cpuid 0).a
      then record { family = family; model = model_of family a; step = bit_and a 0xf }
      else record { family = uint_minus_one; model = uint_minus_one; step = uint_minus_one }

  -- `__get_cpuid` with the format of `get_cpuid_str`.
  unfoldable pub get_cpuid : ℕ → Copied
  get_cpuid sz = finish_text sz (id_text (c_string get_cpuid_0) cpu_version ++ b'$' ∷ [])

  -- `ENOBUFS` is no negative number. `none` is NULL.
  unfoldable pub get_cpuid_str : Bool → Option Copied
  get_cpuid_str malloc_ok = if malloc_ok then some (get_cpuid 128) else none

-- The loop that counts dashes, with fuel for the text.
unfoldable pub dashes : ℕ → Bytes → ℕ
dashes zero tmp = 0
dashes (suc fuel) tmp = elim (strchr b'-' tmp) [
  | none ↦ 0
  | some (front, back) ↦ suc (dashes fuel back)
]

unfoldable pub is_full_cpuid : Bytes → Bool
is_full_cpuid id = dashes (length id + 1) id == 3

-- The text in front of the last `c`.
unfoldable pub strrchr : ℕ → Bytes → Option Bytes
strrchr c [] = none
strrchr c (b ∷ s) = elim (strrchr c s) [
  | some front ↦ some (b ∷ front)
  | none ↦ if b == c then some [] else none
]

-- `none` subtracts from a NULL.
unfoldable pub cpuid_len : Bool → Bytes → Option ℕ
cpuid_len ignores_step id =
    if ignores_step
    then elim (strrchr b'-' id) [ none ↦ none | some front ↦ some (length front) ]
    else some (length id)

unfoldable pub compare_match : Bytes → Bytes → ℕ × ℕ → Option ℕ
compare_match mapcpuid id (rm_so, rm_eo) =
    elim (cpuid_len (not (is_full_cpuid mapcpuid) && is_full_cpuid id) id) [
      | none ↦ none
      | some len ↦ some (if rm_eo - rm_so == len then 0 else 1)
    ]

-- `regcomp` and `regexec` of regex.h: whether a pattern is valid, and where its match starts and ends.
module _ (regcomp : Bytes → Bool) (regexec : Bytes → Bytes → Option (ℕ × ℕ)) where
  unfoldable pub strcmp_cpuid_str : Bytes → Bytes → Option ℕ
  strcmp_cpuid_str mapcpuid id =
      if is_full_cpuid mapcpuid && not (is_full_cpuid id)
      then some 1
      else if regcomp mapcpuid
      then elim (regexec mapcpuid id) [
        | none ↦ some 1
        | some pmatch ↦ compare_match mapcpuid id pmatch
      ]
      else some 1

-- The registers of an Intel Skylake server.
abbrev pub skylake : ℕ → Registers
skylake zero = record { a = 0x16; b = 0x756e6547; c = 0x6c65746e; d = 0x49656e69 }
skylake (suc n) = record { a = 0x50654; b = 0; c = 0; d = 0 }

skylake_text : get_cpuid_str skylake true ≡ some (copied (codes "GenuineIntel-6-55-4"))
unfolding get_cpuid_str get_cpuid finish_text get_cpuid_0 cpu_version id_text print_upper upper_char
    family_of model_of word_bytes strncpy strchr c_string print
skylake_text = refl
