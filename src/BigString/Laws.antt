-- ===== src/BigString/Laws.antt =====
-- What is written into the big string is read back.
use pmu_events.Base.{
  ◌≡◌, refl, ◌<◌, Bool, true, false, Option, none, some, [], ◌∷◌, ◌++◌, Bytes, length, drop, arith,
  Lacks, append_assoc,
}
use pmu_events.BigString.{c_text, c_flag, build_c_string, take_text, take_flag, decompress_event}
use pmu_events.Libc.Text.{strchr, strchr-append}
use pmu_events.Pmu.{PmuEvent}

-- No text, or one with a byte and without a NUL.
abbrev pub IsText : Option Bytes → Type 0
IsText none = Unit
IsText (some text) = (0 < length text) × Lacks 0 text

take_text-c_text :
    (t : Option Bytes) (rest : Bytes) → IsText t → take_text (c_text t ++ rest) ≡ some (t, rest)
unfolding take_text c_text
take_text-c_text none rest h = unfold strchr in refl
take_text-c_text (some []) rest h = absurd (omega (arith, h.0))
take_text-c_text (some (c ∷ text)) rest (h, k) =
    rw (append_assoc (c ∷ text) (0 ∷ []) rest, take_text, strchr-append 0 (c ∷ text) rest k) refl

take_flag-c_flag : (f : Bool) (rest : Bytes) → take_flag (c_flag f ++ rest) ≡ some (f, rest)
unfolding take_flag c_flag
take_flag-c_flag true rest = refl
take_flag-c_flag false rest = refl

-- The same for what stands in front of more.
next_text :
    (t : Option Bytes) (more back : Bytes)
    → IsText t
    → take_text ((c_text t ++ more) ++ back) ≡ some (t, more ++ back)
next_text t more back h =
    rw (append_assoc (c_text t) more back) (take_text-c_text t (more ++ back) h)

next_flag :
    (f : Bool) (more back : Bytes) → take_flag ((c_flag f ++ more) ++ back) ≡ some (f, more ++ back)
next_flag f more back = rw (append_assoc (c_flag f) more back) (take_flag-c_flag f (more ++ back))

pub record AreTexts (e : PmuEvent) : Type 0 where
  pub name : IsText e.name
  pub topic : IsText e.topic
  pub desc : IsText e.desc
  pub event : IsText e.event
  pub compat : IsText e.compat
  pub unit : IsText e.unit
  pub mean : IsText e.retirement_latency_mean
  pub min : IsText e.retirement_latency_min
  pub max : IsText e.retirement_latency_max
  pub long_desc : IsText e.long_desc

drop-length : (front rest : Bytes) → drop (length front) (front ++ rest) ≡ rest
drop-length [] rest = refl
drop-length (c ∷ front) rest = drop-length front rest

-- Wherever the form of an event by `build_c_string` stands in the big string, `decompress_event`
-- reads from its offset the event itself, if its texts have no NUL and none is empty. The member
-- `pmu` keeps what it was.
pub decompress_event-build_c_string :
    (e : PmuEvent) (front back : Bytes) (pe : PmuEvent)
    → AreTexts e
    → decompress_event (front ++ (build_c_string e ++ back)) (length front) pe
      ≡ some (record e { pmu = pe.pmu })
unfolding decompress_event build_c_string
decompress_event-build_c_string e front back pe t =
    rw
      (
        drop-length front,
        next_text e.name _ back t.name,
        next_text e.topic _ back t.topic,
        next_text e.desc _ back t.desc,
        next_text e.event _ back t.event,
        next_text e.compat _ back t.compat,
        next_flag e.deprecated _ back,
        next_flag e.perpkg _ back,
        next_text e.unit _ back t.unit,
        next_text e.retirement_latency_mean _ back t.mean,
        next_text e.retirement_latency_min _ back t.min,
        next_text e.retirement_latency_max _ back t.max,
        take_text-c_text e.long_desc back t.long_desc,
      )
      refl
