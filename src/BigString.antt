-- ===== src/BigString.antt =====
-- How jevents.py writes an event into the big string of the generated file (build_c_string), and
-- `decompress_event`, the C function that it generates to read an event from there.
pub mod Laws
use pmu_events.Base.{
  ℕ, ◌+◌, ◌≡◌, refl, Bool, true, false, not, ◌==◌, if◌then◌else◌, Option, none, some, List, [], ◌∷◌,
  ◌++◌, Bytes, codes, length, drop, is_empty,
}
use pmu_events.Libc.Text.{strchr}
use pmu_events.Pmu.{PmuEvent}
use pmu_events.Word.{◌>>=◌}

-- A text with its NUL; a value that is missing or empty is a NUL alone.
unfoldable pub c_text : Option Bytes → Bytes
c_text none = 0 ∷ []
c_text (some text) = text ++ 0 ∷ []

unfoldable pub c_flag : Bool → Bytes
c_flag true = b'1' ∷ []
c_flag false = b'0' ∷ []

-- `build_c_string`, in the order of `_json_event_attributes`.
unfoldable pub build_c_string : PmuEvent → Bytes
build_c_string e =
    c_text e.name
    ++ (c_text e.topic
        ++ (c_text e.desc
            ++ (c_text e.event
                ++ (c_text e.compat
                    ++ (c_flag e.deprecated
                        ++ (c_flag e.perpkg
                            ++ (c_text e.unit
                                ++ (c_text e.retirement_latency_mean
                                    ++ (c_text e.retirement_latency_min
                                        ++ (c_text e.retirement_latency_max
                                            ++ c_text e.long_desc))))))))))

-- `(*p == '\0' ? NULL : p)`, and `p` behind the text's NUL; `none` reads behind the big string.
unfoldable pub take_text : Bytes → Option (Option Bytes × Bytes)
take_text p = elim (strchr 0 p) [
  | none ↦ none
  | some (text, p') ↦ some (if is_empty text then none else some text, p')
]

-- `*p - '0'` as a bool, and `p++`.
unfoldable pub take_flag : Bytes → Option (Bool × Bytes)
take_flag [] = none
take_flag (c ∷ p) = some (not (c == b'0'), p)

-- The member `pmu` is not set.
unfoldable pub decompress_event : Bytes → ℕ → PmuEvent → Option PmuEvent
decompress_event big_c_string offset pe = do
  (name, p1) ← take_text (drop offset big_c_string)
  (topic, p2) ← take_text p1
  (desc, p3) ← take_text p2
  (event, p4) ← take_text p3
  (compat, p5) ← take_text p4
  (deprecated, p6) ← take_flag p5
  (perpkg, p7) ← take_flag p6
  (unit, p8) ← take_text p7
  (mean, p9) ← take_text p8
  (min, p10) ← take_text p9
  (max, p11) ← take_text p10
  (long_desc, p12) ← take_text p11
  some (record {
    name = name;
    compat = compat;
    event = event;
    desc = desc;
    topic = topic;
    long_desc = long_desc;
    pmu = pe.pmu;
    unit = unit;
    retirement_latency_mean = mean;
    retirement_latency_min = min;
    retirement_latency_max = max;
    perpkg = perpkg;
    deprecated = deprecated;
  })
