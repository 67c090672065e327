-- ===== src/Owned/Attr/Laws.antt =====
-- Where the blocks go that `gen_attr_for_event` allocates.
use pmu_events.Assign.{Assignment}
use pmu_events.Attr
use pmu_events.Attr.{Generated, done, failed, undefined}
use pmu_events.Base.{
  ◌≡◌, refl, sym, inl, inr, ◌≢◌, Option, none, some, List, [], ◌++◌, Bytes, arith, Option-cases,
}
use pmu_events.Config
use pmu_events.Config.{ConfigDef, PerfEventAttr, apply_config_def_to_attr}
use pmu_events.Free.Laws.{pointed, array_blocks, free_config_def-Frees, config_def_blocks}
use pmu_events.Free.{Block, Array, free_config_def}
use pmu_events.Memory.Holds.{swap-AreSame, count, count-append}
use pmu_events.Memory.Owning.{optional, value_of}
use pmu_events.Memory.Triple.{
  Triple, Always, triple-pure, triple-same, triple-bind, triple-freeing, triple-free, triple-touch,
}
use pmu_events.Owned.Assign.{OwnedAssignment, key_blocks, free_list-Triple}
use pmu_events.Owned.Attr.{apply_definition, apply_format}
use pmu_events.Owned.Grow.{triple-touch_pointer}
use pmu_events.Owned.Files.{OwnedText, text_blocks}
use pmu_events.Owned.Range.{OwnedDef, def_blocks, parse_config_def-Parses}
use pmu_events.Pmu.{PmuInstance}
use pmu_events.System.{System}

module _ (sys : System) (pmu_instance : PmuInstance) (attr : PerfEventAttr) (asn : Assignment)
    (text : Bytes) where
  format_failed :
      Config.parse_config_def sys.realloc_ok text ≡ none
      → Attr.apply_format sys pmu_instance attr asn (some text) ≡ failed attr
  unfolding Attr.apply_format
  format_failed e = rw (Attr.apply_format, e) refl

  format_done :
      {def : ConfigDef} {attr' : PerfEventAttr}
      → Config.parse_config_def sys.realloc_ok text ≡ some def
      → apply_config_def_to_attr attr asn.value def ≡ some attr'
      → Attr.apply_format sys pmu_instance attr asn (some text) ≡ done attr'
  unfolding Attr.apply_format
  format_done e k = rw (Attr.apply_format, e, k) refl

  format_undefined :
      {def : ConfigDef}
      → Config.parse_config_def sys.realloc_ok text ≡ some def
      → apply_config_def_to_attr attr asn.value def ≡ none
      → Attr.apply_format sys pmu_instance attr asn (some text) ≡ undefined
  unfolding Attr.apply_format
  format_undefined e k = rw (Attr.apply_format, e, k) refl

-- A round leaves the list, unless it ends with a -1.
unfoldable pub round_blocks : List Block → Generated → List Block
round_blocks list (done attr) = list
round_blocks list (failed attr) = []
round_blocks list undefined = []

module _ (sys : System) (pmu_instance : PmuInstance) (asn_list : Array OwnedAssignment)
    (blocks : List Block) where
  abbrev pub held : List Block
  held = array_blocks key_blocks asn_list

  abbrev pub post : Generated → List Block
  post r = round_blocks held r ++ blocks

  apply_definition-Triple :
      (attr : PerfEventAttr) (asn : OwnedAssignment) (conf_def : Option OwnedDef) (text : OwnedText)
      → Attr.apply_format sys pmu_instance attr asn.value (some text.value) ≢ undefined
      → value_of (λ d. d.value) conf_def ≡ Config.parse_config_def sys.realloc_ok text.value
      → Triple
          (optional def_blocks conf_def ++ (text_blocks text ++ (held ++ blocks)))
          (apply_definition sys pmu_instance asn_list attr asn conf_def text)
          post
          (λ r. r ≡ Attr.apply_format sys pmu_instance attr asn.value (some text.value))
  unfolding apply_definition optional value_of round_blocks pointed
  apply_definition-Triple attr asn none text defined k =
      let Q = λ (r : Generated).
        r ≡ Attr.apply_format sys pmu_instance attr asn.value (some text.value) in
      triple-same post Q {pre = held ++ (text_blocks text ++ blocks)}
        (swap-AreSame (text_blocks text) held blocks)
        (triple-bind post Q (λ _. text_blocks text ++ blocks) Always
          (free_list-Triple asn_list (text_blocks text ++ blocks))
          λ _ _.
            triple-bind post Q (λ _. blocks) Always (triple-free blocks (some text.blocks))
              λ _ _.
                triple-pure post Q (failed attr)
                  (sym (format_failed sys pmu_instance attr asn.value text.value (sym k))))
  apply_definition-Triple attr asn (some conf_def) text defined k =
      let Q = λ (r : Generated).
        r ≡ Attr.apply_format sys pmu_instance attr asn.value (some text.value) in
      let rest = def_blocks conf_def ++ (held ++ blocks) in
      triple-same post Q {pre = text_blocks text ++ rest}
        (swap-AreSame (def_blocks conf_def) (text_blocks text) (held ++ blocks))
        (triple-bind post Q (λ _. rest) Always (triple-free rest (some text.blocks))
          λ _ _.
            triple-bind post Q (λ _. rest) Always
              (triple-touch_pointer rest conf_def.blocks.range.ranges
                (λ b. omega (arith, count-append b (def_blocks conf_def) (held ++ blocks))))
              λ _ _.
                elim (Option-cases (apply_config_def_to_attr attr asn.value.value conf_def.value)) [
                  | inl e ↦ absurd (
                      defined
                        (format_undefined sys pmu_instance attr asn.value text.value (sym k) e))
                  | inr (attr', e) ↦ rw e (
                      triple-bind post Q (λ _. held ++ blocks) Always
                        (triple-freeing (held ++ blocks) config_def_blocks free_config_def
                          free_config_def-Frees conf_def.blocks)
                        λ _ _.
                          triple-pure post Q (done attr') (
                            sym (format_done sys pmu_instance attr asn.value text.value (sym k) e)))
                ])

  pub apply_format-Triple :
      (attr : PerfEventAttr) (asn : OwnedAssignment) (text : Option OwnedText)
      → Attr.apply_format sys pmu_instance attr asn.value (value_of (λ s. s.value) text) ≢ undefined
      → Triple
          (optional text_blocks text ++ (held ++ blocks))
          (apply_format sys pmu_instance asn_list attr asn text)
          post
          (λ r.
            r ≡ Attr.apply_format sys pmu_instance attr asn.value (value_of (λ s. s.value) text))
  unfolding apply_format optional value_of round_blocks Attr.apply_format
  apply_format-Triple attr asn none defined =
      triple-bind post _ (λ _. blocks) Always (free_list-Triple asn_list blocks)
        λ _ _. triple-pure post _ (failed attr) refl
  apply_format-Triple attr asn (some text) defined =
      let pre = text_blocks text ++ (held ++ blocks) in
      triple-bind post _ (λ _. pre) Always
        (triple-touch pre text.blocks (unfold count in ground arith))
        λ _ _.
          triple-bind post _ (λ r. optional def_blocks r ++ pre) _
            (parse_config_def-Parses sys.realloc_ok text.value pre)
            λ conf_def k. apply_definition-Triple attr asn conf_def text defined k
