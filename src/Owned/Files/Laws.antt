-- ===== src/Owned/Files/Laws.antt =====
-- The functions that read files leave the blocks of their result and no others.
use pmu_events.Base.{
  ◌≡◌, refl, Option, none, some, List, ◌∷◌, ◌++◌, if◌then◌else◌, Bytes, codes, Option-cases,
  Bool-cases, inl, inr, arith,
}
use pmu_events.Files
use pmu_events.Files.{pmu_devices_base, first_line, minus_one}
use pmu_events.Free.Laws.{pointed}
use pmu_events.Free.{Block}
use pmu_events.Memory.Holds.{count}
use pmu_events.Memory.Owning.{
  owning, optional, value_of, Parses, Parses-none, Triple-then, Parses-using,
}
use pmu_events.Memory.Triple.{
  Triple, Always, triple-pure, triple-bind, triple-return, triple-malloc, triple-free, triple-touch,
}
use pmu_events.Owned.Range.{ranges_blocks, parse_range_list-Parses}
use pmu_events.Pmu.{PmuInstance}
use pmu_events.System.{System, File}
use pmu_events.Owned.Files.{
  OwnedText, text_blocks, concat_path, read_buffer, cut_line, get_file_content, read_if_there,
  get_cpu_list, get_format_file_content,
}

pub concat_path-Parses :
    (base filename : Bytes)
    → Parses
        (λ s. s.value)
        text_blocks
        (concat_path base filename)
        (Files.concat_path base filename)
unfolding concat_path optional value_of pointed
concat_path-Parses base filename blocks =
    let post = λ (r : Option OwnedText). optional text_blocks r ++ blocks in
    let Q = λ (r : Option OwnedText). value_of (λ s. s.value) r ≡ Files.concat_path base filename in
    triple-bind post Q (λ b. b ∷ blocks) Always (triple-malloc blocks)
      λ path _. elim (Option-cases (Files.concat_path base filename)) [
        | inl e ↦ rw e (
            triple-bind post _ (λ _. blocks) Always (triple-free blocks (some path))
              λ _ _. triple-pure post _ none refl)
        | inr (text, e) ↦ rw e (triple-pure post _ (some (owning text path)) refl)
      ]

pub read_buffer-Parses :
    (sys : System) (file : File)
    → Parses (λ s. s.value) text_blocks (read_buffer sys file) (Files.read_buffer sys file)
unfolding read_buffer Files.read_buffer optional value_of pointed
read_buffer-Parses sys file blocks =
    let post = λ (r : Option OwnedText). optional text_blocks r ++ blocks in
    elim (Option-cases file.size) [
      | inl e ↦ rw (read_buffer, e) (Parses-none (λ (s : OwnedText). s.value) text_blocks blocks)
      | inr (end, e) ↦
          rw (read_buffer, e)
            (triple-bind post _ (λ b. b ∷ blocks) Always (triple-malloc blocks)
              λ content _. elim (Option-cases (file.read end)) [
                | inl k ↦ rw k (
                    triple-bind post _ (λ _. blocks) Always (triple-free blocks (some content))
                      λ _ _. triple-pure post _ none refl)
                | inr (bytes, k) ↦ rw k (
                    triple-bind post _ (λ _. content ∷ blocks) Always
                      (triple-touch (content ∷ blocks) content (unfold count in ground arith))
                      λ _ _.
                        triple-pure post _
                          (some (owning (Files.ended_buffer sys end bytes) content)) refl)
              ])
    ]

get_file_content-Parses :
    (sys : System) (path : Bytes)
    → Parses
        (λ s. s.value)
        text_blocks
        (get_file_content sys path)
        (Files.get_file_content sys path)
unfolding get_file_content Files.get_file_content
get_file_content-Parses sys path blocks = elim (Option-cases (sys.open_file path)) [
  | inl e ↦ rw (get_file_content, e) (Parses-none (λ (s : OwnedText). s.value) text_blocks blocks)
  | inr (file, e) ↦
      rw (get_file_content, e)
        (triple-return (λ r. optional text_blocks r ++ blocks) _ cut_line
          (λ r. optional text_blocks r ++ blocks) _ (read_buffer-Parses sys file blocks)
          (elim [
            | none ↦ λ k. unfold cut_line optional value_of in ((λ b. refl), rw (← k) refl)
            | some content ↦ λ k. unfold cut_line optional value_of in ((λ b. refl), rw (← k) refl)
          ]))
]

module _ (sys : System) where
  read_if_there-Parses :
      (path : OwnedText) (blocks : List Block)
      → Triple
          (text_blocks path ++ blocks)
          (read_if_there sys path)
          (λ r. optional text_blocks r ++ blocks)
          (λ r.
            value_of (λ s. s.value) r
            ≡ (if sys.access path.value then Files.get_file_content sys path.value else none))
  unfolding read_if_there
  read_if_there-Parses path blocks =
      Parses-using (λ s. s.value) text_blocks path.blocks _ blocks
        (elim (Bool-cases (sys.access path.value)) [
          | inl e ↦ rw e (get_file_content-Parses sys path.value)
          | inr e ↦ rw e (Parses-none (λ (s : OwnedText). s.value) text_blocks)
        ])

  pub get_cpu_list-Parses :
      (filename pmu_path : Bytes)
      → Parses
          (λ s. s.value)
          ranges_blocks
          (get_cpu_list sys filename pmu_path)
          (Files.get_cpu_list filename sys pmu_path)
  unfolding get_cpu_list Files.get_cpu_list
  get_cpu_list-Parses filename pmu_path blocks =
      Triple-then (λ s. s.value) ranges_blocks (λ s. s.value) text_blocks blocks _ _ _
        (concat_path-Parses pmu_path filename blocks)
        λ path.
          Triple-then (λ s. s.value) ranges_blocks (λ s. s.value) text_blocks blocks _ _ _
            (read_if_there-Parses path blocks)
            λ content.
              Parses-using (λ s. s.value) ranges_blocks content.blocks _ blocks
                (parse_range_list-Parses sys.realloc_ok content.value)

  pub get_format_file_content-Parses :
      (fmt_file : Bytes) (pmu_instance : PmuInstance)
      → Parses
          (λ s. s.value)
          text_blocks
          (get_format_file_content sys fmt_file pmu_instance)
          (Files.get_format_file_content sys fmt_file pmu_instance)
  unfolding get_format_file_content Files.get_format_file_content
  get_format_file_content-Parses fmt_file pmu_instance blocks =
      Triple-then (λ s. s.value) text_blocks (λ s. s.value) text_blocks blocks _ _ _
        (concat_path-Parses pmu_devices_base pmu_instance.name blocks)
        λ full_path.
          Triple-then (λ s. s.value) text_blocks (λ s. s.value) text_blocks blocks _ _ _
            (Parses-using (λ s. s.value) text_blocks full_path.blocks _ blocks
              (concat_path-Parses full_path.value (codes "format/")))
            λ format_path.
              Triple-then (λ s. s.value) text_blocks (λ s. s.value) text_blocks blocks _ _ _
                (Parses-using (λ s. s.value) text_blocks format_path.blocks _ blocks
                  (concat_path-Parses format_path.value fmt_file))
                λ path.
                  Parses-using (λ s. s.value) text_blocks path.blocks _ blocks
                    (get_file_content-Parses sys path.value)
