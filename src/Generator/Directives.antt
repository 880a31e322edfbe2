-- ===== src/Generator/Directives.antt =====
-- What the plugin of src/gz/Generator.cc puts into a header, as the preprocessor reads it.
use vcpkg_test.Prelude.{
  ℕ, ◌+◌, ◌≡◌, refl, Bool, true, false, ◌&&◌, Option, none, some, List, [], ◌∷◌, ◌++◌, Bytes, codes,
  ◌==◌, if◌then◌else◌, ◌>>=◌, drop, Bool-cases, inl, inr,
}
use vcpkg_test.Text.{starts_with}
use vcpkg_test.Generator.{
  FileDescriptor, Outcome, returned, output_filename, with_filenames, Event, open_for_insert, print,
  generate, header_includes, source_prologue, epilogue, ptr_types, warning_pop,
}

-- The texts that are inserted, each under its file and insertion point.
abbrev Insertion : Type 0
Insertion = (Bytes × Bytes) × Bytes

abbrev pub printed : List Event → Bytes
printed [] = []
printed (open_for_insert file point ∷ events) = []
printed (print text key value ∷ events) = text ++ printed events

abbrev pub inserted : List Event → List Insertion
inserted [] = []
inserted (open_for_insert file point ∷ events) = ((file, point), printed events) ∷ inserted events
inserted (print text key value ∷ events) = inserted events

-- The lines of a text.
abbrev lines_from : Bytes → Bytes → List Bytes
lines_from line [] = line ∷ []
lines_from line (c ∷ cs) =
    if c == 10 then line ∷ lines_from [] cs else lines_from (line ++ c ∷ []) cs

abbrev pub lines : Bytes → List Bytes
lines text = lines_from [] text

abbrev pub not : Bool → Bool
not true = false
not false = true

abbrev all_true : List Bool → Bool
all_true [] = true
all_true (b ∷ bs) = b && all_true bs

-- An `#else` turns the last condition round, and `#endif` drops it.
abbrev turn : List Bool → Option (List Bool)
turn [] = none
turn (b ∷ bs) = some (not b ∷ bs)

abbrev close : List Bool → Option (List Bool)
close [] = none
close (b ∷ bs) = some bs

data Line : Type 0 where
  ifdef_line ifndef_line else_line endif_line : Line
  other_line : Line

abbrev classify : Bytes → Line
classify line =
    if starts_with (codes "#ifdef ") line
    then ifdef_line
    else if starts_with (codes "#ifndef ") line
    then ifndef_line
    else if starts_with (codes "#else") line
    then else_line
    else if starts_with (codes "#endif") line
    then endif_line
    else other_line

module _ (defined : Bytes → Bool) where
  -- The lines that the preprocessor keeps where the macros of `defined` are defined, below the
  -- conditions that are open; `none` is a directive too many or too few.
  pub preprocess : List Bool → List Bytes → Option (List Bytes)
  preprocess [] [] = some []
  preprocess (b ∷ bs) [] = none
  preprocess conditions (line ∷ rest) = elim (classify line) [
    | ifdef_line ↦ preprocess (defined (drop 7 line) ∷ conditions) rest
    | ifndef_line ↦ preprocess (not (defined (drop 8 line)) ∷ conditions) rest
    | else_line ↦ turn conditions >>= λ conditions'. preprocess conditions' rest
    | endif_line ↦ close conditions >>= λ conditions'. preprocess conditions' rest
    | other_line ↦ preprocess conditions rest >>= λ kept.
        some (if all_true conditions then line ∷ kept else kept)
  ]

-- How often a line stands among others.
abbrev occurrences : Bytes → List Bytes → ℕ
occurrences line [] = 0
occurrences line (l ∷ ls) = (if starts_with line l then 1 else 0) + occurrences line ls

abbrev pub push_line : Bytes
push_line = codes "#pragma warning(push)"

abbrev pub pop_line : Bytes
pop_line = codes "#pragma warning(pop)"

-- The preprocessor reads a text to its end, and keeps a line as often as `_MSC_VER` is defined.
abbrev pub KeepsOnMsvc : (Bytes → Bool) → Bytes → Bytes → Type 0
KeepsOnMsvc defined line text =
    (kept : List Bytes) × (preprocess defined [] (lines text) ≡ some kept)
    × (occurrences line kept ≡ (if defined (codes "_MSC_VER") then 1 else 0))

abbrev includes_text : Bytes
includes_text = printed (drop 1 (header_includes []))

includes_text-KeepsOnMsvc : (defined : Bytes → Bool) → KeepsOnMsvc defined push_line includes_text
unfolding preprocess
includes_text-KeepsOnMsvc defined = elim (Bool-cases (defined (codes "_MSC_VER"))) [
  | inl m ↦ elim (Bool-cases (defined (codes "__linux__"))) [
    | inl l ↦ rw (m, l) (_, refl, refl)
    | inr l ↦ rw (m, l) (_, refl, refl)
  ]
  | inr m ↦ elim (Bool-cases (defined (codes "__linux__"))) [
    | inl l ↦ rw (m, l) (_, refl, refl)
    | inr l ↦ rw (m, l) (_, refl, refl)
  ]
]

warning_pop-KeepsOnMsvc : (defined : Bytes → Bool) → KeepsOnMsvc defined pop_line warning_pop
unfolding preprocess
warning_pop-KeepsOnMsvc defined = elim (Bool-cases (defined (codes "_MSC_VER"))) [
  | inl m ↦ rw m (_, refl, refl)
  | inr m ↦ rw m (_, refl, refl)
]

-- What a run that succeeds inserts, with the names of its two files.
abbrev pub Insertions : (Bytes → Bool) → Option Bytes → Option Bytes → Outcome → Type 0
Insertions defined header_name source_name outcome =
    (header source first prologue types last : Bytes) × (header_name ≡ some header)
    × (source_name ≡ some source)
    × (inserted outcome.events
        ≡ ((header, codes "includes"), first)
          ∷ ((source, codes "includes"), prologue)
          ∷ ((header, codes "namespace_scope"), types)
          ∷ ((header, codes "global_scope"), last)
          ∷ [])
    × KeepsOnMsvc defined push_line first
    × KeepsOnMsvc defined pop_line last

with_filenames-Insertions :
    (defined : Bytes → Bool) (header source : Option Bytes) (types : List Bytes)
    → (with_filenames header source types).status ≡ returned true
    → Insertions defined header source (with_filenames header source types)
with_filenames-Insertions defined none source types e = absurd (cc e)
with_filenames-Insertions defined (some header) none types e = absurd (cc e)
with_filenames-Insertions defined (some header) (some source) [] e = absurd (cc e)
with_filenames-Insertions defined (some header) (some source) (message ∷ others) e = (
  header,
  source,
  includes_text,
  printed (drop 1 (source_prologue []) ++ epilogue [] message),
  ptr_types message ++ [],
  warning_pop,
  refl,
  refl,
  refl,
  includes_text-KeepsOnMsvc defined,
  warning_pop-KeepsOnMsvc defined,
)

-- For every file on which the plugin succeeds: it inserts four texts, three of them into the
-- header. Whatever macros are defined, the directives of the first text and of the last one of the
-- header are balanced, each for itself; where `_MSC_VER` is defined the first one keeps one
-- `#pragma warning(push)` and the last one one `#pragma warning(pop)`, and elsewhere neither does.
pub generate-KeepsOnMsvc :
    (file : FileDescriptor) (defined : Bytes → Bool)
    → (generate file).status ≡ returned true
    → Insertions defined
        (output_filename file.name (codes ".pb.h"))
        (output_filename file.name (codes ".pb.cc"))
        (generate file)
unfolding generate
generate-KeepsOnMsvc file defined succeeded =
    with_filenames-Insertions defined (output_filename file.name (codes ".pb.h"))
      (output_filename file.name (codes ".pb.cc")) file.message_types succeeded
