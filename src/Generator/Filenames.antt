-- ===== src/Generator/Filenames.antt =====
-- The names of the generated files, and which insertions go to which file.
use vcpkg_test.Prelude.{
  ℕ, ◌≤◌, ◌≡◌, ◌⊎◌, ◌∙◌, refl, sym, ap, ap₂, none, some, true, List, [], ◌∷◌, ◌++◌, Bytes, codes,
  length, arith, length-append, Option-cases, inl, inr,
}
use vcpkg_test.Text.{rfind, replace_inside, take_before, drop_behind}
use vcpkg_test.Text.Rfind.{rfind-match, rfind-latest}
use vcpkg_test.Generator.{
  FileDescriptor, Event, Outcome, open_for_insert, print, returned, out_of_range, no_message_type,
  delim, output_filename, generate, insertions,
}

-- The match that `rfind` finds gives way to the suffix.
output_filename-match :
    (l r suffix : Bytes)
    → rfind (l ++ (delim ++ r)) delim ≡ some (length l)
    → output_filename (l ++ (delim ++ r)) suffix ≡ some (l ++ (suffix ++ r))
unfolding output_filename
output_filename-match l r suffix e =
    rw
      (
        e,
        replace_inside (l ++ (delim ++ r)) (length l) 6 suffix
            (omega (arith, length-append l (delim ++ r))),
      )
      (ap some
        (ap₂ (λ xs ys. xs ++ (suffix ++ ys)) (take_before l delim r) (drop_behind l delim r)))

-- The insertion points that a run opens, in order.
abbrev pub opened : List Event → List (Bytes × Bytes)
opened [] = []
opened (open_for_insert file point ∷ es) = (file, point) ∷ opened es
opened (print text key value ∷ es) = opened es

-- With a message, all four insertions and success; with none, the first two and the access to
-- `message_type(0)`.
pub data Inserted (header source : Bytes) : List Bytes → Outcome → Type 0 where
  all_of_them :
      (message : Bytes) (others : List Bytes) (outcome : Outcome)
      → outcome.status ≡ returned true
      → opened outcome.events
        ≡ (header, codes "includes")
          ∷ (source, codes "includes")
          ∷ (header, codes "namespace_scope")
          ∷ (header, codes "global_scope")
          ∷ []
      → Inserted header source (message ∷ others) outcome
  broken_off :
      (outcome : Outcome)
      → outcome.status ≡ no_message_type
      → opened outcome.events ≡ (header, codes "includes") ∷ (source, codes "includes") ∷ []
      → Inserted header source [] outcome

-- `l` is what stands in front of the last `.proto`, and `r` what stands behind it.
pub record LastProto (name l r : Bytes) : Type 0 where
  pub whole : name ≡ l ++ (delim ++ r)
  pub last : (l' r' : Bytes) → name ≡ l' ++ (delim ++ r') → length l' ≤ length l

insertions_lem :
    (name : Bytes) (types : List Bytes) (l r : Bytes)
    → name ≡ l ++ (delim ++ r)
    → rfind name delim ≡ some (length l)
    → Inserted
        (l ++ (codes ".pb.h" ++ r))
        (l ++ (codes ".pb.cc" ++ r))
        types
        (generate (record { name = name; message_types = types }))
unfolding generate
insertions_lem name types l r whole found =
    let at : rfind (l ++ (delim ++ r)) delim ≡ some (length l) =
      ap (λ s. rfind s delim) (sym whole) ∙ found in
    rw
      (
        whole,
        output_filename-match l r (codes ".pb.h") at,
        output_filename-match l r (codes ".pb.cc") at,
      )
      (inserted types)
  where
    inserted :
        (types : List Bytes)
        → Inserted
            (l ++ (codes ".pb.h" ++ r))
            (l ++ (codes ".pb.cc" ++ r))
            types
            (insertions (l ++ (codes ".pb.h" ++ r)) (l ++ (codes ".pb.cc" ++ r)) types)
    inserted [] = broken_off _ refl refl
    inserted (message ∷ others) = all_of_them message others _ refl refl

no_match : (name l r : Bytes) → rfind name delim ≡ none → ¬ (name ≡ l ++ (delim ++ r))
no_match name l r e whole =
    let (p, found, le) = rfind-latest l delim r in
    absurd (cc (sym e, ap (λ s. rfind s delim) whole, found))

latest :
    (name l l' r' : Bytes) (p : ℕ)
    → rfind name delim ≡ some p
    → length l ≡ p
    → name ≡ l' ++ (delim ++ r')
    → length l' ≤ length l
latest name l l' r' p e at whole =
    let (q, found, le) = rfind-latest l' delim r' in
    let same : some p ≡ some q = sym e ∙ ap (λ s. rfind s delim) whole ∙ found in
    let opened : p ≡ q = cc same in omega (arith, le, at, opened)

-- A file whose name has no `.proto` ends the plugin by an exception, before any output.
pub generate-out_of_range :
    (file : FileDescriptor)
    → rfind file.name delim ≡ none
    → generate file ≡ record { events = []; status = out_of_range }
unfolding generate output_filename
generate-out_of_range file e = rw e

-- For every file: either its name has no `.proto`, and the plugin ends by an exception before any
-- output; or the last `.proto` of the name gives way to `.pb.h` and to `.pb.cc`, what stands behind
-- it is kept, and the plugin inserts into the header at `includes`, `namespace_scope` and
-- `global_scope`, and into the source at `includes`, and succeeds. Where the file has no message,
-- it opens both at `includes`, and no other insertion point, and then reaches `message_type(0)`,
-- which is not there.
pub generate-Inserted :
    (file : FileDescriptor)
    → (((l r : Bytes) → ¬ (file.name ≡ l ++ (delim ++ r)))
        × (generate file ≡ record { events = []; status = out_of_range }))
      ⊎ ((l : Bytes) × (r : Bytes) × LastProto file.name l r
          × Inserted
              (l ++ (codes ".pb.h" ++ r))
              (l ++ (codes ".pb.cc" ++ r))
              file.message_types
              (generate file))
generate-Inserted file = elim (Option-cases (rfind file.name delim)) [
  | inl e ↦ inl ((λ l r whole. no_match file.name l r e whole), generate-out_of_range file e)
  | inr (p, e) ↦
      let (l, r, whole, at) = rfind-match file.name delim p e in
      inr (
        l,
        r,
        record { whole = whole; last = λ l' r' f. latest file.name l l' r' p e at f },
        insertions_lem file.name file.message_types l r whole (e ∙ ap some (sym at)),
      )
]
