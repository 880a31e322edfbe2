-- ===== src/Interleaving.antt =====
-- The coroutines that one `GrpcContext` runs on its thread, as src/asio-grpc/dataProvider.cpp and
-- src/asio-grpc/main2.cpp start them: a completion resumes the coroutine that waits for it. Each
-- coroutine has a number, and `resume` says what it does up to its next suspension.
use vcpkg_test.Prelude.{
  ℕ, ◌≡◌, refl, sym, ap, append_assoc, ◌∙◌, List, [], ◌∷◌, ◌++◌, map, ◌==◌, ==→eq, if◌then◌else◌,
  Bool-cases, inl, inr,
}

-- What belongs to a coroutine.
abbrev pub of_client : {A : Type 0} → ℕ → List (ℕ × A) → List A
of_client client [] = []
of_client client ((other, a) ∷ rest) =
    if other == client then a ∷ of_client client rest else of_client client rest

abbrev pub of_all : {A : Type 0} → ℕ → List A → List (ℕ × A)
of_all client xs = map (λ x. (client, x)) xs

module _ {A : Type 0} where
  of_client-append :
      (client : ℕ) (xs ys : List (ℕ × A))
      → of_client client (xs ++ ys) ≡ of_client client xs ++ of_client client ys
  of_client-append client [] ys = refl
  of_client-append client ((other, x) ∷ xs) ys = elim (Bool-cases (other == client)) [
    | inl e ↦ rw (e, of_client-append client xs ys) refl
    | inr e ↦ rw (e, of_client-append client xs ys) refl
  ]

  of_client-of_all :
      (client other : ℕ) (xs : List A)
      → of_client client (of_all other xs) ≡ (if other == client then xs else [])
  of_client-of_all client other [] = elim (Bool-cases (other == client)) [
    | inl e ↦ rw e refl
    | inr e ↦ rw e refl
  ]
  of_client-of_all client other (x ∷ xs) = elim (Bool-cases (other == client)) [
    | inl e ↦ rw (of_client-of_all client other xs, e) refl
    | inr e ↦ rw (of_client-of_all client other xs, e) refl
  ]

module _ {Frame Completion Event : Type 0} (resume : Frame → Completion → List Event × Frame) where
  abbrev pub set_frame : (ℕ → Frame) → ℕ → Frame → ℕ → Frame
  set_frame frames client frame other = if client == other then frame else frames other

  -- `grpc_context.run()` over completions in the order in which they arrive.
  unfoldable pub run_context : (ℕ → Frame) → List (ℕ × Completion) → List (ℕ × Event)
  run_context frames [] = []
  run_context frames ((client, completion) ∷ schedule) =
      let resumed = resume (frames client) completion in
      of_all client resumed.0 ++ run_context (set_frame frames client resumed.1) schedule

  -- A coroutine on its own.
  unfoldable pub alone : Frame → List Completion → List Event
  alone frame [] = []
  alone frame (completion ∷ rest) =
      let resumed = resume frame completion in resumed.0 ++ alone resumed.1 rest

  -- A coroutine that is resumed among others goes on as it does alone.
  resumed_lem :
      (client other : ℕ) (frames : ℕ → Frame) (completion : Completion)
      (schedule : List (ℕ × Completion))
      → of_client client (of_all other (resume (frames other) completion).0)
          ++ alone
              (set_frame frames other (resume (frames other) completion).1 client)
              (of_client client schedule)
        ≡ alone (frames client) (of_client client ((other, completion) ∷ schedule))
  unfolding alone
  resumed_lem client other frames completion schedule = elim (Bool-cases (other == client)) [
    | inl e ↦
        rw (of_client-of_all client other (resume (frames other) completion).0, e)
          (ap
            (λ c.
              (resume (frames c) completion).0
              ++ alone (resume (frames c) completion).1 (of_client client schedule))
            (==→eq other client e))
    | inr e ↦ rw (of_client-of_all client other (resume (frames other) completion).0, e) refl
  ]

  -- In whatever order completions arrive, each coroutine does what it does alone with its own.
  pub run_context-alone :
      (client : ℕ) (frames : ℕ → Frame) (schedule : List (ℕ × Completion))
      → of_client client (run_context frames schedule)
        ≡ alone (frames client) (of_client client schedule)
  unfolding run_context alone
  run_context-alone client frames [] = refl
  run_context-alone client frames ((other, completion) ∷ schedule) =
      let events = of_all other (resume (frames other) completion).0 in
      let later = set_frame frames other (resume (frames other) completion).1 in
      of_client-append client events (run_context later schedule)
      ∙ ap (λ es. of_client client events ++ es) (run_context-alone client later schedule)
      ∙ resumed_lem client other frames completion schedule

  alone-append :
      (frame : Frame) (xs ys : List Completion)
      → (rest : List Event) × (alone frame xs ++ rest ≡ alone frame (xs ++ ys))
  unfolding alone
  alone-append frame [] ys = (alone frame ys, refl)
  alone-append frame (x ∷ xs) ys =
      let resumed = resume frame x in
      let (rest, e) = alone-append resumed.1 xs ys in
      (rest, append_assoc resumed.0 (alone resumed.1 xs) rest ∙ ap (λ es. resumed.0 ++ es) e)

  -- What a coroutine has done when only some of the completions have arrived is the first part of
  -- what it does with all of them.
  pub run_context-append :
      (client : ℕ) (frames : ℕ → Frame) (schedule more : List (ℕ × Completion))
      → (rest : List Event) × (of_client client (run_context frames schedule) ++ rest
          ≡ of_client client (run_context frames (schedule ++ more)))
  run_context-append client frames schedule more =
      let (rest, e) =
        alone-append (frames client) (of_client client schedule) (of_client client more) in
      (
        rest,
        ap (λ es. es ++ rest) (run_context-alone client frames schedule)
            ∙ e
            ∙ ap (alone (frames client)) (sym (of_client-append client schedule more))
            ∙ sym (run_context-alone client frames (schedule ++ more)),
      )
