-- ===== src/Arcus/Ending.antt =====
-- When the `main` of src/arcus/example.cpp ends.
use vcpkg_test.Prelude.{
  ◌≡◌, ◌⊎◌, inl, inr, refl, sym, ap, subst, true, Option, none, some, List, [], ◌∷◌, ◌++◌,
  Bool-cases,
}
use vcpkg_test.Arcus.{
  Object, Message, Outgoing, FloatOps, SocketState, connected, Polls, is_connected, is_closed,
  is_error, handle_next, run_loop, wait_connected, main,
}
use vcpkg_test.Arcus.Loop.{
  Run, closes, fails, takes, idles, waits, handle_all, run_loop-handle_all, NotConnected,
  wait_connected-NotConnected, main-handle_all,
}

connected_lem :
    (state : SocketState) (message : Option Message) (polls : Polls) (messages : List Message)
    → is_connected state ≡ true
    → Run polls messages
    → (taken : List Message) × Run ((state, message) ∷ polls) taken
connected_lem connected none polls messages e run = (messages, idles polls messages run)
connected_lem connected (some message) polls messages e run =
    (message ∷ messages, takes message polls messages run)
connected_lem state message polls messages e run = absurd (cc e)

is_connected-connected : (state : SocketState) → is_connected state ≡ true → state ≡ connected
is_connected-connected connected e = refl
is_connected-connected state e = absurd (cc e)

-- The answers up to the one that says that the socket is connected.
abbrev Connects : Polls → Type 0
Connects polls =
    (before : Polls) × (message : Option Message) × (rest : Polls) × NotConnected before
    × (polls ≡ before ++ (connected, message) ∷ rest)

waiting_lem : (polls : Polls) → NotConnected polls ⊎ Connects polls
waiting_lem [] = inl tt
waiting_lem (p ∷ polls) =
    let later = waiting_lem polls in
    elim (Bool-cases (is_connected p.0)) [
      | inl e ↦ inr ([], p.1, polls, tt, λ i. (is_connected-connected p.0 e i, p.1) ∷ polls)
      | inr e ↦ elim later [
        | inl waiting ↦ inl (e, waiting)
        | inr (before, message, rest, waiting, f) ↦
            inr (p ∷ before, message, rest, (e, waiting), ap (◌∷◌ p) f)
      ]
    ]

still_waiting_lem : (polls : Polls) → NotConnected polls → wait_connected polls ≡ none
unfolding wait_connected
still_waiting_lem [] waiting = refl
still_waiting_lem (p ∷ polls) (e, waiting) = rw e (still_waiting_lem polls waiting)

module _ {F : Type 0} (ops : FloatOps F) where
  -- The loop runs on, unless the answers are those of a run that ends.
  run_loop-Run :
      (polls : Polls) (objects : List Object) (sent : List Outgoing)
      → ((messages : List Message) × Run polls messages) ⊎ (run_loop ops polls objects sent ≡ none)
  unfolding run_loop
  run_loop-Run [] objects sent = inr refl
  run_loop-Run (p ∷ []) objects sent = inr refl
  run_loop-Run (p ∷ q ∷ []) objects sent = elim (Bool-cases (is_connected p.0)) [
    | inl e ↦ inr (rw (run_loop, e) refl)
    | inr e ↦ elim (Bool-cases (is_closed q.0)) [
      | inl f ↦ inl ([], closes p q [] e f)
      | inr f ↦ inr (rw (run_loop, e, f) refl)
    ]
  ]
  run_loop-Run (p ∷ q ∷ r ∷ polls) objects sent =
      let handled = handle_next ops p.1 objects in
      let next = run_loop-Run (q ∷ r ∷ polls) handled.0 (sent ++ handled.1) in
      let again = run_loop-Run polls objects sent in
      elim (Bool-cases (is_connected p.0)) [
        | inl e ↦ elim next [
          | inl (messages, run) ↦ inl (connected_lem p.0 p.1 (q ∷ r ∷ polls) messages e run)
          | inr f ↦ inr (rw (run_loop, e) f)
        ]
        | inr e ↦ elim (Bool-cases (is_closed q.0)) [
          | inl f ↦ inl ([], closes p q (r ∷ polls) e f)
          | inr f ↦ elim (Bool-cases (is_error r.0)) [
            | inl g ↦ inl ([], fails p q r polls e f g)
            | inr g ↦ elim again [
              | inl (messages, run) ↦ inl (messages, waits p q r polls messages e f g run)
              | inr h ↦ inr (rw (run_loop, e, f, g) h)
            ]
          ]
        ]
      ]

  -- How far `main` is when the answers end.
  pub data Progress : Polls → Option (List Object × List Outgoing) → Type 0 where
    still_waits : (polls : Polls) → NotConnected polls → Progress polls none
    still_runs :
        (before : Polls) (message : Option Message) (polls : Polls)
        → NotConnected before
        → ((messages : List Message) → ¬ Run polls messages)
        → Progress (before ++ (connected, message) ∷ polls) none
    ended :
        (before : Polls) (message : Option Message) (polls : Polls) (messages : List Message)
        → NotConnected before
        → Run polls messages
        → Progress (before ++ (connected, message) ∷ polls) (some (handle_all ops messages []))

  main-Run :
      (before : Polls) (message : Option Message) (polls : Polls)
      → NotConnected before
      → Progress
          (before ++ (connected, message) ∷ polls)
          (main ops (before ++ (connected, message) ∷ polls))
  unfolding main
  main-Run before message polls waiting = elim (run_loop-Run polls [] []) [
    | inl (messages, run) ↦
        rw (main-handle_all ops before message polls messages waiting run)
          (ended before message polls messages waiting run)
    | inr e ↦
        rw (wait_connected-NotConnected before message polls waiting, e)
          (still_runs before message polls waiting
            (λ messages run. cc (e, run_loop-handle_all ops polls messages run [] [])))
  ]

  main-NotConnected : (polls : Polls) → NotConnected polls → Progress polls (main ops polls)
  unfolding main
  main-NotConnected polls waiting = rw (still_waiting_lem polls waiting) (still_waits polls waiting)

  -- Whatever the socket answers: while no answer says that it is connected, `main` waits, also when
  -- they say that it is closed or has an error; behind such an answer it handles messages, and it
  -- ends exactly when the answers are those of a run that reaches the state closed or error,
  -- with the messages of the run handled in order from an empty store.
  pub main-Progress : (polls : Polls) → Progress polls (main ops polls)
  main-Progress polls = elim (waiting_lem polls) [
    | inl waiting ↦ main-NotConnected polls waiting
    | inr (before, message, rest, waiting, e) ↦
        subst (λ ps. Progress ps (main ops ps)) (sym e) (main-Run before message rest waiting)
  ]
