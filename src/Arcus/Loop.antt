-- ===== src/Arcus/Loop.antt =====
-- The loop of `main`: what a run of the socket leads to.
use vcpkg_test.Prelude.{
  ◌≡◌, ◌∙◌, true, false, Option, none, some, List, [], ◌∷◌, ◌++◌, refl, append_assoc, append-nil,
  sym,
}
use vcpkg_test.Arcus.{
  Object, Message, Outgoing, FloatOps, SocketState, connected, Polls, is_connected, is_closed,
  is_error, handle_message, handle_next, run_loop, wait_connected, main,
}

-- A run of the loop that ends, with the messages that it takes.
pub data Run : Polls → List Message → Type 0 where
  closes :
      (p q : SocketState × Option Message) (polls : Polls)
      → is_connected p.0 ≡ false
      → is_closed q.0 ≡ true
      → Run (p ∷ q ∷ polls) []
  fails :
      (p q r : SocketState × Option Message) (polls : Polls)
      → is_connected p.0 ≡ false
      → is_closed q.0 ≡ false
      → is_error r.0 ≡ true
      → Run (p ∷ q ∷ r ∷ polls) []
  takes :
      (message : Message) (polls : Polls) (messages : List Message)
      → Run polls messages
      → Run ((connected, some message) ∷ polls) (message ∷ messages)
  idles :
      (polls : Polls) (messages : List Message)
      → Run polls messages
      → Run ((connected, none) ∷ polls) messages
  waits :
      (p q r : SocketState × Option Message) (polls : Polls) (messages : List Message)
      → is_connected p.0 ≡ false
      → is_closed q.0 ≡ false
      → is_error r.0 ≡ false
      → Run polls messages
      → Run (p ∷ q ∷ r ∷ polls) messages

-- Answers of a socket that is not connected yet.
abbrev pub NotConnected : Polls → Type 0
NotConnected [] = Unit
NotConnected (p ∷ polls) = (is_connected p.0 ≡ false) × NotConnected polls

pub wait_connected-NotConnected :
    (before : Polls) (message : Option Message) (polls : Polls)
    → NotConnected before
    → wait_connected (before ++ (connected, message) ∷ polls) ≡ some polls
unfolding wait_connected
wait_connected-NotConnected [] message polls waiting = refl
wait_connected-NotConnected (p ∷ before) message polls (e, waiting) =
    rw e (wait_connected-NotConnected before message polls waiting)

module _ {F : Type 0} (ops : FloatOps F) where
  -- The messages handled one after the other.
  abbrev pub handle_all : List Message → List Object → List Object × List Outgoing
  handle_all [] objects = (objects, [])
  handle_all (message ∷ messages) objects =
      let handled = handle_message ops message objects in
      let rest = handle_all messages handled.0 in (rest.0, handled.1 ++ rest.1)

  pub run_loop-connected :
      (message : Option Message) (polls : Polls) (objects : List Object) (sent : List Outgoing)
      → run_loop ops ((connected, message) ∷ polls) objects sent
        ≡ run_loop ops polls
            (handle_next ops message objects).0
            (sent ++ (handle_next ops message objects).1)
  unfolding run_loop
  run_loop-connected message [] objects sent = refl
  run_loop-connected message (q ∷ []) objects sent = refl
  run_loop-connected message (q ∷ r ∷ polls) objects sent = refl

  run_loop-closed :
      (p q : SocketState × Option Message) (polls : Polls) (objects : List Object)
      (sent : List Outgoing)
      → is_connected p.0 ≡ false
      → is_closed q.0 ≡ true
      → run_loop ops (p ∷ q ∷ polls) objects sent ≡ some (objects, sent)
  unfolding run_loop
  run_loop-closed p q [] objects sent e f = rw (run_loop, e, f) refl
  run_loop-closed p q (r ∷ polls) objects sent e f = rw (run_loop, e, f) refl

  -- Over the answers of a run that reaches the state closed or error, the loop ends: the stored
  -- objects and what is sent are those of the messages taken, handled in order, each one once,
  -- whatever was polled between them.
  pub run_loop-handle_all :
      (polls : Polls) (messages : List Message)
      → Run polls messages
      → (objects : List Object) (sent : List Outgoing)
      → run_loop ops polls objects sent
        ≡ some ((handle_all messages objects).0, sent ++ (handle_all messages objects).1)
  unfolding run_loop
  run_loop-handle_all _ _ (closes p q polls e f) objects sent =
      run_loop-closed p q polls objects sent e f ∙ (λ i. some (objects, sym (append-nil sent) i))
  run_loop-handle_all _ _ (fails p q r polls e f g) objects sent =
      rw (run_loop, e, f, g) (λ i. some (objects, sym (append-nil sent) i))
  run_loop-handle_all _ _ (takes message polls messages run) objects sent =
      let handled = handle_message ops message objects in
      run_loop-connected (some message) polls objects sent
      ∙ run_loop-handle_all polls messages run handled.0 (sent ++ handled.1)
      ∙ (λ i. some (
        (handle_all messages handled.0).0,
        append_assoc sent handled.1 (handle_all messages handled.0).1 i,
      ))
  run_loop-handle_all _ _ (idles polls messages run) objects sent =
      run_loop-connected none polls objects sent
      ∙ run_loop-handle_all polls messages run objects (sent ++ [])
      ∙ (λ i.
          some
            ((handle_all messages objects).0, append-nil sent i ++ (handle_all messages objects).1))
  run_loop-handle_all _ _ (waits p q r polls messages e f g run) objects sent =
      rw (run_loop, e, f, g) (run_loop-handle_all polls messages run objects sent)

  -- However long the socket takes to connect: where the answers behind that are those of a run that
  -- ends, `main` ends, and what it stores and sends are those of the messages of the run, handled
  -- in order from an empty store; nothing that arrives before is taken.
  pub main-handle_all :
      (before : Polls) (message : Option Message) (polls : Polls) (messages : List Message)
      → NotConnected before
      → Run polls messages
      → main ops (before ++ (connected, message) ∷ polls) ≡ some (handle_all messages [])
  unfolding main
  main-handle_all before message polls messages waiting run =
      rw (wait_connected-NotConnected before message polls waiting)
        (run_loop-handle_all polls messages run [] [])
