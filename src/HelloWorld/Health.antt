-- ===== src/HelloWorld/Health.antt =====
-- What the threads of src/asio-grpc/main.cpp set up together.
use vcpkg_test.Prelude.{
  ℕ, zero, suc, ◌+◌, ◌<◌, ◌≡◌, ◌∙◌, refl, sym, ◌==◌, Bool, true, false, Option, none, some, List,
  [], ◌∷◌, map, Option-cases, Bool-cases, if◌then◌else◌, ◌>>=◌, All, mem, Distinct, inl, inr, arith,
}
use vcpkg_test.Servers.{
  Action, make_context, start_health_check_service, register_say_hello, register_say_many_hellos,
  run_context, Queues, add_queues, move_queue,
}
use vcpkg_test.Greeter.{run_threads}
use vcpkg_test.Greeter.Threads.{run_threads-own}
use vcpkg_test.HelloWorld.{thread_actions, start_threads}

-- What threads with these queues do.
abbrev all_actions : Bool → List (ℕ × Option ℕ) → Option (List (List Action))
all_actions started [] = some []
all_actions started ((i, queue) ∷ contexts) = do
  actions ← thread_actions started i queue
  rest ← all_actions started contexts
  some (actions ∷ rest)

bind_none :
    (o : Option (List Action)) (never : Option (List (List Action)))
    → never ≡ none
    → (o >>= λ actions. never) ≡ never
bind_none none never e = sym e
bind_none (some actions) never e = refl

start_threads-run_threads :
    (started : Bool) (order : List ℕ) (queues : Queues)
    → start_threads started order queues ≡ (run_threads order queues >>= all_actions started)
unfolding start_threads run_threads
start_threads-run_threads started [] queues = refl
start_threads-run_threads started (i ∷ order) queues = elim (Option-cases (move_queue queues i)) [
  | inl e ↦ rw e refl
  | inr ((queue, queues'), e) ↦ elim (Option-cases (run_threads order queues')) [
    | inl f ↦
        rw (e, start_threads-run_threads started order queues', f)
          (bind_none (thread_actions started i queue) none refl)
    | inr (contexts, f) ↦ rw (e, start_threads-run_threads started order queues', f) refl
  ]
]

-- How often the health check service is started.
abbrev health_checks : List Action → ℕ
health_checks [] = 0
health_checks (start_health_check_service ∷ actions) = suc (health_checks actions)
health_checks (make_context queue ∷ actions) = health_checks actions
health_checks (register_say_hello ∷ actions) = health_checks actions
health_checks (register_say_many_hellos ∷ actions) = health_checks actions
health_checks (run_context ∷ actions) = health_checks actions

abbrev pub all_health_checks : List (List Action) → ℕ
all_health_checks [] = 0
all_health_checks (actions ∷ threads) = health_checks actions + all_health_checks threads

-- What a thread does on the queue of its number, with a server that has started.
abbrev own : ℕ → List Action
own zero =
    make_context (some 0) ∷ start_health_check_service ∷ register_say_hello ∷ run_context ∷ []
own (suc i) = make_context (some (suc i)) ∷ register_say_hello ∷ run_context ∷ []

abbrev pub own_actions : List ℕ → List (List Action)
own_actions order = map own order

-- Thread 0 does not read the null pointer of a server that has not started.
abbrev pub is_safe : Bool → List ℕ → Bool
is_safe started order = if mem 0 order then started else true

suc_ne_zero : (i : ℕ) → ((suc i == 0) ≡ false) × ((0 == suc i) ≡ false)
suc_ne_zero i = (ground arith, ground arith)

all_actions-own :
    (started : Bool) (order : List ℕ)
    → all_actions started (map {A = ℕ} {B = ℕ × Option ℕ} (λ i. (i, some i)) order)
      ≡ (if is_safe started order then some (own_actions order) else none)
unfolding thread_actions
all_actions-own started [] = refl
all_actions-own true (zero ∷ order) = elim (Bool-cases (mem 0 order)) [
  | inl e ↦ rw (all_actions-own true order, e) refl
  | inr e ↦ rw (all_actions-own true order, e) refl
]
all_actions-own false (zero ∷ order) = refl
all_actions-own started (suc i ∷ order) = elim (Bool-cases (is_safe started order)) [
  | inl e ↦ rw (all_actions-own started order, (suc_ne_zero i).0, (suc_ne_zero i).1, e) refl
  | inr e ↦ rw (all_actions-own started order, (suc_ne_zero i).0, (suc_ne_zero i).1, e) refl
]

pub health_checks_lem :
    (order : List ℕ)
    → Distinct order
    → all_health_checks (own_actions order) ≡ (if mem 0 order then 1 else 0)
health_checks_lem [] distinct = refl
health_checks_lem (zero ∷ order) (new, distinct) =
    rw (health_checks_lem order distinct, new) (omega arith)
health_checks_lem (suc i ∷ order) (new, distinct) = ground (arith, health_checks_lem order distinct)

-- `main` makes `n` queues. In whatever order threads with different numbers below `n` begin, each
-- serves requests on the queue of its own number, unless thread 0 is among them and the server has
-- not started.
pub start_threads-own :
    (n : ℕ) (started : Bool) (order : List ℕ)
    → Distinct order
    → All (λ i. i < n) order
    → start_threads started order (add_queues n 0 [])
      ≡ (if is_safe started order then some (own_actions order) else none)
start_threads-own n started order distinct below =
    start_threads-run_threads started order (add_queues n 0 [])
    ∙ rw (run_threads-own n order distinct below) (all_actions-own started order)
