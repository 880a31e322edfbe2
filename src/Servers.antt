-- ===== src/Servers.antt =====
-- What the servers of src/asio-grpc/main.cpp, src/asio-grpc/main2.cpp and
-- src/asio-grpc/dataProvider.cpp have in common: the thread count, the completion queues, and the
-- calls of the builder.
use vcpkg_test.Prelude.{
  ℕ, zero, suc, ◌-◌, ◌^◌, Option, none, some, List, [], ◌∷◌, ◌++◌, Bytes, ◌>>=◌, ℤ, pos, negsuc,
}

-- `argc >= 2 ? std::stoi(argv[1]) : 1`
abbrev pub thread_count : (Bytes → Option ℤ) → List Bytes → Option ℤ
thread_count stoi (program ∷ argument ∷ arguments) = stoi argument
thread_count stoi arguments = some (pos 1)

-- The thread count as the `size_t` that `i` is compared with.
abbrev pub thread_limit : ℤ → ℕ
thread_limit (pos n) = n
thread_limit (negsuc n) = 2 ^ 64 - suc n

-- A queue by the order number of the `AddCompletionQueue` that made it; `none` is a null pointer.
abbrev pub Queues : Type 0
Queues = List (Option ℕ)

-- `for (size_t i = 0; i < thread_count; ++i) queues.emplace_back(builder.AddCompletionQueue());`
-- `left` is `thread_count - i`.
unfoldable pub add_queues : ℕ → ℕ → Queues → Queues
add_queues zero i queues = queues
add_queues (suc left) i queues = add_queues left (suc i) (queues ++ some i ∷ [])

-- `std::move(queues[i])`: what it yields and leaves; outside of the vector it is undefined.
unfoldable pub move_queue : Queues → ℕ → Option (Option ℕ × Queues)
move_queue [] i = none
move_queue (queue ∷ queues) zero = some (queue, none ∷ queues)
move_queue (queue ∷ queues) (suc i) = do
  (moved, rest) ← move_queue queues i
  some (moved, queue ∷ rest)

-- The calls of a server's builder; src/asio-grpc/main.cpp has the one for health checks too.
pub data Setup : Type 0 where
  add_listening_port : Bytes → Setup
  register_service add_health_check_service add_completion_queue build_and_start : Setup

-- The calls of `AddCompletionQueue` and the one of `BuildAndStart` behind them; the queues that the
-- calls return are those of `add_queues`.
unfoldable pub build : ℕ → List Setup
build zero = build_and_start ∷ []
build (suc left) = add_completion_queue ∷ build left

-- A `main` as far as some of its threads have got: `std::stoi` throws, a thread does what is
-- undefined, or the calls of the builder and what the threads do.
pub data Outcome (A : Type 0) : Type 0 where
  not_a_count undefined_behaviour : Outcome A
  serving : List Setup → A → Outcome A

abbrev pub outcome : {A : Type 0} → List Setup → Option A → Outcome A
outcome calls none = undefined_behaviour
outcome calls (some threads) = serving calls threads

abbrev pub counted : {A : Type 0} → (ℕ → Outcome A) → Option ℤ → Outcome A
counted run none = not_a_count
counted run (some count) = run (thread_limit count)

-- What a thread does, in order; src/asio-grpc/main.cpp has the one for health checks.
pub data Action : Type 0 where
  make_context : Option ℕ → Action
  start_health_check_service register_say_hello register_say_many_hellos run_context : Action
