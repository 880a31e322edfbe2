-- ===== src/HelloWorld.antt =====
-- src/asio-grpc/main.cpp: the greeter's server with one RPC and a health check service: its `main`
-- with the handler and the threads, whose completion queues are those of Servers.antt.
pub mod Health
pub mod Startup
mod Tests
use vcpkg_test.Prelude.{
  ℕ, Bool, ℤ, none, Option, some, List, [], ◌∷◌, ◌++◌, Bytes, codes, ◌==◌, if◌then◌else◌, ◌>>=◌,
}
use vcpkg_test.Servers.{
  Action, make_context, start_health_check_service, register_say_hello, run_context, Queues,
  move_queue, add_queues, thread_count, build, Outcome, outcome, counted, add_listening_port,
  register_service, add_health_check_service,
}
use vcpkg_test.Greeter.{Event, finish_with, ok}

-- The callback of `SayHello`: `rpc.finish(response, grpc::Status::OK, …)`.
unfoldable serve_hello_world : Bytes → List Event
serve_hello_world name = finish_with (codes "Hello " ++ name) ok ∷ []

abbrev serve_requests : List Action
serve_requests = register_say_hello ∷ run_context ∷ []

-- The lambda of thread `i` behind the move of its queue. `started` says whether `BuildAndStart` has
-- returned a server; `*server` of a null pointer is undefined.
unfoldable pub thread_actions : Bool → ℕ → Option ℕ → Option (List Action)
thread_actions started i queue =
    let checked =
      if started
      then some (make_context queue ∷ start_health_check_service ∷ serve_requests)
      else none in
    if i == 0 then checked else some (make_context queue ∷ serve_requests)

-- The threads that begin, in the order in which they get there, and what each one does.
unfoldable pub start_threads : Bool → List ℕ → Queues → Option (List (List Action))
start_threads started [] queues = some []
start_threads started (i ∷ order) queues = do
  (queue, queues') ← move_queue queues i
  actions ← thread_actions started i queue
  rest ← start_threads started order queues'
  some (actions ∷ rest)

unfoldable pub run : Bool → List ℕ → ℕ → Outcome (List (List Action))
run started order limit =
    outcome
      (add_listening_port (codes "localhost:50051")
        ∷ register_service
        ∷ add_health_check_service
        ∷ build limit)
      (start_threads started order (add_queues limit 0 []))

-- `main`, with what `std::stoi` and `BuildAndStart` answer, and the threads that have begun by
-- their `i` and in the order in which they get there.
unfoldable pub main : (Bytes → Option ℤ) → Bool → List Bytes → List ℕ → Outcome (List (List Action))
main stoi started arguments order = counted (run started order) (thread_count stoi arguments)
