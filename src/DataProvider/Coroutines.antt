-- ===== src/DataProvider/Coroutines.antt =====
-- The handlers of src/asio-grpc/dataProvider.cpp for several clients, which run on one thread: a
-- completion of the `GrpcContext` resumes the coroutine that waits for it.
use vcpkg_test.Prelude.{ℕ, Bytes, Bool, true, false, Option, none, some, List, [], ◌∷◌}
use vcpkg_test.Servers.{
  Setup, add_completion_queue, add_listening_port, register_service, build_and_start,
}
use vcpkg_test.Interleaving.{run_context}
use vcpkg_test.DataProvider.{Request, Data, Event, write, finish, empty_data, answer}

-- Where a coroutine is suspended, with its `data`; a failed write leads out of the loop at once.
pub data Coroutine : Type 0 where
  reading writing : Data → Coroutine
  finishing finished : Coroutine

-- What a completion brings: `read` a request or none, `write` its success.
pub data Completion : Type 0 where
  read_done : Option Request → Completion
  write_done : Bool → Completion
  finish_done : Completion

-- A coroutine up to its next suspension; another completion than the one it waits for is not for
-- it.
unfoldable pub resume : Coroutine → Completion → List Event × Coroutine
resume (reading last) (read_done (some request)) =
    let data' = answer request last in (write data' ∷ [], writing data')
resume (reading last) (read_done none) = (finish ∷ [], finishing)
resume (writing last) (write_done true) = ([], reading last)
resume (writing last) (write_done false) = (finish ∷ [], finishing)
resume finishing finish_done = ([], finished)
resume coroutine completion = ([], coroutine)

-- The builder has one completion queue, that of the `GrpcContext`.
abbrev set_up : Bytes → List Setup
set_up host =
    add_completion_queue ∷ add_listening_port host ∷ register_service ∷ build_and_start ∷ []

-- `run_data_provider`: the calls of the builder, and then what the handlers do. Each accepted
-- request starts the coroutine of its client, which runs up to its first `read`.
unfoldable pub run_data_provider : Bytes → List (ℕ × Completion) → List Setup × List (ℕ × Event)
run_data_provider host schedule =
    (set_up host, run_context resume (λ client. reading empty_data) schedule)
