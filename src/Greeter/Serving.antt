-- ===== src/Greeter/Serving.antt =====
-- The RPCs of src/asio-grpc/main2.cpp that one thread serves at the same time. `SayHello` has a
-- callback, `SayManyHellos` a coroutine that waits for each of its writes.
use vcpkg_test.Prelude.{ℕ, zero, suc, Bool, ℤ, List, [], ◌∷◌, ◌++◌, Bytes, codes}
use vcpkg_test.Interleaving.{run_context}
use vcpkg_test.Greeter.{Event, write, finish, ok, serve_hello, rounds}

pub data Request : Type 0 where
  hello : Bytes → Request
  many_hellos : Bytes → ℤ → Request

-- What a completion brings: a request, or whether a write has succeeded.
pub data Completion : Type 0 where
  accepted : Request → Completion
  write_done : Bool → Completion
  finish_done : Completion

-- An RPC that no client has called yet, one that waits for a write, with the writes that are left
-- behind it, and one that has called `finish`.
pub data Frame : Type 0 where
  waiting : Frame
  writing : ℕ → Bytes → Frame
  finishing finished : Frame

-- The head of the loop of `SayManyHellos`; `left` is `num_greetings - i`.
unfoldable pub write_next : ℕ → Bytes → List Event × Frame
write_next zero name = (finish ok ∷ [], finishing)
write_next (suc left) name = (write (codes "Many hellos, " ++ name) ∷ [], writing left name)

-- A handler up to its next suspension. What `co_await rpc.write(…)` yields is not looked at.
-- Another completion than the one that an RPC waits for is not for it.
unfoldable pub resume_rpc : Frame → Completion → List Event × Frame
resume_rpc waiting (accepted (hello name)) = (serve_hello name, finishing)
resume_rpc waiting (accepted (many_hellos name num_greetings)) =
    write_next (rounds num_greetings) name
resume_rpc (writing left name) (write_done written) = write_next left name
resume_rpc finishing finish_done = ([], finished)
resume_rpc frame completion = ([], frame)

-- The `GrpcContext` of a thread; the RPCs that its handlers accept are counted.
unfoldable pub serve_rpcs : List (ℕ × Completion) → List (ℕ × Event)
serve_rpcs schedule = run_context resume_rpc (λ rpc. waiting) schedule
