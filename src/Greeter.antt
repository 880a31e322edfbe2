-- ===== src/Greeter.antt =====
-- src/asio-grpc/main2.cpp: the two handlers of the greeter's server, the `GreeterClient`, its
-- `client_main`, and the threads of `main`, each with a completion queue of its own. What gRPC
-- carries between the two sides is a parameter; a FlatBuffers message is its fields.
mod Tests
pub mod Hellos
pub mod Serving
pub mod Interleaved
pub mod Threads
pub mod Startup
use vcpkg_test.Servers.{
  thread_count, Queues, add_queues, move_queue, Setup, add_listening_port, register_service,
  add_health_check_service, add_completion_queue, build_and_start, build, Outcome, not_a_count,
  undefined_behaviour, serving, outcome, counted, Action, make_context, start_health_check_service,
  register_say_hello, register_say_many_hellos, run_context,
}
use vcpkg_test.Prelude.{
  ℕ, zero, suc, ◌-◌, ◌^◌, ◌≡◌, Option, none, some, List, [], ◌∷◌, ◌++◌, Bytes, ◌>>=◌, codes, ℤ, pos,
  negsuc, take, map,
}

-- `grpc::Status`: OK, or an error code with its message.
pub data Status : Type 0 where
  ok : Status
  failed : ℕ → Bytes → Status

-- What a handler asks of its RPC object.
pub data Event : Type 0 where
  write : Bytes → Event
  finish : Status → Event
  finish_with : Bytes → Status → Event

-- The callback of `SayHello`: `rpc.finish(response_msg, grpc::Status::OK, …)`.
unfoldable pub serve_hello : Bytes → List Event
serve_hello name = finish_with (codes "Hello, " ++ name) ok ∷ []

-- `for (int i = 0; i < num_greetings; i++)`: the first argument is `num_greetings - i`.
unfoldable pub write_greetings : ℕ → Bytes → List Event
write_greetings zero name = []
write_greetings (suc left) name = write (codes "Many hellos, " ++ name) ∷ write_greetings left name

-- The rounds of the loop for an `int`.
abbrev pub rounds : ℤ → ℕ
rounds (pos n) = n
rounds (negsuc n) = 0

-- The coroutine of `SayManyHellos`.
unfoldable pub serve_many_hellos : Bytes → ℤ → List Event
serve_many_hellos name num_greetings = write_greetings (rounds num_greetings) name ++ finish ok ∷ []

abbrev pub writes : List Event → List Bytes
writes [] = []
writes (write reply ∷ events) = reply ∷ writes events
writes (finish status ∷ events) = []
writes (finish_with reply status ∷ events) = []

-- How the client sees a handler's events: the status and reply of a unary call, and of a stream the
-- replies that `Read` yields until it fails, with the status of `Finish`.
pub record Transport : Type 0 where
  pub unary : List Event → Status × Bytes
  pub stream : List Event → List Bytes × Status

-- What the gRPC library documents: the messages of a stream arrive in order, and an OK status says
-- that nothing was lost.
pub record Delivers (transport : Transport) : Type 0 where
  pub reply_kept :
      (reply : Bytes)
      → (transport.unary (finish_with reply ok ∷ [])).0 ≡ ok
      → (transport.unary (finish_with reply ok ∷ [])).1 ≡ reply
  pub in_order :
      (events : List Event) → (k : ℕ) × ((transport.stream events).0 ≡ take k (writes events))
  pub complete :
      (events : List Event)
      → (transport.stream events).1 ≡ ok
      → (transport.stream events).0 ≡ writes events

-- What the client does: a call of the callback, or a line with code and message on `std::cerr`.
pub data Act : Type 0 where
  call_back : Bytes → Act
  report : ℕ → Bytes → Act

abbrev pub rpc_failed : Bytes
rpc_failed = codes "RPC failed"

-- The end of `GreeterClient::SayHello`: the returned text behind what is printed.
unfoldable pub hello_result : Status → Bytes → List Act × Bytes
hello_result ok reply = ([], reply)
hello_result (failed code message) reply = (report code message ∷ [], rpc_failed)

-- `while (stream->Read(&response_msg)) { … callback(…); }`
unfoldable pub read_replies : List Bytes → List Act
read_replies [] = []
read_replies (reply ∷ replies) = call_back reply ∷ read_replies replies

-- `if (!status.ok()) { … callback("RPC failed"); }`
unfoldable pub finish_stream : Status → List Act
finish_stream ok = []
finish_stream (failed code message) = report code message ∷ call_back rpc_failed ∷ []

module _ (transport : Transport) where
  -- `GreeterClient::SayHello` behind the call, which the server answers by these events.
  unfoldable pub hear_hello : List Event → List Act × Bytes
  hear_hello events = let answered = transport.unary events in hello_result answered.0 answered.1

  -- `GreeterClient::SayManyHellos` behind the call.
  unfoldable pub hear_many_hellos : List Event → List Act
  hear_many_hellos events =
      let answered = transport.stream events in read_replies answered.0 ++ finish_stream answered.1

  -- `GreeterClient::SayHello` against the server's handler.
  unfoldable pub say_hello : Bytes → List Act × Bytes
  say_hello name = hear_hello (serve_hello name)

  -- `GreeterClient::SayManyHellos` against the server's handler.
  unfoldable pub say_many_hellos : Bytes → ℤ → List Act
  say_many_hellos name num_greetings = hear_many_hellos (serve_many_hellos name num_greetings)

  -- `client_main`: the callback, and the line behind `SayHello`, print "Greeter received: " and the
  -- text; the list has these texts and the reports between them.
  unfoldable pub client_main : List Act
  client_main =
      let hello = say_hello (codes "world") in
      hello.0 ++ call_back hello.1 ∷ say_many_hellos (codes "world") (pos 10)

-- The threads that begin, by their `i` and in the order in which they get there, and the queue that
-- each one's `GrpcContext` gets.
unfoldable pub run_threads : List ℕ → Queues → Option (List (ℕ × Option ℕ))
run_threads [] queues = some []
run_threads (i ∷ order) queues = do
  (queue, queues') ← move_queue queues i
  contexts ← run_threads order queues'
  some ((i, queue) ∷ contexts)

-- The lambda of a thread behind the move of its queue.
abbrev pub serve_on : Option ℕ → List Action
serve_on queue =
    make_context queue ∷ register_say_hello ∷ register_say_many_hellos ∷ run_context ∷ []

-- What the server's threads do, and what the client does, which has a thread of its own.
abbrev pub Program : Type 0
Program = List (List Action) × List Act

unfoldable pub run : Transport → List ℕ → ℕ → Outcome Program
run transport order limit =
    outcome (add_listening_port (codes "localhost:50051") ∷ register_service ∷ build limit) (
      run_threads order (add_queues limit 0 []) >>= λ contexts.
      some (map (λ c. serve_on c.1) contexts, client_main transport))

-- `main`, with what `std::stoi` answers, and the server's threads that have begun by their `i` and
-- in the order in which they get there.
unfoldable pub main : Transport → (Bytes → Option ℤ) → List Bytes → List ℕ → Outcome Program
main transport stoi arguments order = counted (run transport order) (thread_count stoi arguments)
