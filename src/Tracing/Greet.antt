-- ===== src/Tracing/Greet.antt =====
-- `GreeterClient::Greet` of src/opentelemetry/main.cpp, which traces by `bind_tracer`, and the port
-- that its `main` takes.
use vcpkg_test.Prelude.{
  ℕ, ◌-◌, ◌%◌, ◌^◌, ◌<◌, ◌≡◌, Option, none, some, List, ◌∷◌, ◌++◌, map, Bytes, ℤ, pos, negsuc,
  arith,
}
use vcpkg_test.Tracing.{GrpcStatus, Action, Rpc, user_token, bind_tracer, complete, request}

-- What a client of OpenTelemetry can do: calls of a span or the RPC, a tracer that is got under a
-- name and a version (the number is the one that it has from then on), a span made active in the
-- current context, which main.cpp never does, and the injection of the current context into the
-- metadata of the RPC.
pub data Call : Type 0 where
  traced : Action → Call
  get_tracer : ℕ → Bytes → Bytes → Call
  activate : ℕ → Call
  inject : Call

-- What the RPC leads to: its status, and the text of the response message.
pub record Reply : Type 0 where
  pub status : GrpcStatus
  pub response : Bytes

-- `Greet`: the names that agrpc derives from `PrepareAsyncGreet`, the tracer, and the next span.
unfoldable pub greet_bound : Rpc → ℕ → ℕ → Reply → List Call × Bytes
greet_bound rpc tracer next reply =
    let started = request (bind_tracer rpc tracer user_token) next in
    (
      inject ∷ (map traced started.actions ++ map traced (complete started.handler reply.status)),
      reply.response,
    )

-- `port = atoi(argv[1])`, as a `uint16_t`, or the default port; `none` is no argument.
unfoldable pub port_of : Option ℤ → ℕ
port_of none = 8800
port_of (some (pos n)) = n % 2 ^ 16
port_of (some (negsuc n)) = (2 ^ 16 - 1) - n % 2 ^ 16

-- The port is a 16-bit number, and an argument from 0 to 65535 is taken as it is.
pub port_of_bounds :
    (argument : Option ℤ)
    → (port_of argument < 2 ^ 16) × ((n : ℕ) → n < 2 ^ 16 → port_of (some (pos n)) ≡ n)
unfolding port_of
port_of_bounds none = (omega arith, λ n lt. omega arith)
port_of_bounds (some (pos k)) = (omega arith, λ n lt. omega arith)
port_of_bounds (some (negsuc k)) = (omega arith, λ n lt. omega arith)
