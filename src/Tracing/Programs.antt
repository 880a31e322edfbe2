-- ===== src/Tracing/Programs.antt =====
-- The program of src/opentelemetry/main.cpp, with the set-up of src/opentelemetry/tracer_common.h.
use vcpkg_test.Prelude.{
  ℕ, zero, suc, ◌+◌, ◌%◌, ◌/◌, Option, List, [], ◌∷◌, ◌++◌, map, Bytes, codes, ltb, if◌then◌else◌,
  ℤ,
}
use vcpkg_test.Tracing.{Rpc}
use vcpkg_test.Tracing.Greet.{Call, get_tracer, Reply, greet_bound, port_of}

-- What a program does: the global provider and the global propagator that it sets, the address that
-- it connects to, and the calls of its client.
pub data Event : Type 0 where
  set_tracer_provider : Event
  set_global_propagator : Event
  create_channel : Bytes → Event
  called : Call → Event

-- `initTracer`: the provider has one processor, which exports each span that ends.
abbrev pub init_tracer : List Event
init_tracer = set_tracer_provider ∷ set_global_propagator ∷ []

-- The decimal digits in front of `rest`, as many as `digits` at most.
abbrev pub decimal : ℕ → ℕ → Bytes → Bytes
decimal zero n rest = rest
decimal (suc digits) n rest =
    let written = (48 + n % 10) ∷ rest in
    let more = decimal digits (n / 10) written in if ltb n 10 then written else more

-- `"0.0.0.0:" + std::to_string(port)`; a `uint16_t` has at most five digits.
unfoldable pub target : ℕ → Bytes
target port = codes "0.0.0.0:" ++ decimal 5 port []

-- `RunClient`; the response is not used.
unfoldable pub run_bound : Rpc → Bytes → ℕ → Reply → List Event
run_bound rpc version port reply =
    create_channel (target port)
    ∷ called (get_tracer 0 (codes "grpc") version)
    ∷ map called (greet_bound rpc 0 0 reply).0

-- `main`; the argument is `atoi(argv[1])` if there is one.
unfoldable pub main_bound : Rpc → Bytes → Option ℤ → Reply → List Event
main_bound rpc version argument reply =
    init_tracer ++ set_global_propagator ∷ run_bound rpc version (port_of argument) reply
