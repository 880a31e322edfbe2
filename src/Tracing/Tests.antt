-- ===== src/Tracing/Tests.antt =====
-- Traced requests on concrete tokens, metadata and ports.
use vcpkg_test.Prelude.{
  ◌⊎◌, ℕ, ◌^◌, ◌<◌, ◌≡◌, refl, none, some, List, [], ◌∷◌, ◌++◌, Bytes, codes, pos, negsuc, Distinct,
}
use vcpkg_test.Tracing.{
  GrpcStatus, Rpc, Token, user_token, bind_tracer, complete, request, k_error, handle, is_ok,
  associated,
}
use vcpkg_test.Tracing.Nested.{nested, request-nested, ends, complete-request}
use vcpkg_test.Tracing.Clients.{Event, Client, begins, completes, no_requests, run, all_spans}
use vcpkg_test.Tracing.Requests.{run-IsTraced}
use vcpkg_test.Tracing.Greet.{Reply, port_of}
use vcpkg_test.Tracing.Programs.{target, main_bound}
use vcpkg_test.Tracing.Exports.{observe_all, idle_sdk, one_span, exports}
use vcpkg_test.Tracing.Address.{
  channels, IsDigits, StartsPositive, digits_value, asked_port, main_bound-port_of,
}
use vcpkg_test.Tracing.Carriers.{server_get, client_set, arrived, server_get-client_set}

abbrev greet_rpc : Rpc
greet_rpc = record { service_name = codes "grpc_example.Greeter"; method_name = codes "Greet" }

abbrev unavailable : GrpcStatus
unavailable = record { error_code = 14; error_message = codes "down" }

abbrev fine : GrpcStatus
fine = record { error_code = 0; error_message = [] }

abbrev two_tracers : Token
two_tracers = bind_tracer greet_rpc 7 (bind_tracer greet_rpc 8 user_token)

request-nested_example :
    nested []
      ((request two_tracers 3).actions ++ complete (request two_tracers 3).handler unavailable)
    ≡ some []
request-nested_example = request-nested two_tracers 3 unavailable

-- Executors are numbers here; the user's handler is bound to 5, and 0 is the default.
abbrev executor_of_user : ℕ → ℕ
executor_of_user candidate = 5

complete-request_example :
    (complete (request two_tracers 3).handler unavailable
      ≡ ends k_error 14 (4 ∷ 3 ∷ []) ++ handle unavailable ∷ [])
    × (associated executor_of_user (request two_tracers 3).handler 0 ≡ 5)
complete-request_example = complete-request executor_of_user 0 two_tracers 3 unavailable

abbrev events : List Event
events =
    begins two_tracers
    ∷ begins (bind_tracer greet_rpc 7 user_token)
    ∷ completes 1 unavailable
    ∷ begins user_token
    ∷ completes 5 fine
    ∷ []

run-IsTraced_example :
    (client : Client) × (run no_requests events ≡ some client)
    × (client.open_spans ≡ all_spans client.pending)
    × Distinct client.open_spans
run-IsTraced_example = run-IsTraced events

abbrev refused : Reply
refused = record { status = unavailable; response = [] }

-- The port of an argument above the range is another one.
wrapped_port : port_of (some (pos 70000)) ≡ 4464
unfolding port_of
wrapped_port = refl

main_bound-port_of_example :
    (digits : Bytes) × (channels (main_bound greet_rpc (codes "1.54") (some (negsuc 0)) refused)
      ≡ (codes "0.0.0.0:" ++ digits) ∷ [])
    × IsDigits digits
    × ((digits ≡ 48 ∷ []) ⊎ StartsPositive digits)
    × (digits_value 0 digits ≡ port_of (some (negsuc 0)))
    × (port_of (some (negsuc 0)) < 2 ^ 16)
    × ((asked_port (some (negsuc 0)) ≡ some (port_of (some (negsuc 0))))
        ⊎ (asked_port (some (negsuc 0)) ≡ none))
main_bound-port_of_example = main_bound-port_of greet_rpc (codes "1.54") (some (negsuc 0)) refused

default_target : target (port_of none) ≡ codes "0.0.0.0:8800"
unfolding target port_of
default_target = refl

exports_example :
    observe_all idle_sdk (main_bound greet_rpc (codes "1.54") none refused)
    ≡ some (one_span (is_ok unavailable))
exports_example = exports greet_rpc (codes "1.54") none refused

-- Two values that lie one behind the other: the first is read with the second.
abbrev packed : Bytes → Bytes → Bytes
packed key value = codes "state" ++ 0 ∷ codes "rest"

server_get-client_set_example :
    server_get
      (codes "traceparent")
      (arrived packed (client_set (codes "traceparent") (codes "00-a") []))
    ≡ some (codes "00-a" ++ codes "state")
server_get-client_set_example =
    server_get-client_set packed (codes "traceparent") (codes "00-a") [] (codes "state")
      (codes "rest") tt (refl, (refl, (refl, (refl, tt))))
      (refl, (refl, (refl, (refl, (refl, tt))))) refl
