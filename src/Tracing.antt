-- ===== src/Tracing.antt =====
-- src/opentelemetry/bind_tracer.hpp: a completion token that traces an RPC. What the tracer, the
-- RPC and the user's handler are called with is a list of actions; a span is the number that its
-- `StartSpan` is given, counted from 0.
pub mod Nested
pub mod Clients
mod Recorded
pub mod Requests
pub mod Greet
pub mod Programs
pub mod Exports
pub mod Address
pub mod Carriers
mod Tests
use vcpkg_test.Prelude.{ℕ, suc, Bool, List, [], ◌∷◌, Bytes, codes, ◌==◌, if◌then◌else◌}

-- `grpc::Status` by its code, which is 0 for OK, and its message.
pub record GrpcStatus : Type 0 where
  pub error_code : ℕ
  pub error_message : Bytes

abbrev pub is_ok : GrpcStatus → Bool
is_ok status = status.error_code == 0

pub data StatusCode : Type 0 where
  k_ok k_error : StatusCode

pub data SpanKind : Type 0 where
  k_internal k_client : SpanKind

-- The keys of `SemanticConventions` that are used.
pub data Key : Type 0 where
  rpc_system rpc_service rpc_method rpc_grpc_status_code net_peer_ip net_peer_port : Key

pub data Value : Type 0 where
  text : Bytes → Value
  number : ℕ → Value

-- The arguments of `StartSpan`, and the tracer.
pub record SpanStart : Type 0 where
  pub tracer : ℕ
  pub name : Bytes
  pub attributes : List (Key × Value)
  pub kind : SpanKind

pub data Action : Type 0 where
  start_span : ℕ → SpanStart → Action
  set_status : ℕ → StatusCode → Action
  set_attribute : ℕ → Key → Value → Action
  end_span : ℕ → Action
  initiate_rpc : Action
  handle : GrpcStatus → Action

-- `PrepareAsync` by the names that it stands for.
pub record Rpc : Type 0 where
  pub service_name : Bytes
  pub method_name : Bytes

-- A completion handler: the user's, or a `TracerBinderCompletionHandler` with its span.
pub data Handler : Type 0 where
  user_handler : Handler
  traced_handler : ℕ → Handler → Handler

-- A completion token: the user's, or a `TracerBinder` with its tracer.
pub data Token : Type 0 where
  user_token : Token
  tracer_binder : ℕ → Rpc → Token → Token

-- An initiation: that of the RPC, or a `TracerBinderAsyncResultInitWrapper` round another one.
pub data Initiation : Type 0 where
  rpc_initiation : Initiation
  init_wrapper : ℕ → Rpc → Initiation → Initiation

abbrev pub bind_tracer : Rpc → ℕ → Token → Token
bind_tracer rpc tracer token = tracer_binder tracer rpc token

-- `TracerBinderCompletionHandler::operator()`
unfoldable pub complete : Handler → GrpcStatus → List Action
complete user_handler status = handle status ∷ []
complete (traced_handler span handler) status =
    set_status span (if is_ok status then k_ok else k_error)
    ∷ set_attribute span rpc_grpc_status_code (number status.error_code)
    ∷ end_span span
    ∷ complete handler status

-- `associator<Associator, TracerBinderCompletionHandler<…>>::get`: what is associated with a
-- handler, such as an executor. `of_user` is the library's answer for the user's handler, from the
-- default candidate.
unfoldable pub associated : {T : Type 0} → (T → T) → Handler → T → T
associated of_user user_handler candidate = of_user candidate
associated of_user (traced_handler span handler) candidate = associated of_user handler candidate

-- The arguments of `StartSpan` in `TracerBinderAsyncResultInitWrapper::operator()`.
abbrev pub span_of : ℕ → Rpc → SpanStart
span_of tracer rpc = record {
  tracer = tracer;
  name = codes "GreeterClient/Greet";
  attributes =
      (rpc_system, text (codes "grpc"))
      ∷ (rpc_service, text rpc.service_name)
      ∷ (rpc_method, text rpc.method_name)
      ∷ [];
  kind = k_client;
}

-- The actions of a start, the handler that the RPC gets, and the number of the next span.
pub record Started : Type 0 where
  pub actions : List Action
  pub handler : Handler
  pub next : ℕ

-- `TracerBinderAsyncResultInitWrapper::operator()`
unfoldable pub initiate_with : Initiation → Handler → ℕ → Started
initiate_with rpc_initiation handler next = record {
  actions = initiate_rpc ∷ [];
  handler = handler;
  next = next;
}
initiate_with (init_wrapper tracer rpc initiation) handler next =
    let started = initiate_with initiation (traced_handler next handler) (suc next) in
    record started { actions = start_span next (span_of tracer rpc) ∷ started.actions }

-- `async_result<TracerBinder<…>>::initiate`: a wrapper goes round the initiation, and the token
-- inside is initiated with it.
unfoldable pub async_initiate : Initiation → Token → ℕ → Started
async_initiate initiation user_token next = initiate_with initiation user_handler next
async_initiate initiation (tracer_binder tracer rpc token) next =
    async_initiate (init_wrapper tracer rpc initiation) token next

-- `ClientRPC::request` with the token, from the first free number of a span.
unfoldable pub request : Token → ℕ → Started
request token next = async_initiate rpc_initiation token next
