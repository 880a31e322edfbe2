-- ===== src/Tracing/Clients.antt =====
-- A client of src/opentelemetry/bind_tracer.hpp with any number of traced requests at once, and the
-- spans that are open.
use vcpkg_test.Prelude.{
  ℕ, zero, suc, ◌<◌, ◌≡◌, Option, none, some, List, [], ◌∷◌, ◌++◌, ◌==◌, if◌then◌else◌, ◌>>=◌, All,
  mem, Distinct,
}
use vcpkg_test.Tracing.{
  GrpcStatus, Action, Handler, Token, start_span, set_status, set_attribute, end_span, initiate_rpc,
  handle, complete, request,
}
use vcpkg_test.Tracing.Nested.{spans}

abbrev pub remove : ℕ → List ℕ → List ℕ
remove span [] = []
remove span (s ∷ ss) = if span == s then ss else s ∷ remove span ss

-- The open spans behind an action. `none` is a span that is started again while it is open, or that
-- is written to or ended while it is not.
abbrev recorded_step : List ℕ → Action → Option (List ℕ)
recorded_step open_spans (start_span span start) =
    if mem span open_spans then none else some (span ∷ open_spans)
recorded_step open_spans (set_status span code) =
    if mem span open_spans then some open_spans else none
recorded_step open_spans (set_attribute span key value) =
    if mem span open_spans then some open_spans else none
recorded_step open_spans (end_span span) =
    if mem span open_spans then some (remove span open_spans) else none
recorded_step open_spans initiate_rpc = some open_spans
recorded_step open_spans (handle status) = some open_spans

abbrev pub recorded : List ℕ → List Action → Option (List ℕ)
recorded open_spans [] = some open_spans
recorded open_spans (action ∷ actions) = do
  open_spans' ← recorded_step open_spans action
  recorded open_spans' actions

-- The number of the next span, the handlers of the requests that are not done, and the open spans.
pub record Client : Type 0 where
  pub next : ℕ
  pub pending : List Handler
  pub open_spans : List ℕ

abbrev pub no_requests : Client
no_requests = record { next = 0; pending = []; open_spans = [] }

-- A request begins, or the pending one at an index completes.
pub data Event : Type 0 where
  begins : Token → Event
  completes : ℕ → GrpcStatus → Event

abbrev pub take_out : ℕ → List Handler → Option (Handler × List Handler)
take_out i [] = none
take_out zero (handler ∷ handlers) = some (handler, handlers)
take_out (suc i) (handler ∷ handlers) = do
  (taken, rest) ← take_out i handlers
  some (taken, handler ∷ rest)

abbrev pub finish : Client → GrpcStatus → Option (Handler × List Handler) → Option Client
finish client status none = some client
finish client status (some (handler, rest)) = do
  open_spans ← recorded client.open_spans (complete handler status)
  some (record client { pending = rest; open_spans = open_spans })

unfoldable pub step : Client → Event → Option Client
step client (begins token) = do
  open_spans ← recorded client.open_spans (request token client.next).actions
  some (record {
    next = (request token client.next).next;
    pending = (request token client.next).handler ∷ client.pending;
    open_spans = open_spans;
  })
step client (completes i status) = finish client status (take_out i client.pending)

unfoldable pub run : Client → List Event → Option Client
run client [] = some client
run client (event ∷ events) = do client' ← step client event; run client' events

abbrev pub all_spans : List Handler → List ℕ
all_spans [] = []
all_spans (handler ∷ handlers) = spans handler ++ all_spans handlers

-- The open spans are those of the pending requests, each once, and have been given out.
pub record IsTraced (client : Client) : Type 0 where
  pub listed : client.open_spans ≡ all_spans client.pending
  pub below : All (λ s. s < client.next) (all_spans client.pending)
  pub distinct : Distinct (all_spans client.pending)
