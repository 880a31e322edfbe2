-- ===== src/Tracing/Exports.antt =====
-- What the program of src/opentelemetry/main.cpp exports and sends.
use vcpkg_test.Prelude.{
  ℕ, ◌≡◌, refl, Bool, true, false, Option, none, some, List, [], ◌∷◌, Bytes, if◌then◌else◌, ℤ,
  ◌>>=◌, ◌==◌, mem, Bool-cases, inl, inr,
}
use vcpkg_test.Tracing.{
  Rpc, StatusCode, k_ok, k_error, is_ok, Action, start_span, set_status, set_attribute, end_span,
  initiate_rpc, handle, request, async_initiate, initiate_with, complete,
}
use vcpkg_test.Tracing.Greet.{traced, get_tracer, activate, inject, Reply, greet_bound}
use vcpkg_test.Tracing.Programs.{
  Event, set_tracer_provider, set_global_propagator, create_channel, called, run_bound, main_bound,
}

-- A span that is open or exported: its number, and its status if one is set.
abbrev pub Span : Type 0
Span = ℕ × Option StatusCode

abbrev pub with_status : ℕ → StatusCode → List Span → Option (List Span)
with_status n code [] = none
with_status n code ((m, status) ∷ spans) =
    let rest = with_status n code spans in
    if n == m then some ((m, some code) ∷ spans) else (do more ← rest; some ((m, status) ∷ more))

abbrev pub close : ℕ → List Span → Option (Span × List Span)
close n [] = none
close n ((m, status) ∷ spans) =
    let rest = close n spans in
    if n == m
    then some ((m, status), spans)
    else (do (span, more) ← rest; some (span, (m, status) ∷ more))

abbrev pub is_open : ℕ → List Span → Bool
is_open n [] = false
is_open n ((m, status) ∷ spans) = if n == m then true else is_open n spans

-- The globals, the tracers that were got from a provider that was set, the spans, the one that is
-- active in the current context, the injections into the metadata of the next RPC, each with the
-- span that was active, and those of the RPCs that were sent.
pub record Sdk : Type 0 where
  pub provider : Bool
  pub propagator : Bool
  pub connected : Bool
  pub tracers : List ℕ
  pub open_spans : List Span
  pub exported : List Span
  pub active : Option ℕ
  pub injected : List (Option ℕ)
  pub sent : List (List (Option ℕ))

abbrev pub idle_sdk : Sdk
idle_sdk = record {
  provider = false;
  propagator = false;
  connected = false;
  tracers = [];
  open_spans = [];
  exported = [];
  active = none;
  injected = [];
  sent = [];
}

-- `none` is a span that goes nowhere or is used when it is not open, or an RPC with no channel.
abbrev pub act : Sdk → Action → Option Sdk
act sdk (start_span n start) =
    if mem start.tracer sdk.tracers
    then some (record sdk { open_spans = (n, none) ∷ sdk.open_spans })
    else none
act sdk (set_status n code) = do
  spans ← with_status n code sdk.open_spans
  some (record sdk { open_spans = spans })
act sdk (set_attribute n key value) = if is_open n sdk.open_spans then some sdk else none
act sdk (end_span n) = do
  (span, spans) ← close n sdk.open_spans
  some (record sdk { open_spans = spans; exported = span ∷ sdk.exported })
act sdk initiate_rpc =
    if sdk.connected
    then some (record sdk { injected = []; sent = sdk.injected ∷ sdk.sent })
    else none
act sdk (handle status) = some sdk

-- So is a tracer that is got before a provider is set, and an injection before a propagator is.
abbrev pub observe : Sdk → Event → Option Sdk
observe sdk set_tracer_provider = some (record sdk { provider = true })
observe sdk set_global_propagator = some (record sdk { propagator = true })
observe sdk (create_channel address) = some (record sdk { connected = true })
observe sdk (called (traced action)) = act sdk action
observe sdk (called (get_tracer tracer name version)) =
    if sdk.provider then some (record sdk { tracers = tracer ∷ sdk.tracers }) else none
observe sdk (called (activate n)) =
    if is_open n sdk.open_spans then some (record sdk { active = some n }) else none
observe sdk (called inject) =
    if sdk.propagator then some (record sdk { injected = sdk.active ∷ sdk.injected }) else none

abbrev pub observe_all : Sdk → List Event → Option Sdk
observe_all sdk [] = some sdk
observe_all sdk (event ∷ events) = do sdk' ← observe sdk event; observe_all sdk' events

-- One span is exported, with the status of the call, and none is open; one RPC is sent, and its
-- metadata was injected once, while no span was active.
abbrev pub one_span : Bool → Sdk
one_span ok = record {
  provider = true;
  propagator = true;
  connected = true;
  tracers = 0 ∷ [];
  open_spans = [];
  exported = (0, some (if ok then k_ok else k_error)) ∷ [];
  active = none;
  injected = [];
  sent = (none ∷ []) ∷ [];
}

-- Whatever the argument and the reply: the program sets a provider before it gets a tracer from it,
-- and a propagator before it injects; it sends one RPC, behind the creation of a channel; and it
-- exports one span, which has ended with OK or an error as the RPC did. The metadata of the RPC was
-- injected once before it is sent, and no span was active then: the span of the call is not in it.
pub exports :
    (rpc : Rpc) (version : Bytes) (argument : Option ℤ) (reply : Reply)
    → observe_all idle_sdk (main_bound rpc version argument reply)
      ≡ some (one_span (is_ok reply.status))
unfolding main_bound run_bound greet_bound request async_initiate initiate_with complete
exports rpc version argument reply = elim (Bool-cases (is_ok reply.status)) [
  | inl e ↦ rw e refl
  | inr e ↦ rw e refl
]
