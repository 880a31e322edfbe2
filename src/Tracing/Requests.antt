-- ===== src/Tracing/Requests.antt =====
-- Any number of traced requests at once, which complete in any order.
use vcpkg_test.Prelude.{
  ℕ, zero, suc, ◌<◌, ◌≡◌, ◌∙◌, ◌⊎◌, inl, inr, refl, sym, ap, subst, none, some, List, [], ◌∷◌, ◌++◌,
  append_assoc, All, Distinct,
}
use vcpkg_test.Tracing.{GrpcStatus, Handler, Token, rpc_initiation, complete, request}
use vcpkg_test.Tracing.Nested.{spans}
use vcpkg_test.Tracing.Clients.{
  recorded, Client, no_requests, Event, begins, completes, take_out, step, run, all_spans, IsTraced,
}
use vcpkg_test.Tracing.Recorded.{async_initiate-Starts, Distinct-drop, All-drop, recorded-complete}

-- The spans of the handler that is taken out stand together in the list of all spans.
record Taken (handlers : List Handler) (handler : Handler) (rest : List Handler) : Type 0 where
  before : List ℕ
  after : List ℕ
  with_it : all_spans handlers ≡ before ++ (spans handler ++ after)
  without_it : all_spans rest ≡ before ++ after

take_out_cases :
    (i : ℕ) (handlers : List Handler)
    → (take_out i handlers ≡ none)
      ⊎ ((handler : Handler) × (rest : List Handler) × (take_out i handlers ≡ some (handler, rest))
          × Taken handlers handler rest)
take_out_cases i [] = inl refl
take_out_cases zero (h ∷ handlers) = inr (
  h,
  handlers,
  refl,
  record { before = []; after = all_spans handlers; with_it = refl; without_it = refl },
)
take_out_cases (suc i) (h ∷ handlers) = elim (take_out_cases i handlers) [
  | inl e ↦ inl (rw e refl)
  | inr (handler, rest, e, taken) ↦ inr (
    handler,
    h ∷ rest,
    rw e refl,
    record {
      before = spans h ++ taken.before;
      after = taken.after;
      with_it =
          ap (λ ss. spans h ++ ss) taken.with_it
          ∙ sym (append_assoc (spans h) taken.before (spans handler ++ taken.after));
      without_it =
          ap (λ ss. spans h ++ ss) taken.without_it
          ∙ sym (append_assoc (spans h) taken.before taken.after);
    },
  )
]

begins_lem :
    (client : Client) (token : Token)
    → IsTraced client
    → (client' : Client) × (step client (begins token) ≡ some client') × IsTraced client'
unfolding step request
begins_lem client token traced =
    let started = request token client.next in
    let others = all_spans client.pending in
    let starts =
      async_initiate-Starts rpc_initiation token client.next others traced.below traced.distinct in
    let noted : recorded client.open_spans started.actions
        ≡ some (spans started.handler ++ others) =
      ap (λ o. recorded o started.actions) traced.listed ∙ starts.noted in
    (
      record {
        next = started.next;
        pending = started.handler ∷ client.pending;
        open_spans = spans started.handler ++ others;
      },
      rw noted refl,
      record { listed = refl; below = starts.below; distinct = starts.distinct },
    )

completes_lem :
    (client : Client) (i : ℕ) (status : GrpcStatus)
    → IsTraced client
    → (client' : Client) × (step client (completes i status) ≡ some client') × IsTraced client'
unfolding step
completes_lem client i status traced = elim (take_out_cases i client.pending) [
  | inl e ↦ (client, rw e refl, traced)
  | inr (handler, rest, e, taken) ↦
      let distinct : Distinct (taken.before ++ (spans handler ++ taken.after)) =
        subst Distinct taken.with_it traced.distinct in
      let below : All (λ s. s < client.next) (taken.before ++ (spans handler ++ taken.after)) =
        subst (All (λ s. s < client.next)) taken.with_it traced.below in
      let noted : recorded client.open_spans (complete handler status)
          ≡ some (taken.before ++ taken.after) =
        ap (λ o. recorded o (complete handler status)) (traced.listed ∙ taken.with_it)
        ∙ recorded-complete handler status taken.before taken.after distinct in
      (
        record client { pending = rest; open_spans = taken.before ++ taken.after },
        rw (e, noted) refl,
        record {
          listed = sym taken.without_it;
          below =
              subst (All (λ s. s < client.next)) (sym taken.without_it)
                (All-drop client.next taken.before (spans handler) taken.after below);
          distinct =
              subst Distinct (sym taken.without_it)
                (Distinct-drop taken.before (spans handler) taken.after distinct);
        },
      )
]

step-IsTraced :
    (client : Client) (event : Event)
    → IsTraced client
    → (client' : Client) × (step client event ≡ some client') × IsTraced client'
step-IsTraced client (begins token) traced = begins_lem client token traced
step-IsTraced client (completes i status) traced = completes_lem client i status traced

run_lem :
    (events : List Event) (client : Client)
    → IsTraced client
    → (client' : Client) × (run client events ≡ some client') × IsTraced client'
unfolding run
run_lem [] client traced = (client, refl, traced)
run_lem (event ∷ events) client traced =
    let (client', e, traced') = step-IsTraced client event traced in
    let (last, f, traced'') = run_lem events client' traced' in (last, rw e f, traced'')

-- However requests begin, with any tokens, and complete, in any order and with any status: no span
-- is started while it is open, and none is ended or written to while it is not. The open spans are
-- at any time those of the pending requests, each once; with no pending request none is open.
pub run-IsTraced :
    (events : List Event)
    → (client : Client) × (run no_requests events ≡ some client)
      × (client.open_spans ≡ all_spans client.pending)
      × Distinct client.open_spans
run-IsTraced events =
    let (client, e, traced) =
      run_lem events no_requests (record { listed = refl; below = tt; distinct = tt }) in
    (client, e, traced.listed, subst Distinct (sym traced.listed) traced.distinct)
