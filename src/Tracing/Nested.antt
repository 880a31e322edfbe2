-- ===== src/Tracing/Nested.antt =====
-- The spans of one request.
use vcpkg_test.Prelude.{
  ℕ, zero, suc, ◌+◌, ◌≡◌, ◌∙◌, refl, ap, Option-cases, inl, inr, Option, none, some, List, [], ◌∷◌,
  ◌++◌, ◌==◌, ==_refl, if◌then◌else◌, ◌>>=◌, arith,
}
use vcpkg_test.Tracing.{
  GrpcStatus, StatusCode, k_ok, k_error, is_ok, rpc_grpc_status_code, number, Action, Handler,
  Token, Initiation, start_span, set_status, set_attribute, end_span, initiate_rpc, handle,
  user_handler, traced_handler, user_token, tracer_binder, rpc_initiation, init_wrapper, complete,
  initiate_with, async_initiate, request, associated,
}

-- The open spans behind an action, the last one first. A span is ended while it is the last one,
-- and written to while it is; the user's handler is called when none is open.
abbrev nested_step : List ℕ → Action → Option (List ℕ)
nested_step open_spans (start_span span start) = some (span ∷ open_spans)
nested_step [] (set_status span code) = none
nested_step (top ∷ open_spans) (set_status span code) =
    if top == span then some (top ∷ open_spans) else none
nested_step [] (set_attribute span key value) = none
nested_step (top ∷ open_spans) (set_attribute span key value) =
    if top == span then some (top ∷ open_spans) else none
nested_step [] (end_span span) = none
nested_step (top ∷ open_spans) (end_span span) = if top == span then some open_spans else none
nested_step open_spans initiate_rpc = some open_spans
nested_step [] (handle status) = some []
nested_step (top ∷ open_spans) (handle status) = none

abbrev pub nested : List ℕ → List Action → Option (List ℕ)
nested open_spans [] = some open_spans
nested open_spans (action ∷ actions) = do
  open_spans' ← nested_step open_spans action
  nested open_spans' actions

-- The spans that a handler ends, in this order.
abbrev pub spans : Handler → List ℕ
spans user_handler = []
spans (traced_handler span handler) = span ∷ spans handler

nested-append :
    (open_spans : List ℕ) (xs ys : List Action)
    → nested open_spans (xs ++ ys) ≡ (nested open_spans xs >>= λ o. nested o ys)
nested-append open_spans [] ys = refl
nested-append open_spans (x ∷ xs) ys = elim (Option-cases (nested_step open_spans x)) [
  | inl e ↦ rw e refl
  | inr (open_spans', e) ↦ rw e (nested-append open_spans' xs ys)
]

nested-complete :
    (handler : Handler) (status : GrpcStatus)
    → nested (spans handler) (complete handler status) ≡ some []
unfolding complete
nested-complete user_handler status = refl
nested-complete (traced_handler span handler) status =
    simp (==_refl span, nested-complete handler status)

nested-initiate_with :
    (initiation : Initiation) (handler : Handler) (next : ℕ)
    → nested (spans handler) (initiate_with initiation handler next).actions
      ≡ some (spans (initiate_with initiation handler next).handler)
unfolding initiate_with
nested-initiate_with rpc_initiation user_handler next = refl
nested-initiate_with rpc_initiation (traced_handler span handler) next = refl
nested-initiate_with (init_wrapper tracer rpc initiation) handler next =
    nested-initiate_with initiation (traced_handler next handler) (suc next)

nested-async_initiate :
    (initiation : Initiation) (token : Token) (next : ℕ)
    → nested [] (async_initiate initiation token next).actions
      ≡ some (spans (async_initiate initiation token next).handler)
unfolding async_initiate
nested-async_initiate initiation user_token next = nested-initiate_with initiation user_handler next
nested-async_initiate initiation (tracer_binder tracer rpc token) next =
    nested-async_initiate (init_wrapper tracer rpc initiation) token next

-- With a token under any number of tracers, the spans of a request are nested: each is ended, and
-- written to, while it is the last one open, and none is open when the user's handler is called.
pub request-nested :
    (token : Token) (next : ℕ) (status : GrpcStatus)
    → nested [] ((request token next).actions ++ complete (request token next).handler status)
      ≡ some []
unfolding request
request-nested token next status =
    nested-append [] (async_initiate rpc_initiation token next).actions _
    ∙ rw (nested-async_initiate rpc_initiation token next)
        (nested-complete (async_initiate rpc_initiation token next).handler status)

-- The spans of a handler in the order of their ends, with what is written to them.
abbrev pub ends : StatusCode → ℕ → List ℕ → List Action
ends code error_code [] = []
ends code error_code (span ∷ rest) =
    set_status span code
    ∷ set_attribute span rpc_grpc_status_code (number error_code)
    ∷ end_span span
    ∷ ends code error_code rest

-- The number of tracers of a token.
abbrev binders : Token → ℕ
binders user_token = 0
binders (tracer_binder tracer rpc token) = suc (binders token)

abbrev wrappers : Initiation → ℕ
wrappers rpc_initiation = 0
wrappers (init_wrapper tracer rpc initiation) = suc (wrappers initiation)

-- The numbers below `n + k` down to `n`, in front of others.
abbrev down : ℕ → ℕ → List ℕ → List ℕ
down zero n rest = rest
down (suc k) n rest = down k (suc n) (n ∷ rest)

spans-initiate_with :
    (initiation : Initiation) (handler : Handler) (next : ℕ)
    → spans (initiate_with initiation handler next).handler
      ≡ down (wrappers initiation) next (spans handler)
unfolding initiate_with
spans-initiate_with rpc_initiation handler next = refl
spans-initiate_with (init_wrapper tracer rpc initiation) handler next =
    spans-initiate_with initiation (traced_handler next handler) (suc next)

spans-async_initiate :
    (initiation : Initiation) (token : Token) (next : ℕ)
    → spans (async_initiate initiation token next).handler
      ≡ down (wrappers initiation + binders token) next []
unfolding async_initiate
spans-async_initiate initiation user_token next =
    let e : wrappers initiation ≡ wrappers initiation + 0 = omega arith in
    spans-initiate_with initiation user_handler next ∙ ap (λ k. down k next []) e
spans-async_initiate initiation (tracer_binder tracer rpc token) next =
    let e : suc (wrappers initiation) + binders token ≡ wrappers initiation + suc (binders token) =
      omega arith in
    spans-async_initiate (init_wrapper tracer rpc initiation) token next
    ∙ ap (λ k. down k next []) e

complete-ends :
    (handler : Handler) (status : GrpcStatus)
    → complete handler status
      ≡ ends (if is_ok status then k_ok else k_error) status.error_code (spans handler)
        ++ handle status ∷ []
unfolding complete
complete-ends user_handler status = refl
complete-ends (traced_handler span handler) status =
    ap
      (λ rest.
        set_status span (if is_ok status then k_ok else k_error)
        ∷ set_attribute span rpc_grpc_status_code (number status.error_code)
        ∷ end_span span
        ∷ rest)
      (complete-ends handler status)

associated_lem :
    {T : Type 0} (of_user : T → T) (handler : Handler) (candidate : T)
    → associated of_user handler candidate ≡ of_user candidate
unfolding associated
associated_lem of_user user_handler candidate = refl
associated_lem of_user (traced_handler span handler) candidate =
    associated_lem of_user handler candidate

-- When the RPC is done, the spans that the request started, one for each tracer of the token, end
-- from the last one to the first; each gets OK or an error as the RPC's status says, and the status
-- code. After them the user's handler is called, once, with that status. Whatever the library asks
-- of the handler that it is given, such as an executor or an allocator, is that of the user's.
pub complete-request :
    {T : Type 0} (of_user : T → T) (candidate : T) (token : Token) (next : ℕ) (status : GrpcStatus)
    → (complete (request token next).handler status
        ≡ ends
            (if is_ok status then k_ok else k_error)
            status.error_code
            (down (binders token) next [])
          ++ handle status ∷ [])
      × (associated of_user (request token next).handler candidate ≡ of_user candidate)
unfolding request
complete-request of_user candidate token next status =
    let e : 0 + binders token ≡ binders token = omega arith in
    let listed : spans (request token next).handler ≡ down (binders token) next [] =
      spans-async_initiate rpc_initiation token next ∙ ap (λ k. down k next []) e in
    (
      complete-ends (request token next).handler status
          ∙ ap
              (λ ss.
                ends (if is_ok status then k_ok else k_error) status.error_code ss
                ++ handle status ∷ [])
              listed,
      associated_lem of_user (request token next).handler candidate,
    )
