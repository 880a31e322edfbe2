-- ===== src/Tracing/Recorded.antt =====
-- What the actions of a traced request of src/opentelemetry/bind_tracer.hpp do to the open spans.
use vcpkg_test.Prelude.{
  ℕ, suc, ◌<◌, ◌≡◌, refl, ap, true, false, some, List, [], ◌∷◌, ◌++◌, ==_refl, All, All-remove, mem,
  mem_self, mem_right, Distinct, Distinct-remove, not-mem-head, not-mem-tail, mem-append, arith,
}
use vcpkg_test.Tracing.{
  GrpcStatus, Handler, Token, Initiation, Started, user_handler, traced_handler, user_token,
  tracer_binder, rpc_initiation, init_wrapper, complete, initiate_with, async_initiate,
}
use vcpkg_test.Tracing.Nested.{spans}
use vcpkg_test.Tracing.Clients.{remove, recorded}

not-mem-below : (n : ℕ) (ss : List ℕ) → All (λ s. s < n) ss → mem n ss ≡ false
not-mem-below n [] below = refl
not-mem-below n (s ∷ ss) (lt, below) = ground (arith, not-mem-below n ss below)

All-lt-suc : (n : ℕ) (ss : List ℕ) → All (λ s. s < n) ss → All (λ s. s < suc n) ss
All-lt-suc n [] below = tt
All-lt-suc n (s ∷ ss) (lt, below) = (omega arith, All-lt-suc n ss below)

-- What the start of a request does to spans that are open before.
pub record Starts (open_spans others : List ℕ) (started : Started) : Type 0 where
  pub noted : recorded open_spans started.actions ≡ some (spans started.handler ++ others)
  pub below : All (λ s. s < started.next) (spans started.handler ++ others)
  pub distinct : Distinct (spans started.handler ++ others)

initiate_with-Starts :
    (initiation : Initiation) (handler : Handler) (next : ℕ) (others : List ℕ)
    → All (λ s. s < next) (spans handler ++ others)
    → Distinct (spans handler ++ others)
    → Starts (spans handler ++ others) others (initiate_with initiation handler next)
unfolding initiate_with
initiate_with-Starts rpc_initiation handler next others below distinct = record {
  noted = refl;
  below = below;
  distinct = distinct;
}
initiate_with-Starts (init_wrapper tracer rpc initiation) handler next others below distinct =
    let new = not-mem-below next (spans handler ++ others) below in
    let rest =
      initiate_with-Starts initiation (traced_handler next handler) (suc next) others
        (omega arith, All-lt-suc next (spans handler ++ others) below) (new, distinct) in
    record { noted = rw new rest.noted; below = rest.below; distinct = rest.distinct }

pub async_initiate-Starts :
    (initiation : Initiation) (token : Token) (next : ℕ) (others : List ℕ)
    → All (λ s. s < next) others
    → Distinct others
    → Starts others others (async_initiate initiation token next)
unfolding async_initiate
async_initiate-Starts initiation user_token next others below distinct =
    initiate_with-Starts initiation user_handler next others below distinct
async_initiate-Starts initiation (tracer_binder tracer rpc token) next others below distinct =
    async_initiate-Starts (init_wrapper tracer rpc initiation) token next others below distinct

remove_lem :
    (xs : List ℕ) (t : ℕ) (ys : List ℕ) → mem t xs ≡ false → remove t (xs ++ t ∷ ys) ≡ xs ++ ys
remove_lem [] t ys new = rw (==_refl t) refl
remove_lem (x ∷ xs) t ys new =
    rw (not-mem-head t x xs new) (ap (◌∷◌ x) (remove_lem xs t ys (not-mem-tail t x xs new)))

not-mem-left : (a : ℕ) (xs ys : List ℕ) → mem a (xs ++ ys) ≡ false → mem a xs ≡ false
not-mem-left a xs ys out = ground (arith, mem-append a xs ys)

pub Distinct-drop : (xs gone ys : List ℕ) → Distinct (xs ++ (gone ++ ys)) → Distinct (xs ++ ys)
Distinct-drop xs [] ys distinct = distinct
Distinct-drop xs (t ∷ gone) ys distinct =
    Distinct-drop xs gone ys (Distinct-remove xs t (gone ++ ys) distinct).0

pub All-drop :
    (n : ℕ) (xs gone ys : List ℕ)
    → All (λ s. s < n) (xs ++ (gone ++ ys))
    → All (λ s. s < n) (xs ++ ys)
All-drop n xs [] ys below = below
All-drop n xs (t ∷ gone) ys below =
    All-drop n xs gone ys (All-remove (λ s. s < n) xs t (gone ++ ys) below)

pub recorded-complete :
    (handler : Handler) (status : GrpcStatus) (xs ys : List ℕ)
    → Distinct (xs ++ (spans handler ++ ys))
    → recorded (xs ++ (spans handler ++ ys)) (complete handler status) ≡ some (xs ++ ys)
unfolding complete
recorded-complete user_handler status xs ys distinct = refl
recorded-complete (traced_handler span handler) status xs ys distinct =
    let rest = spans handler ++ ys in
    let (distinct', out) = Distinct-remove xs span rest distinct in
    let here : mem span (xs ++ span ∷ rest) ≡ true =
      mem_right span xs (span ∷ rest) (mem_self span rest) in
    let gone : remove span (xs ++ span ∷ rest) ≡ xs ++ rest =
      remove_lem xs span rest (not-mem-left span xs rest out) in
    simp (here, gone) (recorded-complete handler status xs ys distinct')
