-- ===== src/ClientRpc/Unambiguous.antt =====
-- `RPC_TYPE` of src/client_rpc_intellisense.cpp is well-formed for each method.
use vcpkg_test.Prelude.{
  ℕ, ◌≡◌, ◌⊎◌, inl, inr, refl, true, some, List, [], ◌∷◌, Bool-cases, Bool, ◌&&◌, false,
}
use vcpkg_test.ClientRpc.{
  Template, client_async_reader, client_async_reader_interface, other_template, CppType, void_type,
  applied, std_unique_ptr, const_ref, pointer, Method, Suffix, is_plain, is_reader, takes_request,
  matches_reader, is_writer, takes_response, matches_writer, matching, rpc_type,
}

-- `std::unique_ptr<c<Response>> (Stub::*)(const Request&, void*)`
abbrev pub server_streaming : Template → CppType → CppType → Method
server_streaming c response request = record {
  result = applied std_unique_ptr (applied c response);
  parameters = const_ref request ∷ pointer void_type ∷ [];
  suffixes = [];
}

-- `std::unique_ptr<Writer<Request>> (Stub::*)(Response*)`
abbrev pub client_streaming : Template → CppType → CppType → Method
client_streaming writer request response = record {
  result = applied std_unique_ptr (applied writer request);
  parameters = pointer response ∷ [];
  suffixes = [];
}

abbrev pub IsServerStreaming : Method → Type 0
IsServerStreaming m =
    (c : Template) × (response : CppType) × (request : CppType) × ((c ≡ client_async_reader)
      ⊎ (c ≡ client_async_reader_interface))
    × (m ≡ server_streaming c response request)

abbrev pub IsClientStreaming : Method → Type 0
IsClientStreaming m =
    (writer : Template) × (request : CppType) × (response : CppType) × (m
      ≡ client_streaming writer request response)

takes_request_lem :
    (ps : List CppType)
    → takes_request ps ≡ true
    → (request : CppType) × (ps ≡ const_ref request ∷ pointer void_type ∷ [])
takes_request_lem (const_ref request ∷ pointer void_type ∷ []) e = (request, refl)
takes_request_lem ps e = absurd (cc e)

is_reader_lem :
    (c : Template) (t : CppType)
    → is_reader c t ≡ true
    → ((c ≡ client_async_reader) ⊎ (c ≡ client_async_reader_interface))
      × ((response : CppType) × (t ≡ applied std_unique_ptr (applied c response)))
is_reader_lem client_async_reader (applied std_unique_ptr (applied client_async_reader response))
      e =
    (inl refl, (response, refl))
is_reader_lem client_async_reader_interface
      (applied std_unique_ptr (applied client_async_reader_interface response)) e =
    (inr refl, (response, refl))
is_reader_lem c t e = absurd (cc e)

is_writer_lem :
    (t : CppType)
    → is_writer t ≡ true
    → (writer : Template) × (request : CppType) × (t
        ≡ applied std_unique_ptr (applied writer request))
is_writer_lem (applied std_unique_ptr (applied writer request)) e = (writer, request, refl)
is_writer_lem t e = absurd (cc e)

takes_response_lem :
    (ps : List CppType)
    → takes_response ps ≡ true
    → (response : CppType) × (ps ≡ pointer response ∷ [])
takes_response_lem (pointer response ∷ []) e = (response, refl)
takes_response_lem ps e = absurd (cc e)

both : (a b : Bool) → a && b ≡ true → (a ≡ true) × (b ≡ true)
both true b e = (refl, e)
both false b e = absurd (cc e)

is_plain_lem : (suffixes : List Suffix) → is_plain suffixes ≡ true → suffixes ≡ []
is_plain_lem [] e = refl
is_plain_lem (suffix ∷ suffixes) e = absurd (cc e)

matches_reader-IsServerStreaming :
    (c : Template) (m : Method) → matches_reader c m ≡ true → IsServerStreaming m
unfolding matches_reader
matches_reader-IsServerStreaming c m e = elim (Bool-cases (is_reader c m.result)) [
  | inr f ↦ absurd (cc (rw f at e))
  | inl f ↦
      let (either, (response, p)) = is_reader_lem c m.result f in
      let (taken, plain) = both (takes_request m.parameters) (is_plain m.suffixes) (rw f at e) in
      let (request, q) = takes_request_lem m.parameters taken in
      let r = is_plain_lem m.suffixes plain in
      (c, response, request, either, λ i. record { result = p i; parameters = q i; suffixes = r i })
]

matches_writer-IsClientStreaming : (m : Method) → matches_writer m ≡ true → IsClientStreaming m
unfolding matches_writer
matches_writer-IsClientStreaming m e = elim (Bool-cases (is_writer m.result)) [
  | inr f ↦ absurd (cc (rw f at e))
  | inl f ↦
      let (writer, request, p) = is_writer_lem m.result f in
      let (taken, plain) = both (takes_response m.parameters) (is_plain m.suffixes) (rw f at e) in
      let (response, q) = takes_response_lem m.parameters taken in
      let r = is_plain_lem m.suffixes plain in
      (writer, request, response, λ i. record { result = p i; parameters = q i; suffixes = r i })
]

rpc_type-server : (m : Method) → IsServerStreaming m → rpc_type m ≡ some 2
unfolding rpc_type matching matches_reader matches_writer
rpc_type-server m (c, response, request, (inl e), f) = rw (f, e) refl
rpc_type-server m (c, response, request, (inr e), f) = rw (f, e) refl

rpc_type-client : (m : Method) → IsClientStreaming m → rpc_type m ≡ some 3
unfolding rpc_type matching matches_reader matches_writer
rpc_type-client m (client_async_reader, request, response, f) = rw f refl
rpc_type-client m (client_async_reader_interface, request, response, f) = rw f refl
rpc_type-client m (std_unique_ptr, request, response, f) = rw f refl
rpc_type-client m (other_template n, request, response, f) = rw f refl

-- The value of `RPC_TYPE` by the kind of the method.
abbrev pub RpcKind : Method → ℕ → Type 0
RpcKind m value =
    ((value ≡ 2) × IsServerStreaming m)
    ⊎ (((value ≡ 3) × IsClientStreaming m)
        ⊎ ((value ≡ 1) × (¬ IsServerStreaming m) × (¬ IsClientStreaming m)))

-- For each type of a method, at most one specialization matches: `RPC_TYPE` is well-formed. It is 2
-- for the methods of server streaming, by the reader or its interface, 3 for those of client
-- streaming, and 1 for all others.
pub rpc_type-RpcKind : (m : Method) → (value : ℕ) × (rpc_type m ≡ some value) × RpcKind m value
unfolding rpc_type matching
rpc_type-RpcKind m = elim (Bool-cases (matches_reader client_async_reader m)) [
  | inl e ↦ server (matches_reader-IsServerStreaming client_async_reader m e)
  | inr e ↦ elim (Bool-cases (matches_reader client_async_reader_interface m)) [
    | inl f ↦ server (matches_reader-IsServerStreaming client_async_reader_interface m f)
    | inr f ↦ elim (Bool-cases (matches_writer m)) [
      | inl g ↦ client (matches_writer-IsClientStreaming m g)
      | inr g ↦
          let one : rpc_type m ≡ some 1 = rw (e, f, g) refl in
          (
            1,
            one,
            inr (
                inr (
                  refl,
                  (λ s. cc (one, rpc_type-server m s)),
                  (λ s. cc (one, rpc_type-client m s)),
                )),
          )
    ]
  ]
]
  where
    server : IsServerStreaming m → (value : ℕ) × (rpc_type m ≡ some value) × RpcKind m value
    server s = (2, rpc_type-server m s, inl (refl, s))

    client : IsClientStreaming m → (value : ℕ) × (rpc_type m ≡ some value) × RpcKind m value
    client s = (3, rpc_type-client m s, inr (inl (refl, s)))
