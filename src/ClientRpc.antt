-- ===== src/ClientRpc.antt =====
-- src/client_rpc_intellisense.cpp: the variable template `RPC_TYPE` and its three partial
-- specializations, which tell the kinds of RPC apart by the type of `PrepareAsync`.
pub mod Unambiguous
mod Tests
use vcpkg_test.Prelude.{
  ℕ, Bool, true, false, Option, none, some, List, [], ◌∷◌, if◌then◌else◌, ◌&&◌,
}

-- The class templates that can be applied to one type: the two that the file declares,
-- `std::unique_ptr`, whose second parameter has a default, and all others.
pub data Template : Type 0 where
  client_async_reader client_async_reader_interface std_unique_ptr : Template
  other_template : ℕ → Template

-- The types that a member function can have in its type: `applied c t` is `c<t>`, and `void` and
-- the types with no parts are by name.
pub data CppType : Type 0 where
  void_type : CppType
  named : ℕ → CppType
  applied : Template → CppType → CppType
  const_ref pointer : CppType → CppType

-- What may follow the parameters in the type of a member function: `const`, `volatile`, `&` and
-- `&&`. A `noexcept` is left out: it changes no match.
pub data Suffix : Type 0 where
  k_const k_volatile k_lvalue k_rvalue : Suffix

-- The type of a member function of some `Stub`.
pub record Method : Type 0 where
  pub result : CppType
  pub parameters : List CppType
  pub suffixes : List Suffix

-- `std::unique_ptr<c<Response>>`
abbrev pub is_reader : Template → CppType → Bool
is_reader client_async_reader (applied std_unique_ptr (applied client_async_reader response)) = true
is_reader client_async_reader_interface
      (applied std_unique_ptr (applied client_async_reader_interface response)) =
    true
is_reader c t = false

-- `(const Request&, void*)`
abbrev pub takes_request : List CppType → Bool
takes_request (const_ref request ∷ pointer void_type ∷ []) = true
takes_request parameters = false

-- The types of the specializations are written with nothing behind the parameters, which matches
-- no other type.
abbrev pub is_plain : List Suffix → Bool
is_plain [] = true
is_plain (suffix ∷ suffixes) = false

-- The specializations with `ClientAsyncReader` and with `ClientAsyncReaderInterface`.
unfoldable pub matches_reader : Template → Method → Bool
matches_reader c m =
    if is_reader c m.result then takes_request m.parameters && is_plain m.suffixes else false

-- `std::unique_ptr<Writer<Request>>`; `Writer` is any class template.
abbrev pub is_writer : CppType → Bool
is_writer (applied std_unique_ptr (applied writer request)) = true
is_writer t = false

-- `(Response* cq)`
abbrev pub takes_response : List CppType → Bool
takes_response (pointer response ∷ []) = true
takes_response parameters = false

-- The specialization with `PrepareAsyncClientClientStreamingRequest`.
unfoldable pub matches_writer : Method → Bool
matches_writer m =
    if is_writer m.result then takes_response m.parameters && is_plain m.suffixes else false

-- The values of the specializations that match.
unfoldable pub matching : Method → List ℕ
matching m =
    let third = if matches_writer m then 3 ∷ [] else [] in
    let second = if matches_reader client_async_reader_interface m then 2 ∷ third else third in
    if matches_reader client_async_reader m then 2 ∷ second else second

-- No specialization leaves the primary template, and two of them are ambiguous.
abbrev pub chosen : List ℕ → Option ℕ
chosen [] = some 1
chosen (value ∷ []) = some value
chosen (value ∷ other ∷ values) = none

unfoldable pub rpc_type : Method → Option ℕ
rpc_type m = chosen (matching m)
