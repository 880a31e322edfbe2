-- ===== src/ClientRpc/Tests.antt =====
-- The method of `Stub` in src/client_rpc_intellisense.cpp, and others.
use vcpkg_test.Prelude.{ℕ, ◌≡◌, refl, some, [], ◌∷◌}
use vcpkg_test.ClientRpc.{
  Method, client_async_reader, std_unique_ptr, other_template, named, applied, const_ref, pointer,
  void_type, k_const, rpc_type, matching, matches_reader, matches_writer,
}
use vcpkg_test.ClientRpc.Unambiguous.{RpcKind, rpc_type-RpcKind}

-- `double` is type 0 and `int` type 1.
abbrev prepare_async_server_streaming : Method
prepare_async_server_streaming = record {
  result = applied std_unique_ptr (applied client_async_reader (named 1));
  parameters = const_ref (named 0) ∷ pointer void_type ∷ [];
  suffixes = [];
}

stub_method : rpc_type prepare_async_server_streaming ≡ some 2
unfolding rpc_type matching matches_reader matches_writer
stub_method = refl

writer_method :
    rpc_type (record {
      result = applied std_unique_ptr (applied (other_template 0) (named 0));
      parameters = pointer (named 1) ∷ [];
      suffixes = [];
    })
    ≡ some 3
unfolding rpc_type matching matches_reader matches_writer
writer_method = refl

-- `Writer` may be `std::unique_ptr`.
unique_ptr_as_writer :
    rpc_type (record {
      result = applied std_unique_ptr (applied std_unique_ptr (named 1));
      parameters = pointer (named 0) ∷ [];
      suffixes = [];
    })
    ≡ some 3
unfolding rpc_type matching matches_reader matches_writer
unique_ptr_as_writer = refl

const_method :
    rpc_type (record {
      result = applied std_unique_ptr (applied client_async_reader (named 1));
      parameters = const_ref (named 0) ∷ pointer void_type ∷ [];
      suffixes = k_const ∷ [];
    })
    ≡ some 1
unfolding rpc_type matching matches_reader matches_writer
const_method = refl

rpc_type-RpcKind_example :
    (value : ℕ) × (rpc_type prepare_async_server_streaming ≡ some value)
    × RpcKind prepare_async_server_streaming value
rpc_type-RpcKind_example = rpc_type-RpcKind prepare_async_server_streaming
