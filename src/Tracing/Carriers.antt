-- ===== src/Tracing/Carriers.antt =====
-- The carriers of src/opentelemetry/tracer_common.h: a propagator writes the client's metadata
-- through one and reads the server's through the other.
use vcpkg_test.Prelude.{
  ◌≡◌, ◌∙◌, refl, sym, ap, Bool, true, false, ◌&&◌, Option, none, some, List, [], ◌∷◌, ◌++◌, Bytes,
  ◌==◌, ==_refl, if◌then◌else◌, ◌>>=◌, append_assoc,
}

-- A `string_ref`: its bytes, and what lies behind them in memory.
pub record StringRef : Type 0 where
  pub bytes : Bytes
  pub behind : Bytes

abbrev same_bytes : Bytes → Bytes → Bool
same_bytes [] [] = true
same_bytes [] (d ∷ ds) = false
same_bytes (c ∷ cs) [] = false
same_bytes (c ∷ cs) (d ∷ ds) = (c == d) && same_bytes cs ds

-- The metadata of a `ClientContext`, in the order in which it was added.
abbrev Metadata : Type 0
Metadata = List (Bytes × Bytes)

-- `GrpcClientCarrier::Set`, which calls `AddMetadata`.
unfoldable pub client_set : Bytes → Bytes → Metadata → Metadata
client_set key value metadata = metadata ++ (key, value) ∷ []

-- `GrpcClientCarrier::Get`
unfoldable client_get : Bytes → Metadata → Bytes
client_get key metadata = []

-- `GrpcServerCarrier::Set`
unfoldable server_set : Bytes → Bytes → List (Bytes × StringRef) → List (Bytes × StringRef)
server_set key value metadata = metadata

-- `client_metadata().find(key)`: of several entries with the key, the first.
unfoldable pub find_key : Bytes → List (Bytes × StringRef) → Option StringRef
find_key key [] = none
find_key key ((k, value) ∷ metadata) =
    if same_bytes key k then some value else find_key key metadata

-- The `string_view` of a `const char*`: the bytes up to the first zero. `none` is a read behind all
-- memory that belongs to the program.
unfoldable pub c_string : Bytes → Option Bytes
c_string [] = none
c_string (c ∷ cs) =
    let rest = c_string cs in if c == 0 then some [] else (do r ← rest; some (c ∷ r))

-- `it->second.data()`
abbrev pub view_of : Option StringRef → Option Bytes
view_of none = some []
view_of (some value) = c_string (value.bytes ++ value.behind)

-- `GrpcServerCarrier::Get`
unfoldable pub server_get : Bytes → List (Bytes × StringRef) → Option Bytes
server_get key metadata = view_of (find_key key metadata)

-- What arrives at the server: the keys and values as they were added, each value somewhere in
-- memory.
abbrev pub arrived : (Bytes → Bytes → Bytes) → Metadata → List (Bytes × StringRef)
arrived behind [] = []
arrived behind ((key, value) ∷ metadata) =
    (key, record { bytes = value; behind = behind key value }) ∷ arrived behind metadata

-- A key that was not added yet.
abbrev HasNo : Bytes → Metadata → Type 0
HasNo key [] = Unit
HasNo key ((k, value) ∷ metadata) = (same_bytes key k ≡ false) × HasNo key metadata

abbrev NoZero : Bytes → Type 0
NoZero [] = Unit
NoZero (c ∷ cs) = ((c == 0) ≡ false) × NoZero cs

same_bytes_refl : (key : Bytes) → same_bytes key key ≡ true
same_bytes_refl [] = refl
same_bytes_refl (c ∷ cs) = rw (==_refl c) (same_bytes_refl cs)

c_string-append : (xs rest : Bytes) → NoZero xs → c_string (xs ++ 0 ∷ rest) ≡ some xs
unfolding c_string
c_string-append [] rest nz = refl
c_string-append (x ∷ xs) rest (n, nz) = rw (n, c_string-append xs rest nz) refl

NoZero-append : (xs ys : Bytes) → NoZero xs → NoZero ys → NoZero (xs ++ ys)
NoZero-append [] ys hx hy = hy
NoZero-append (x ∷ xs) ys (h, hx) hy = (h, NoZero-append xs ys hx hy)

find_key-arrived :
    (behind : Bytes → Bytes → Bytes) (key value : Bytes) (metadata : Metadata) (later : Metadata)
    → HasNo key metadata
    → find_key key (arrived behind (metadata ++ (key, value) ∷ later))
      ≡ some (record { bytes = value; behind = behind key value })
unfolding find_key
find_key-arrived behind key value [] later fresh = rw (same_bytes_refl key) refl
find_key-arrived behind key value ((k, v) ∷ metadata) later (n, fresh) =
    rw n (find_key-arrived behind key value metadata later fresh)

-- For a key that was not added before, and a value with no zero byte: what the server's carrier
-- reads is the value that the client's carrier set, and behind it all bytes that follow in memory
-- up to the first zero. So it is the value if a zero byte follows.
pub server_get-client_set :
    (behind : Bytes → Bytes → Bytes) (key value : Bytes) (metadata : Metadata) (more rest : Bytes)
    → HasNo key metadata
    → NoZero value
    → NoZero more
    → behind key value ≡ more ++ 0 ∷ rest
    → server_get key (arrived behind (client_set key value metadata)) ≡ some (value ++ more)
unfolding server_get client_set
server_get-client_set behind key value metadata more rest fresh nz nz' e =
    rw (find_key-arrived behind key value metadata [] fresh, e)
      (ap c_string (sym (append_assoc value more (0 ∷ rest)))
        ∙ c_string-append (value ++ more) rest (NoZero-append value more nz nz'))
