-- ===== src/DataProvider.antt =====
-- The handler of src/asio-grpc/dataProvider.cpp: an echo over a bidirectional stream.
pub mod Coroutines
pub mod Interleaved
mod Tests
use vcpkg_test.Prelude.{
  ◌≡◌, refl, ap, Bool, true, false, List, [], ◌∷◌, ◌++◌, map, Bytes, if◌then◌else◌,
}

pub record Request : Type 0 where
  pub id : Bytes
  pub input : Bytes

-- `ole::v1::Data`; one object serves all rounds.
pub record Data : Type 0 where
  pub id : Bytes
  pub payload : Bytes

abbrev pub empty_data : Data
empty_data = record { id = []; payload = [] }

-- What the peer sees of the handler: the writes, and the call of `finish` with status OK.
pub data Event : Type 0 where
  write : Data → Event
  finish : Event

-- The rounds of the stream: a request that `read` yields, and whether the write that answers it
-- succeeds. Behind the last one `read` yields no request.
abbrev pub Stream : Type 0
Stream = List (Request × Bool)

-- `data.set_id(request.id()); data.set_data(request.input());`
abbrev pub answer : Request → Data → Data
answer request last = record (record last { id = request.id }) { payload = request.input }

-- `while (write_ok && co_await read(reader_writer, request))`, and the call of `finish` behind it.
unfoldable pub serve : Bool → Data → Stream → List Event
serve write_ok last [] = finish ∷ []
serve write_ok last ((request, ok) ∷ rounds) =
    let reply = answer request last in
    let more = serve ok reply rounds in if write_ok then write reply ∷ more else finish ∷ []

unfoldable pub handle : Stream → List Event
unfolding serve
handle rounds = serve true empty_data rounds

-- The requests up to the first one whose answer could not be written.
abbrev pub answered : Stream → List Request
answered [] = []
answered ((request, true) ∷ rounds) = request ∷ answered rounds
answered ((request, false) ∷ rounds) = request ∷ []

abbrev pub echo : Request → Data
echo request = record { id = request.id; payload = request.input }

serve_echoes :
    (last : Data) (rounds : Stream)
    → serve true last rounds ≡ map (λ r. write (echo r)) (answered rounds) ++ finish ∷ []
unfolding serve
serve_echoes last [] = refl
serve_echoes last ((request, true) ∷ rounds) =
    ap (λ es. write (echo request) ∷ es) (serve_echoes (echo request) rounds)
serve_echoes last ((request, false) ∷ []) = refl
serve_echoes last ((request, false) ∷ round ∷ rounds) = refl

-- Over any stream, the handler answers each request by its own id and input, in order, up to and
-- with the first write that fails; then, and in any case, it calls `finish` once and does nothing
-- more.
pub handle-echo :
    (rounds : Stream) → handle rounds ≡ map (λ r. write (echo r)) (answered rounds) ++ finish ∷ []
unfolding handle
handle-echo rounds = serve_echoes empty_data rounds
