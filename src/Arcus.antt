-- ===== src/Arcus.antt =====
-- src/arcus/example.cpp: `handleMessage` and the loop of `main` over an Arcus socket. The type `F`
-- of floats and its operations are parameters, and so is what the socket yields.
pub mod Slicing
pub mod Loop
pub mod Ending
mod Tests
use vcpkg_test.Prelude.{
  ℕ, zero, suc, ◌+◌, ◌%◌, Bool, true, false, Option, none, some, List, [], ◌∷◌, ◌++◌, Bytes, ◌==◌,
  if◌then◌else◌, ◌>>=◌, length,
}

-- `Object`, and the message `Example::Object`, which has the same fields.
pub record Object : Type 0 where
  pub id : ℕ
  pub vertices : Bytes
  pub normals : Bytes
  pub indices : Bytes

pub data PolygonType : Type 0 where
  inner_type outer_type : PolygonType

pub record Polygon : Type 0 where
  pub type : PolygonType
  pub points : Bytes

pub record SlicedObject : Type 0 where
  pub id : ℕ
  pub polygons : List Polygon

-- A message that the socket yields: an `ObjectList`, or one of another type.
pub data Message : Type 0 where
  object_list : List Object → Message
  other_message : Message

pub record FloatOps (F : Type 0) : Type 0 where
  pub from_int : ℕ → F
  pub divide : F → F → F
  pub multiply : F → F → F
  pub to_int : F → ℕ

-- A message that is sent.
pub data Outgoing : Type 0 where
  progress_update : ℕ → ℕ → Outgoing
  sliced_object_list : List SlicedObject → Outgoing

-- `for(auto objectDesc : objectList->objects()) { …; objects.push_back(obj); }`
unfoldable pub push_objects : List Object → List Object → List Object
push_objects [] objects = objects
push_objects (desc ∷ descs) objects = push_objects descs (
    objects
    ++ (record {
      id = desc.id;
      vertices = desc.vertices;
      normals = desc.normals;
      indices = desc.indices;
    })
      ∷ [])

-- `for(int i = 0; i < 1000; ++i) { … add_polygons … }`: `left` is 1000 - i.
unfoldable pub add_polygons : ℕ → ℕ → Bytes → List Polygon → List Polygon
add_polygons zero i vertices polygons = polygons
add_polygons (suc left) i vertices polygons = add_polygons left (suc i) vertices (
    polygons
    ++ (record { type = if i % 2 == 0 then inner_type else outer_type; points = vertices }) ∷ [])

module _ {F : Type 0} (ops : FloatOps F) where
  -- `(float(++progress) / float(objects.size())) * 100.f`, as the `int32` that `set_amount` takes.
  abbrev pub amount : ℕ → ℕ → ℕ
  amount progress size =
      ops.to_int
        (ops.multiply (ops.divide (ops.from_int progress) (ops.from_int size)) (ops.from_int 100))

  -- The loop over `objects`: the sliced objects of `msg` so far, and what is sent.
  unfoldable pub slice : ℕ → ℕ → List Object → List SlicedObject → List SlicedObject × List Outgoing
  slice size progress [] msg = (msg, [])
  slice size progress (object ∷ objects) msg =
      let sliced : SlicedObject = record {
        id = object.id;
        polygons = add_polygons 1000 0 object.vertices [];
      } in
      let rest = slice size (suc progress) objects (msg ++ sliced ∷ []) in
      (rest.0, progress_update object.id (amount (suc progress) size) ∷ rest.1)

  -- The global `objects` behind the call, and what is sent.
  unfoldable pub handle_message : Message → List Object → List Object × List Outgoing
  handle_message (object_list descs) objects =
      let objects' = push_objects descs [] in
      let rest = slice (length objects') 0 objects' [] in
      (objects', rest.1 ++ sliced_object_list rest.0 ∷ [])
  handle_message other_message objects = (objects, [])

pub data SocketState : Type 0 where
  initial connecting connected opened closing closed error : SocketState

abbrev pub is_connected : SocketState → Bool
is_connected connected = true
is_connected _ = false

abbrev pub is_closed : SocketState → Bool
is_closed closed = true
is_closed _ = false

abbrev pub is_error : SocketState → Bool
is_error error = true
is_error _ = false

-- The answers of the socket, in the order of the calls of `getState`: a state, and the message that
-- `takeNextMessage` would yield behind it.
abbrev pub Polls : Type 0
Polls = List (SocketState × Option Message)

-- `while(socket.getState() != Connected) sleep_for(…);`
unfoldable pub wait_connected : Polls → Option Polls
wait_connected [] = none
wait_connected ((state, _) ∷ polls) =
    let more = wait_connected polls in if is_connected state then some polls else more

module _ {F : Type 0} (ops : FloatOps F) where
  -- A message is handled if there is one.
  abbrev pub handle_next : Option Message → List Object → List Object × List Outgoing
  handle_next none objects = (objects, [])
  handle_next (some message) objects = handle_message ops message objects

  -- `while(true) { … }`; a round calls `getState` once more for each comparison that fails. The
  -- result is `none` if the loop still runs when the answers end.
  unfoldable pub run_loop :
      Polls → List Object → List Outgoing → Option (List Object × List Outgoing)
  run_loop [] objects sent = none
  run_loop (p ∷ []) objects sent = none
  run_loop (p ∷ q ∷ []) objects sent =
      if is_connected p.0 then none else if is_closed q.0 then some (objects, sent) else none
  run_loop (p ∷ q ∷ r ∷ polls) objects sent =
      let handled = handle_next p.1 objects in
      let next = run_loop (q ∷ r ∷ polls) handled.0 (sent ++ handled.1) in
      let again = run_loop polls objects sent in
      if is_connected p.0
      then next
      else if is_closed q.0
      then some (objects, sent)
      else if is_error r.0
      then some (objects, sent)
      else again

  -- `main` behind the call of `connect`: the stored objects and what is sent when the loop ends.
  unfoldable pub main : Polls → Option (List Object × List Outgoing)
  main polls = do polls' ← wait_connected polls; run_loop polls' [] []
