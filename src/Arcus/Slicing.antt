-- ===== src/Arcus/Slicing.antt =====
-- What `handleMessage` stores and sends.
use vcpkg_test.Prelude.{
  sym, ℕ, zero, suc, ◌%◌, ◌≡◌, ◌∙◌, refl, List, [], ◌∷◌, ◌++◌, map, Bytes, arith, length,
  append-nil, append_assoc,
}
use vcpkg_test.Arcus.{
  Object, Polygon, SlicedObject, Outgoing, FloatOps, inner_type, outer_type, object_list,
  progress_update, sliced_object_list, push_objects, add_polygons, slice, handle_message,
}

push_objects-append : (descs objects : List Object) → push_objects descs objects ≡ objects ++ descs
unfolding push_objects
push_objects-append [] objects = sym (append-nil objects)
push_objects-append (desc ∷ descs) objects =
    push_objects-append descs (objects ++ desc ∷ []) ∙ append_assoc objects (desc ∷ []) descs

-- `n` pairs of an inner and an outer polygon.
abbrev polygon_pairs : ℕ → Bytes → List Polygon
polygon_pairs zero vertices = []
polygon_pairs (suc n) vertices =
    record { type = inner_type; points = vertices }
    ∷ record { type = outer_type; points = vertices }
    ∷ polygon_pairs n vertices

abbrev double : ℕ → ℕ
double zero = zero
double (suc n) = suc (suc (double n))

add_polygons-even :
    (left i : ℕ) (vertices : Bytes) (polygons : List Polygon)
    → i % 2 ≡ 0
    → add_polygons (suc left) i vertices polygons
      ≡ add_polygons left
          (suc i)
          vertices
          (polygons ++ (record { type = inner_type; points = vertices }) ∷ [])
unfolding add_polygons
add_polygons-even left i vertices polygons e = rw (e, add_polygons) refl

add_polygons-odd :
    (left i : ℕ) (vertices : Bytes) (polygons : List Polygon)
    → i % 2 ≡ 1
    → add_polygons (suc left) i vertices polygons
      ≡ add_polygons left
          (suc i)
          vertices
          (polygons ++ (record { type = outer_type; points = vertices }) ∷ [])
unfolding add_polygons
add_polygons-odd left i vertices polygons e = rw (e, add_polygons) refl

add_polygons-pairs :
    (n i : ℕ) (vertices : Bytes) (polygons : List Polygon)
    → i % 2 ≡ 0
    → add_polygons (double n) i vertices polygons ≡ polygons ++ polygon_pairs n vertices
unfolding add_polygons
add_polygons-pairs zero i vertices polygons e = sym (append-nil polygons)
add_polygons-pairs (suc n) i vertices polygons e =
    add_polygons-even (suc (double n)) i vertices polygons e
    ∙ add_polygons-odd (double n) (suc i) vertices _ (omega arith)
    ∙ add_polygons-pairs n (suc (suc i)) vertices _ (omega arith)
    ∙ append_assoc (polygons ++ (record { type = inner_type; points = vertices }) ∷ [])
        ((record { type = outer_type; points = vertices }) ∷ []) (polygon_pairs n vertices)
    ∙ append_assoc polygons ((record { type = inner_type; points = vertices }) ∷ [])
        ((record { type = outer_type; points = vertices }) ∷ polygon_pairs n vertices)

-- Each object becomes 500 such pairs over its vertices, under its id.
abbrev pub sliced : Object → SlicedObject
sliced object = record { id = object.id; polygons = polygon_pairs 500 object.vertices }

module _ {F : Type 0} (ops : FloatOps F) where
  -- The objects done, divided by all objects and as a percentage, which loses its fraction.
  abbrev pub percentage : ℕ → ℕ → ℕ
  percentage done all =
      let share : F = ops.divide (ops.from_int done) (ops.from_int all) in
      ops.to_int (ops.multiply share (ops.from_int 100))

  -- One update for each object, with the share of the objects done, itself among them.
  abbrev pub updates : ℕ → ℕ → List Object → List Outgoing
  updates size progress [] = []
  updates size progress (object ∷ objects) =
      progress_update object.id (percentage (suc progress) size)
      ∷ updates size (suc progress) objects

  slice_lem :
      (size progress : ℕ) (objects : List Object) (msg : List SlicedObject)
      → slice ops size progress objects msg
        ≡ (msg ++ map sliced objects, updates size progress objects)
  unfolding slice
  slice_lem size progress [] msg = λ i. (sym (append-nil msg) i, [])
  slice_lem size progress (object ∷ objects) msg =
      let pairs : add_polygons 1000 0 object.vertices [] ≡ polygon_pairs 500 object.vertices =
        add_polygons-pairs 500 0 object.vertices [] refl in
      rw (pairs, slice_lem size (suc progress) objects (msg ++ sliced object ∷ []))
        (λ i. (
          append_assoc msg (sliced object ∷ []) (map sliced objects) i,
          progress_update object.id (percentage (suc progress) size)
              ∷ updates size (suc progress) objects,
        ))

  -- An object list replaces the stored objects by its own, in order; the program sends an update
  -- for each of them, with the percentage of the objects done, itself among them, and behind these
  -- one list in which each object has, under its id, 500 pairs of an inner and an outer polygon
  -- over its vertices.
  pub handle_message-object_list :
      (descs old : List Object)
      → handle_message ops (object_list descs) old
        ≡ (descs, updates (length descs) 0 descs ++ sliced_object_list (map sliced descs) ∷ [])
  unfolding handle_message
  handle_message-object_list descs old =
      rw (push_objects-append descs [], slice_lem (length descs) 0 descs [])
