-- ===== src/Greeter/Threads.antt =====
-- The hand-over of the completion queues to the threads of `main`.
use vcpkg_test.Prelude.{
  ℕ, zero, suc, ◌+◌, ◌<◌, ◌≡◌, ◌∙◌, refl, sym, ap, false, Option, none, some, List, [], ◌∷◌, ◌++◌,
  map, ◌==◌, append-nil, append_assoc, get_elem?, mem, Distinct, All, arith,
}
use vcpkg_test.Servers.{Queues, add_queues, move_queue}
use vcpkg_test.Greeter.{run_threads}

-- The queues of the numbers from `i` on.
abbrev numbered : ℕ → ℕ → Queues
numbered zero i = []
numbered (suc n) i = some i ∷ numbered n (suc i)

add_queues-numbered : (n i : ℕ) (queues : Queues) → add_queues n i queues ≡ queues ++ numbered n i
unfolding add_queues
add_queues-numbered zero i queues = sym (append-nil queues)
add_queues-numbered (suc n) i queues =
    add_queues-numbered n (suc i) (queues ++ some i ∷ [])
    ∙ append_assoc queues (some i ∷ []) (numbered n (suc i))

get_elem?-numbered : (n i j : ℕ) → j < n → get_elem? (numbered n i) j ≡ some (some (i + j))
get_elem?-numbered zero i j lt = absurd (omega arith)
get_elem?-numbered (suc n) i zero lt = ap (λ k. some (some k)) (omega arith)
get_elem?-numbered (suc n) i (suc j) lt =
    get_elem?-numbered n (suc i) j (omega arith) ∙ ap (λ k. some (some k)) (omega arith)

-- A move takes the queue at its place and leaves the others.
data Moved (queues : Queues) (i : ℕ) (queue : Option ℕ) : Type 0 where
  moved :
      (queues' : Queues)
      → move_queue queues i ≡ some (queue, queues')
      → ((j : ℕ) → (j == i) ≡ false → get_elem? queues' j ≡ get_elem? queues j)
      → Moved queues i queue

move_queue_lem :
    (queues : Queues) (i : ℕ) (queue : Option ℕ)
    → get_elem? queues i ≡ some queue
    → Moved queues i queue
unfolding move_queue
move_queue_lem [] i queue e = cc
move_queue_lem (q ∷ queues) zero queue e =
    moved (none ∷ queues) (λ k. some (opened k, none ∷ queues)) others
  where
    opened : q ≡ queue
    opened = cc

    others : (j : ℕ) → (j == 0) ≡ false → get_elem? (none ∷ queues) j ≡ get_elem? (q ∷ queues) j
    others zero ne = absurd (cc ne)
    others (suc j) ne = refl
move_queue_lem (q ∷ queues) (suc i) queue e = elim (move_queue_lem queues i queue e) [
  | moved queues' taken same ↦ moved (q ∷ queues') (rw (taken, move_queue) refl) (kept queues' same)
]
  where
    kept :
        (queues' : Queues)
        → ((j : ℕ) → (j == i) ≡ false → get_elem? queues' j ≡ get_elem? queues j)
        → (j : ℕ) → (j == suc i) ≡ false
        → get_elem? (q ∷ queues') j ≡ get_elem? (q ∷ queues) j
    kept queues' same zero ne = refl
    kept queues' same (suc j) ne = same j (ground arith)

-- The queues that the later threads move are left by a move for `i`.
still_there :
    (i : ℕ) (queues queues' : Queues) (order : List ℕ)
    → ((j : ℕ) → (j == i) ≡ false → get_elem? queues' j ≡ get_elem? queues j)
    → mem i order ≡ false
    → All (λ j. get_elem? queues j ≡ some (some j)) order
    → All (λ j. get_elem? queues' j ≡ some (some j)) order
still_there i queues queues' [] same new there = tt
still_there i queues queues' (j ∷ order) same new (here, there) =
    (same j (ground arith) ∙ here, still_there i queues queues' order same (ground arith) there)

run_threads_lem :
    (order : List ℕ) (queues : Queues)
    → Distinct order
    → All (λ i. get_elem? queues i ≡ some (some i)) order
    → run_threads order queues ≡ some (map (λ i. (i, some i)) order)
unfolding run_threads
run_threads_lem [] queues distinct there = refl
run_threads_lem (i ∷ order) queues (new, distinct) (here, there) =
    elim (move_queue_lem queues i (some i) here) [
      | moved queues' taken same ↦
          rw
            (
              taken,
              run_threads_lem order queues' distinct
                  (still_there i queues queues' order same new there),
            )
            refl
    ]

made_there :
    (n : ℕ) (order : List ℕ)
    → All (λ i. i < n) order
    → All (λ i. get_elem? (add_queues n 0 []) i ≡ some (some i)) order
made_there n [] below = tt
made_there n (i ∷ order) (lt, below) = (
  ap (λ qs. get_elem? qs i) (add_queues-numbered n 0 [])
      ∙ get_elem?-numbered n 0 i lt
      ∙ ap (λ k. some (some k)) (omega arith),
  made_there n order below,
)

-- `main` makes `n` queues. In whatever order threads with different numbers below `n` begin, no one
-- reads outside of the vector, and the context of each gets the queue of its own number, which is
-- not null.
pub run_threads-own :
    (n : ℕ) (order : List ℕ)
    → Distinct order
    → All (λ i. i < n) order
    → run_threads order (add_queues n 0 []) ≡ some (map (λ i. (i, some i)) order)
run_threads-own n order distinct below =
    run_threads_lem order (add_queues n 0 []) distinct (made_there n order below)
