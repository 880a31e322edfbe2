-- ===== src/DataProvider/Tests.antt =====
-- The echo on concrete streams.
use vcpkg_test.Prelude.{
  take, drop, ℕ, List, none, some, ◌≡◌, refl, true, false, [], ◌∷◌, ◌++◌, map, codes, Bytes,
}
use vcpkg_test.DataProvider.{Event, Request, Stream, handle, write, finish, echo, answered}
use vcpkg_test.DataProvider.Coroutines.{
  Completion, read_done, write_done, finish_done, resume, run_data_provider,
}
use vcpkg_test.Interleaving.{of_client, run_context}
use vcpkg_test.DataProvider.Interleaved.{run_data_provider-handle}

abbrev request : Bytes → Request
request text = record { id = codes "7"; input = text }

abbrev rounds : Stream
rounds =
    (request (codes "a"), true) ∷ (request (codes "b"), false) ∷ (request (codes "c"), true) ∷ []

third_not_read :
    handle rounds
    ≡ write (echo (request (codes "a"))) ∷ write (echo (request (codes "b"))) ∷ finish ∷ []
unfolding handle
third_not_read = refl

-- A second client stops after one answer.
abbrev schedule : List (ℕ × Completion)
schedule =
    (0, read_done (some (request (codes "a"))))
    ∷ (1, read_done (some (request (codes "x"))))
    ∷ (1, write_done true)
    ∷ (0, write_done true)
    ∷ (1, read_done none)
    ∷ (0, read_done (some (request (codes "b"))))
    ∷ (0, write_done false)
    ∷ (1, finish_done)
    ∷ (0, finish_done)
    ∷ []

interleaved :
    (run_data_provider (codes "localhost") schedule).1
    ≡ (0, write (echo (request (codes "a"))))
      ∷ (1, write (echo (request (codes "x"))))
      ∷ (1, finish)
      ∷ (0, write (echo (request (codes "b"))))
      ∷ (0, finish)
      ∷ []
unfolding run_data_provider run_context resume
interleaved = refl

run_data_provider-handle_example :
    (rest : List Event) × (of_client 0 (run_data_provider (codes "localhost") (take 5 schedule)).1
        ++ rest
      ≡ handle rounds)
    × (of_client 0 (run_data_provider (codes "localhost") (take 5 schedule ++ drop 5 schedule)).1
        ≡ handle rounds)
    × (handle rounds ≡ map (λ r. write (echo r)) (answered rounds) ++ finish ∷ [])
run_data_provider-handle_example =
    run_data_provider-handle (codes "localhost") 0 rounds (take 5 schedule) (drop 5 schedule) refl
