-- ===== src/DataProvider/Interleaved.antt =====
-- What one client of src/asio-grpc/dataProvider.cpp sees while others are served.
use vcpkg_test.Prelude.{
  Bytes, ℕ, ◌≡◌, refl, ap, ◌∙◌, true, false, none, some, List, [], ◌∷◌, ◌++◌, map,
}
use vcpkg_test.Interleaving.{of_client, alone, run_context-alone, run_context-append}
use vcpkg_test.DataProvider.{
  Event, Data, write, finish, Stream, empty_data, answer, serve, handle, answered, echo,
  handle-echo,
}
use vcpkg_test.DataProvider.Coroutines.{
  Completion, reading, read_done, write_done, finish_done, resume, run_data_provider,
}

-- The completions that a stream leads to.
abbrev pub completions : Stream → List Completion
completions [] = read_done none ∷ finish_done ∷ []
completions ((request, true) ∷ rounds) =
    read_done (some request) ∷ write_done true ∷ completions rounds
completions ((request, false) ∷ rounds) =
    read_done (some request) ∷ write_done false ∷ finish_done ∷ []

alone-serve :
    (last : Data) (rounds : Stream)
    → alone resume (reading last) (completions rounds) ≡ serve true last rounds
unfolding alone serve resume
alone-serve last [] = refl
alone-serve last ((request, true) ∷ rounds) =
    ap (◌∷◌ (write (answer request last))) (alone-serve (answer request last) rounds)
alone-serve last ((request, false) ∷ []) = refl
alone-serve last ((request, false) ∷ round ∷ rounds) = refl

-- Let the completions of any number of clients arrive in any order, those of one client as a stream
-- leads to them. That client sees what the handler does on this stream when it has the thread for
-- itself, which is to answer each request by its own id and input, up to and with the first write
-- that fails, and then to finish once. While `more` completions are still to come, it has seen the
-- first part of that.
pub run_data_provider-handle :
    (host : Bytes) (client : ℕ) (rounds : Stream) (schedule more : List (ℕ × Completion))
    → of_client client (schedule ++ more) ≡ completions rounds
    → (rest : List Event) × (of_client client (run_data_provider host schedule).1 ++ rest
        ≡ handle rounds)
      × (of_client client (run_data_provider host (schedule ++ more)).1 ≡ handle rounds)
      × (handle rounds ≡ map (λ r. write (echo r)) (answered rounds) ++ finish ∷ [])
unfolding run_data_provider handle
run_data_provider-handle host client rounds schedule more e =
    let (rest, first) =
      run_context-append resume client (λ other. reading empty_data) schedule more in
    let whole =
      run_context-alone resume client (λ other. reading empty_data) (schedule ++ more)
      ∙ ap (alone resume (reading empty_data)) e
      ∙ alone-serve empty_data rounds in
    (rest, first ∙ whole, whole, handle-echo rounds)
