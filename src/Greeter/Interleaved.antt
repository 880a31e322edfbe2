-- ===== src/Greeter/Interleaved.antt =====
-- What a client hears from a thread of src/asio-grpc/main2.cpp that serves other RPCs as well.
use vcpkg_test.Prelude.{
  ℕ, zero, suc, ◌≡◌, ◌∙◌, refl, ap, Bool, List, [], ◌∷◌, ◌++◌, map, Bytes, codes, length, arith,
}
use vcpkg_test.Interleaving.{of_client, alone, run_context-alone, run_context-append}
use vcpkg_test.Greeter.{
  Event, Transport, Delivers, write, finish, ok, serve_hello, serve_many_hellos, write_greetings,
  rounds, hear_hello, hear_many_hellos,
}
use vcpkg_test.Greeter.Hellos.{Greeted, HelloHeard, hear_hello_lem, hear_many_hellos-Greeted}
use vcpkg_test.Greeter.Serving.{
  Request, hello, many_hellos, Completion, accepted, write_done, finish_done, waiting, write_next,
  resume_rpc, serve_rpcs,
}

-- How many writes wait for a completion.
abbrev pub writes_of : Request → ℕ
writes_of (hello name) = 0
writes_of (many_hellos name num_greetings) = rounds num_greetings

-- The completions of an RPC, with the success of each write.
abbrev pub completions : Request → List Bool → List Completion
completions request results = accepted request ∷ (map write_done results ++ finish_done ∷ [])

-- The handler that has the thread for itself.
abbrev pub handler : Request → List Event
handler (hello name) = serve_hello name
handler (many_hellos name num_greetings) = serve_many_hellos name num_greetings

-- What the client makes of the handler's events.
abbrev pub Heard : Transport → Request → List Event → Type 0
Heard transport (hello name) events = HelloHeard name (hear_hello transport events)
Heard transport (many_hellos name num_greetings) events =
    Greeted name (rounds num_greetings) (hear_many_hellos transport events)

write_next_lem :
    (left : ℕ) (name : Bytes) (results : List Bool)
    → length results ≡ left
    → (write_next left name).0
        ++ alone resume_rpc (write_next left name).1 (map write_done results ++ finish_done ∷ [])
      ≡ write_greetings left name ++ finish ok ∷ []
unfolding write_next alone resume_rpc write_greetings
write_next_lem zero name [] e = refl
write_next_lem zero name (result ∷ results) e = absurd (omega arith)
write_next_lem (suc left) name [] e = absurd (omega arith)
write_next_lem (suc left) name (result ∷ results) e =
    ap (◌∷◌ (write (codes "Many hellos, " ++ name)))
      (write_next_lem left name results (omega arith))

alone-handler :
    (request : Request) (results : List Bool)
    → length results ≡ writes_of request
    → alone resume_rpc waiting (completions request results) ≡ handler request
unfolding alone resume_rpc serve_hello serve_many_hellos
alone-handler (hello name) [] e = refl
alone-handler (hello name) (result ∷ results) e = absurd (omega arith)
alone-handler (many_hellos name num_greetings) results e =
    write_next_lem (rounds num_greetings) name results e

handler-Heard :
    (transport : Transport)
    → Delivers transport
    → (request : Request) → Heard transport request (handler request)
handler-Heard transport delivers (hello name) = hear_hello_lem transport delivers name
handler-Heard transport delivers (many_hellos name num_greetings) =
    hear_many_hellos-Greeted transport delivers name num_greetings

-- Let the completions of any number of RPCs arrive at a thread in any order, and let those of one
-- RPC be its request, a result for each of its writes, whatever it is, and the end of `finish`. The
-- thread does for this RPC what the handler does that has it for itself: a write that fails stops
-- no further ones. While `more` completions are still to come, it has done the first part of that.
-- Over a transport that delivers, the client of `SayHello` hears the greeting, or reports and hears
-- "RPC failed"; that of `SayManyHellos` hears each greeting, or fewer and then, behind a report,
-- "RPC failed".
pub serve_rpcs-Heard :
    (transport : Transport)
    → Delivers transport
    → (rpc : ℕ) (request : Request) (results : List Bool) (schedule more : List (ℕ × Completion))
    → length results ≡ writes_of request
    → of_client rpc (schedule ++ more) ≡ completions request results
    → (rest : List Event) × (of_client rpc (serve_rpcs schedule) ++ rest ≡ handler request)
      × (of_client rpc (serve_rpcs (schedule ++ more)) ≡ handler request)
      × Heard transport request (of_client rpc (serve_rpcs (schedule ++ more)))
unfolding serve_rpcs
serve_rpcs-Heard transport delivers rpc request results schedule more counted e =
    let (rest, first) = run_context-append resume_rpc rpc (λ other. waiting) schedule more in
    let served : of_client rpc (serve_rpcs (schedule ++ more)) ≡ handler request =
      run_context-alone resume_rpc rpc (λ other. waiting) (schedule ++ more)
      ∙ ap (alone resume_rpc waiting) e
      ∙ alone-handler request results counted in
    (rest, first ∙ served, served, rw served (handler-Heard transport delivers request))
