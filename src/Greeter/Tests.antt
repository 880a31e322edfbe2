-- ===== src/Greeter/Tests.antt =====
-- The greeter on concrete transports.
use vcpkg_test.Prelude.{
  drop, false, ℕ, ◌≡◌, ◌⊎◌, refl, ap, List, [], ◌∷◌, ◌++◌, some, Bytes, codes, ℤ, Option, none, pos,
  negsuc, take, length, arith,
}
use vcpkg_test.Servers.{serving, not_a_count}
use vcpkg_test.Greeter.{
  Event, Transport, Act, client_main, Delivers, ok, failed, finish_with, write, finish, call_back,
  report, rpc_failed, writes, serve_many_hellos, write_greetings, say_many_hellos, say_hello,
  hear_hello, hear_many_hellos, serve_hello, hello_result, read_replies, finish_stream, main,
}
use vcpkg_test.Greeter.Hellos.{Greeted, say_many_hellos-Greeted, client_main-Greeted}
use vcpkg_test.Greeter.Serving.{
  hello, many_hellos, Completion, accepted, write_done, finish_done, write_next, resume_rpc,
  serve_rpcs,
}
use vcpkg_test.Greeter.Interleaved.{handler, Heard, serve_rpcs-Heard}
use vcpkg_test.Interleaving.{of_client, run_context}
use vcpkg_test.Greeter.Startup.{set_up, own_threads, main-client_main}

-- The reply of a unary call.
abbrev reply_of : List Event → Bytes
reply_of (finish_with reply status ∷ events) = reply
reply_of _ = []

-- Nothing is lost.
abbrev lossless : Transport
lossless = record {
  unary = λ events. (ok, reply_of events);
  stream = λ events. (writes events, ok);
}

take_all : (xs : List Bytes) → xs ≡ take (length xs) xs
take_all [] = refl
take_all (x ∷ xs) = ap (◌∷◌ x) (take_all xs)

lossless-Delivers : Delivers lossless
lossless-Delivers = record {
  reply_kept = λ reply e. refl;
  in_order = λ events. (length (writes events), take_all (writes events));
  complete = λ events e. refl;
}

-- The connection breaks behind two messages (14 is UNAVAILABLE).
abbrev breaking : Transport
breaking = record {
  unary = λ events. (failed 14 (codes "down"), []);
  stream = λ events. (take 2 (writes events), failed 14 (codes "down"));
}

failed_ne_ok : (code : ℕ) (message : Bytes) → ¬ (failed code message ≡ ok)
failed_ne_ok code message e = cc e

breaking-Delivers : Delivers breaking
breaking-Delivers = record {
  reply_kept = λ reply e. absurd (failed_ne_ok 14 (codes "down") e);
  in_order = λ events. (2, refl);
  complete = λ events e. absurd (failed_ne_ok 14 (codes "down") e);
}

hello_world : say_hello lossless (codes "world") ≡ ([], codes "Hello, world")
unfolding say_hello hear_hello serve_hello hello_result
hello_world = refl

two_of_three :
    say_many_hellos breaking (codes "world") (pos 3)
    ≡ call_back (codes "Many hellos, world")
      ∷ call_back (codes "Many hellos, world")
      ∷ report 14 (codes "down")
      ∷ call_back rpc_failed
      ∷ []
unfolding say_many_hellos hear_many_hellos serve_many_hellos write_greetings read_replies
    finish_stream
two_of_three = refl

none_for_negative : say_many_hellos lossless (codes "world") (negsuc 4) ≡ []
unfolding say_many_hellos hear_many_hellos serve_many_hellos write_greetings read_replies
    finish_stream
none_for_negative = refl

say_many_hellos-Greeted_example :
    Greeted (codes "world") 10 (say_many_hellos breaking (codes "world") (pos 10))
say_many_hellos-Greeted_example =
    say_many_hellos-Greeted breaking breaking-Delivers (codes "world") (pos 10)

abbrev always_three : Bytes → Option ℤ
always_three text = some (pos 3)

main-client_main_example :
    main lossless always_three (codes "server" ∷ codes "3" ∷ []) (2 ∷ 0 ∷ 1 ∷ [])
    ≡ serving (set_up 3) (own_threads (2 ∷ 0 ∷ 1 ∷ []), client_main lossless)
main-client_main_example =
    main-client_main lossless always_three (codes "server" ∷ codes "3" ∷ []) 3 (2 ∷ 0 ∷ 1 ∷ []) refl
      (refl, (refl, (refl, tt))) (omega arith, (omega arith, (omega arith, tt)))

-- `std::stoi` throws.
not_a_number : main lossless (λ text. none) (codes "server" ∷ codes "x" ∷ []) [] ≡ not_a_count
unfolding main
not_a_number = refl

-- One client asks for two greetings while another one says hello; the first write fails.
abbrev schedule : List (ℕ × Completion)
schedule =
    (0, accepted (many_hellos (codes "a") (pos 2)))
    ∷ (1, accepted (hello (codes "b")))
    ∷ (0, write_done false)
    ∷ (1, finish_done)
    ∷ (0, write_done false)
    ∷ (0, finish_done)
    ∷ []

goes_on :
    serve_rpcs schedule
    ≡ (0, write (codes "Many hellos, a"))
      ∷ (1, finish_with (codes "Hello, b") ok)
      ∷ (0, write (codes "Many hellos, a"))
      ∷ (0, finish ok)
      ∷ []
unfolding serve_rpcs run_context resume_rpc write_next serve_hello
goes_on = refl

serve_rpcs-Heard_example :
    (rest : List Event) × (of_client 0 (serve_rpcs (take 3 schedule)) ++ rest
      ≡ handler (many_hellos (codes "a") (pos 2)))
    × (of_client 0 (serve_rpcs (take 3 schedule ++ drop 3 schedule))
        ≡ handler (many_hellos (codes "a") (pos 2)))
    × Heard breaking
        (many_hellos (codes "a") (pos 2))
        (of_client 0 (serve_rpcs (take 3 schedule ++ drop 3 schedule)))
serve_rpcs-Heard_example =
    serve_rpcs-Heard breaking breaking-Delivers 0 (many_hellos (codes "a") (pos 2))
      (false ∷ false ∷ []) (take 3 schedule) (drop 3 schedule) refl refl

client_main-Greeted_example :
    (hello many : List Act) × (client_main breaking ≡ hello ++ many)
    × ((hello ≡ call_back (codes "Hello, world") ∷ [])
        ⊎ ((code : ℕ) × (message : Bytes) × (hello
              ≡ report code message ∷ call_back rpc_failed ∷ [])))
    × Greeted (codes "world") 10 many
client_main-Greeted_example = client_main-Greeted breaking breaking-Delivers
