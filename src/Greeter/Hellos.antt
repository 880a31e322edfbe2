-- ===== src/Greeter/Hellos.antt =====
-- What `SayManyHellos` and `SayHello` lead to at the client.
use vcpkg_test.Prelude.{
  ℕ, zero, suc, ◌≡◌, ◌≤◌, ◌∙◌, ◌⊎◌, inl, inr, refl, sym, append_assoc, pos, ap, List, [], ◌∷◌, ◌++◌,
  Bytes, codes, ℤ, replicate, take, append-nil, arith,
}
use vcpkg_test.Greeter.{
  Status, Event, Act, Transport, Delivers, ok, failed, finish, finish_with, call_back, report,
  rpc_failed, rounds, writes, write_greetings, serve_many_hellos, read_replies, finish_stream,
  say_many_hellos, serve_hello, client_main, hello_result, say_hello, hear_hello, hear_many_hellos,
}

abbrev pub greeting : Bytes → Bytes
greeting name = codes "Many hellos, " ++ name

-- Either every greeting, or some of them and then the failure.
pub data Greeted (name : Bytes) (n : ℕ) : List Act → Type 0 where
  all_of_them : Greeted name n (replicate n (call_back (greeting name)))
  broken_off :
      (k code : ℕ) (message : Bytes)
      → k ≤ n
      → Greeted name n (
          replicate k (call_back (greeting name))
          ++ report code message ∷ call_back rpc_failed ∷ [])

writes-write_greetings :
    (n : ℕ) (name : Bytes)
    → writes (write_greetings n name ++ finish ok ∷ []) ≡ replicate n (greeting name)
unfolding write_greetings
writes-write_greetings zero name = refl
writes-write_greetings (suc n) name = ap (◌∷◌ (greeting name)) (writes-write_greetings n name)

read_replies-replicate :
    (n : ℕ) (reply : Bytes) → read_replies (replicate n reply) ≡ replicate n (call_back reply)
unfolding read_replies
read_replies-replicate zero reply = refl
read_replies-replicate (suc n) reply = ap (◌∷◌ (call_back reply)) (read_replies-replicate n reply)

take-replicate :
    (k n : ℕ) (reply : Bytes) → (m : ℕ) × (m ≤ n) × (take k (replicate n reply) ≡ replicate m reply)
take-replicate zero n reply = (0, omega arith, refl)
take-replicate (suc k) zero reply = (0, omega arith, refl)
take-replicate (suc k) (suc n) reply =
    let (m, le, e) = take-replicate k n reply in (suc m, omega arith, ap (◌∷◌ reply) e)

-- Either the greeting, or a report and "RPC failed".
abbrev pub HelloHeard : Bytes → List Act × Bytes → Type 0
HelloHeard name heard =
    (heard ≡ ([], codes "Hello, " ++ name))
    ⊎ ((code : ℕ) × (message : Bytes) × (heard ≡ (report code message ∷ [], rpc_failed)))

answered_lem :
    (name : Bytes) (answered : Status × Bytes)
    → (answered.0 ≡ ok → answered.1 ≡ codes "Hello, " ++ name)
    → HelloHeard name (hello_result answered.0 answered.1)
unfolding hello_result
answered_lem name (ok, reply) kept = inl (λ i. ([], kept refl i))
answered_lem name (failed code message, reply) kept = inr (code, message, refl)

module _ (transport : Transport) (delivers : Delivers transport) where
  received_lem :
      (name : Bytes) (n : ℕ) (replies : List Bytes) (status : Status)
      → ((k : ℕ) × (replies ≡ take k (replicate n (greeting name))))
      → (status ≡ ok → replies ≡ replicate n (greeting name))
      → Greeted name n (read_replies replies ++ finish_stream status)
  unfolding finish_stream
  received_lem name n replies ok prefix complete =
      rw (complete refl, read_replies-replicate n (greeting name), append-nil) all_of_them
  received_lem name n replies (failed code message) (k, e) complete =
      let (m, le, short) = take-replicate k n (greeting name) in
      rw (e, short, read_replies-replicate m (greeting name)) (broken_off m code message le)

  pub hear_many_hellos-Greeted :
      (name : Bytes) (num_greetings : ℤ)
      → Greeted name
          (rounds num_greetings)
          (hear_many_hellos transport (serve_many_hellos name num_greetings))
  unfolding hear_many_hellos serve_many_hellos
  hear_many_hellos-Greeted name num_greetings =
      let n : ℕ = rounds num_greetings in
      let events : List Event = write_greetings n name ++ finish ok ∷ [] in
      let sent : writes events ≡ replicate n (greeting name) = writes-write_greetings n name in
      let (k, prefix) = delivers.in_order events in
      received_lem name n (transport.stream events).0 (transport.stream events).1
        (k, prefix ∙ ap (take k) sent) (λ e. delivers.complete events e ∙ sent)

  -- Over a transport that delivers, the client's callback gets the greeting of the name as often as
  -- asked, never for a negative number, and nothing is reported; or it gets it at most that often,
  -- and behind that the status is reported and the callback gets "RPC failed", once.
  pub say_many_hellos-Greeted :
      (name : Bytes) (num_greetings : ℤ)
      → Greeted name (rounds num_greetings) (say_many_hellos transport name num_greetings)
  unfolding say_many_hellos
  say_many_hellos-Greeted name num_greetings = hear_many_hellos-Greeted name num_greetings

  pub hear_hello_lem : (name : Bytes) → HelloHeard name (hear_hello transport (serve_hello name))
  unfolding hear_hello serve_hello
  hear_hello_lem name =
      answered_lem name (transport.unary (finish_with (codes "Hello, " ++ name) ok ∷ []))
        (delivers.reply_kept (codes "Hello, " ++ name))

  -- Over a transport that delivers, `SayHello` returns the server's greeting and reports nothing,
  -- or it reports the failed status and returns "RPC failed".
  pub say_hello_lem : (name : Bytes) → HelloHeard name (say_hello transport name)
  unfolding say_hello
  say_hello_lem name = hear_hello_lem name

  -- Over a transport that delivers, the client of `client_main` hears "Hello, world" or, behind a
  -- report, "RPC failed"; after that it hears ten times "Many hellos, world", or less often and
  -- then, behind a report, "RPC failed".
  pub client_main-Greeted :
      (hello many : List Act) × (client_main transport ≡ hello ++ many)
      × ((hello ≡ call_back (codes "Hello, world") ∷ [])
          ⊎ ((code : ℕ) × (message : Bytes) × (hello
                ≡ report code message ∷ call_back rpc_failed ∷ [])))
      × Greeted (codes "world") 10 many
  unfolding client_main
  client_main-Greeted =
      let answered = say_hello transport (codes "world") in
      let many = say_many_hellos transport (codes "world") (pos 10) in
      (
        answered.0 ++ call_back answered.1 ∷ [],
        many,
        sym (append_assoc answered.0 (call_back answered.1 ∷ []) many),
        heard answered (say_hello_lem (codes "world")),
        say_many_hellos-Greeted (codes "world") (pos 10),
      )
    where
      heard :
          (answered : List Act × Bytes)
          → (answered ≡ ([], codes "Hello, world"))
            ⊎ ((code : ℕ) × (message : Bytes) × (answered ≡ (report code message ∷ [], rpc_failed)))
          → (answered.0 ++ call_back answered.1 ∷ [] ≡ call_back (codes "Hello, world") ∷ [])
            ⊎ ((code : ℕ) × (message : Bytes) × (answered.0 ++ call_back answered.1 ∷ []
                  ≡ report code message ∷ call_back rpc_failed ∷ []))
      heard answered (inl e) = inl (ap (λ (a : List Act × Bytes). a.0 ++ call_back a.1 ∷ []) e)
      heard answered (inr (code, message, e)) =
          inr (code, message, ap (λ (a : List Act × Bytes). a.0 ++ call_back a.1 ∷ []) e)
