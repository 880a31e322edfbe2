-- ===== src/Echo/Calls.antt =====
-- The client of src/brpc/client.cpp together with the service of src/brpc/server.cpp.
use vcpkg_test.Prelude.{
  ℕ, zero, suc, ◌+◌, ◌^◌, ◌<◌, ◌≡◌, refl, Bool, true, false, Option, none, some, List, [], ◌∷◌,
  ◌++◌, Bytes, codes, ◌⊎◌, inl, inr, pos, negsuc, arith, lt→ltb,
}
use vcpkg_test.Echo.{
  Packet, echo, empty_packet, Line, received, warning, quitting, no_channel, hello_request,
  log_line, increment_int, client_loop, client_main,
}

increment_int_lem : (n : ℕ) → n + 1 < 2 ^ 31 → increment_int n ≡ some (n + 1)
unfolding increment_int
increment_int_lem n lt = rw (lt→ltb (n + 1) (2 ^ 31) lt) refl

-- The service behind a network in which the call of a log id either fails with a text or gets
-- through.
abbrev pub through : (ℕ → Option Bytes) → Bool → ℕ → Packet → Packet ⊎ Bytes
through fails echo_attachment log_id request = elim (fails log_id) [
  | none ↦ inl (echo echo_attachment request empty_packet)
  | some error_text ↦ inr error_text
]

-- `n` rounds before the user asks to quit.
abbrev pub asked_after : ℕ → List Bool
asked_after zero = true ∷ []
asked_after (suc n) = false ∷ asked_after n

-- The line that a round should log.
abbrev expected_line : Bool → Bytes → Option Bytes → Line
expected_line true attachment none =
    received (record { message = codes "hello world"; attachment = attachment })
expected_line false attachment none =
    received (record { message = codes "hello world"; attachment = [] })
expected_line flag attachment (some error_text) = warning error_text

abbrev pub expected_lines : (ℕ → Option Bytes) → Bool → Bytes → ℕ → ℕ → List Line
expected_lines fails flag attachment zero log_id = quitting ∷ []
expected_lines fails flag attachment (suc n) log_id =
    expected_line flag attachment (fails log_id)
    ∷ expected_lines fails flag attachment n (log_id + 1)

line_lem :
    (flag : Bool) (attachment : Bytes) (failure : Option Bytes) (fails : ℕ → Option Bytes)
    (log_id : ℕ)
    → fails log_id ≡ failure
    → log_line (through fails flag log_id (hello_request attachment))
      ≡ expected_line flag attachment failure
unfolding log_line echo
line_lem true attachment none fails log_id e = rw (e, log_line) refl
line_lem false attachment none fails log_id e = rw (e, log_line) refl
line_lem true attachment (some error_text) fails log_id e = rw (e, log_line) refl
line_lem false attachment (some error_text) fails log_id e = rw (e, log_line) refl

-- With the service behind a network that may fail for some log ids, and no more rounds than an
-- `int` can count, the client's loop ends when the user asks to quit, and it has logged one line
-- for each round before: the message sent, with the attachment sent if the server's flag is set and
-- an empty one if not, or the error's text; then it says that it quits.
pub client_loop-echo :
    (fails : ℕ → Option Bytes) (flag : Bool) (attachment : Bytes) (n log_id : ℕ)
    → log_id + n < 2 ^ 31
    → client_loop (through fails flag) attachment (asked_after n) log_id
      ≡ some (expected_lines fails flag attachment n log_id)
unfolding client_loop
client_loop-echo fails flag attachment zero log_id lt = refl
client_loop-echo fails flag attachment (suc n) log_id lt =
    rw
      (
        increment_int_lem log_id (omega (arith, lt)),
        client_loop-echo fails flag attachment n (log_id + 1) (omega (arith, lt)),
        line_lem flag attachment (fails log_id) fails log_id refl,
      )
      refl

module _ (call : ℕ → Packet → Packet ⊎ Bytes) (attachment : Bytes) where
  -- The lines of `n` rounds.
  abbrev pub rounds : ℕ → ℕ → List Line
  rounds zero log_id = []
  rounds (suc n) log_id = log_line (call log_id (hello_request attachment)) ∷ rounds n (log_id + 1)

  client_loop-quits :
      (n log_id : ℕ) (later : List Bool)
      → log_id + n < 2 ^ 31
      → client_loop call attachment (asked_after n ++ later) log_id
        ≡ some (rounds n log_id ++ quitting ∷ [])
  unfolding client_loop
  client_loop-quits zero log_id later lt = refl
  client_loop-quits (suc n) log_id later lt =
      rw
        (
          increment_int_lem log_id (omega (arith, lt)),
          client_loop-quits n (log_id + 1) later (omega (arith, lt)),
        )
        refl

  -- Whatever the calls answer, the client ends once the user asks to quit, if fewer than 2^31
  -- rounds come before: with a channel it returns 0, having made one call for each of these rounds,
  -- in the order of the log ids from 0, with one line for each and a last one. Without a channel it
  -- returns -1 and makes no call.
  pub client_main-quits :
      (n : ℕ) (later : List Bool)
      → n < 2 ^ 31
      → (client_main call attachment false (asked_after n ++ later)
          ≡ some (rounds n 0 ++ quitting ∷ [], pos 0))
        × (client_main call attachment true (asked_after n ++ later)
            ≡ some (no_channel ∷ [], negsuc 0))
  unfolding client_main
  client_main-quits n later lt = (rw (client_loop-quits n 0 later (omega (arith, lt))) refl, refl)
