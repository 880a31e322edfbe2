-- ===== src/Echo/Tests.antt =====
-- Two calls to the service, the second of which fails, and starts of the server.
use vcpkg_test.Prelude.{
  ℕ, zero, suc, ◌≡◌, refl, ◌++◌, [], ◌∷◌, Bytes, codes, Option, none, some, true, false, ltb,
  if◌then◌else◌, pos, negsuc, arith, length,
}
use vcpkg_test.Echo.{
  client_loop, client_main, no_channel, quitting, Brpc, server_main, endpoint, invalid_address,
  failed_to_start, ran_on,
}
use vcpkg_test.Echo.Calls.{
  through, asked_after, expected_lines, client_loop-echo, rounds, client_main-quits,
}
use vcpkg_test.Echo.Startup.{Ended, server_main-Ended}

abbrev second_fails : ℕ → Option Bytes
second_fails (suc zero) = some (codes "timeout")
second_fails _ = none

client_loop-echo_example :
    client_loop (through second_fails true) (codes "a") (asked_after 2) 0
    ≡ some (expected_lines second_fails true (codes "a") 2 0)
client_loop-echo_example = client_loop-echo second_fails true (codes "a") 2 0 (omega arith)

client_main-quits_example :
    (client_main (through second_fails true) (codes "a") false (asked_after 2 ++ [])
      ≡ some (rounds (through second_fails true) (codes "a") 2 0 ++ quitting ∷ [], pos 0))
    × (client_main (through second_fails true) (codes "a") true (asked_after 2 ++ [])
        ≡ some (no_channel ∷ [], negsuc 0))
client_main-quits_example =
    client_main-quits (through second_fails true) (codes "a") 2 [] (omega arith)

-- An address is its length here, or a port; the ports below 1024 are taken.
abbrev local : Brpc ℕ
local = record {
  add_service_fails = false;
  str_to_endpoint = λ text. if ltb (length text) 4 then none else some (length text);
  any_address = λ port. port;
  start_fails = λ point. ltb point 1024;
}

on_port : server_main local [] 8000 ≡ ran_on 8000
unfolding server_main endpoint
on_port = refl

taken_port : server_main local [] 80 ≡ failed_to_start
unfolding server_main endpoint
taken_port = refl

bad_address : server_main local (codes "ab") 8000 ≡ invalid_address
unfolding server_main endpoint
bad_address = refl

server_main-Ended_example : Ended local [] 8000 (server_main local [] 8000)
server_main-Ended_example = server_main-Ended local [] 8000
