-- ===== src/Tracing/Address.antt =====
-- The address that the program of src/opentelemetry/main.cpp connects to.
use vcpkg_test.Prelude.{
  ℕ, zero, suc, ◌+◌, ◌-◌, ◌*◌, ◌/◌, ◌%◌, ◌^◌, ◌<◌, ◌≤◌, ◌≡◌, ◌∙◌, refl, ap, Option, none, some, ◌⊎◌,
  negsuc, List, [], ◌∷◌, ◌++◌, Bytes, codes, ltb, ltb→lt, if◌then◌else◌, ℤ, pos, arith, Bool-cases,
  inl, inr,
}
use vcpkg_test.Tracing.{Rpc, request, async_initiate, initiate_with, complete}
use vcpkg_test.Tracing.Greet.{Reply, greet_bound, port_of, port_of_bounds}
use vcpkg_test.Tracing.Programs.{
  Event, set_tracer_provider, set_global_propagator, create_channel, called, decimal, target,
  run_bound, main_bound,
}

-- The addresses of the channels that are created, in order.
abbrev pub channels : List Event → List Bytes
channels [] = []
channels (set_tracer_provider ∷ events) = channels events
channels (set_global_propagator ∷ events) = channels events
channels (create_channel address ∷ events) = address ∷ channels events
channels (called call ∷ events) = channels events

-- All bytes are the digits `0` to `9`.
abbrev pub IsDigits : Bytes → Type 0
IsDigits [] = Unit
IsDigits (c ∷ cs) = (48 ≤ c) × (c < 58) × IsDigits cs

abbrev pub StartsPositive : Bytes → Type 0
StartsPositive [] = ⊥
StartsPositive (c ∷ cs) = 48 < c

-- The number that a text of digits stands for, behind `v`.
abbrev pub digits_value : ℕ → Bytes → ℕ
digits_value v [] = v
digits_value v (c ∷ cs) = digits_value (v * 10 + (c - 48)) cs

-- `n` has at most as many digits.
abbrev Digits : ℕ → ℕ → Type 0
Digits zero n = n ≡ 0
Digits (suc k) n = Digits k (n / 10)

decimal-digits_value :
    (k n : ℕ) (rest : Bytes) → Digits k n → digits_value 0 (decimal k n rest) ≡ digits_value n rest
decimal-digits_value zero n rest fits = ap (λ v. digits_value v rest) (omega arith)
decimal-digits_value (suc k) n rest fits = elim (Bool-cases (ltb n 10)) [
  | inl e ↦ let lt = ltb→lt n 10 e in rw e (ap (λ v. digits_value v rest) (omega arith))
  | inr e ↦ rw e (
      decimal-digits_value k (n / 10) ((48 + n % 10) ∷ rest) fits
      ∙ ap (λ v. digits_value v rest) (omega arith))
]

decimal-IsDigits : (k n : ℕ) (rest : Bytes) → IsDigits rest → IsDigits (decimal k n rest)
decimal-IsDigits zero n rest digits = digits
decimal-IsDigits (suc k) n rest digits =
    let more : IsDigits ((48 + n % 10) ∷ rest) = (omega arith, omega arith, digits) in
    elim (Bool-cases (ltb n 10)) [
      | inl e ↦ rw e more
      | inr e ↦ rw e (decimal-IsDigits k (n / 10) ((48 + n % 10) ∷ rest) more)
    ]

decimal-StartsPositive :
    (k n : ℕ) (rest : Bytes) → Digits k n → 0 < n → StartsPositive (decimal k n rest)
decimal-StartsPositive zero n rest fits positive = absurd (omega arith)
decimal-StartsPositive (suc k) n rest fits positive = elim (Bool-cases (ltb n 10)) [
  | inl e ↦ let lt = ltb→lt n 10 e in let first : 48 < 48 + n % 10 = omega arith in rw e first
  | inr e ↦
      let quotient : 0 < n / 10 = ground arith in
      rw e (decimal-StartsPositive k (n / 10) ((48 + n % 10) ∷ rest) fits quotient)
]

Digits-five : (n : ℕ) → n < 2 ^ 16 → Digits 5 n
Digits-five n lt = omega (arith, lt)

-- The port that is asked for, if there is such a port.
abbrev pub asked_port : Option ℤ → Option ℕ
asked_port none = some 8800
asked_port (some (pos n)) = if ltb n (2 ^ 16) then some n else none
asked_port (some (negsuc n)) = none

asked_port-port_of :
    (argument : Option ℤ)
    → (asked_port argument ≡ some (port_of argument)) ⊎ (asked_port argument ≡ none)
unfolding port_of
asked_port-port_of none = inl refl
asked_port-port_of (some (pos n)) = elim (Bool-cases (ltb n (2 ^ 16))) [
  | inl e ↦
      let lt = ltb→lt n (2 ^ 16) e in
      let same : n ≡ n % 2 ^ 16 = omega arith in inl (rw e (ap some same))
  | inr e ↦ inr (rw e refl)
]
asked_port-port_of (some (negsuc n)) = inr refl

-- No zero leads, unless the text is that of 0.
starts_or_zero : (n : ℕ) → Digits 5 n → (decimal 5 n [] ≡ 48 ∷ []) ⊎ StartsPositive (decimal 5 n [])
starts_or_zero zero fits = inl refl
starts_or_zero (suc n) fits = inr (decimal-StartsPositive 5 (suc n) [] fits (omega arith))

main_bound-channels :
    (rpc : Rpc) (version : Bytes) (argument : Option ℤ) (reply : Reply)
    → channels (main_bound rpc version argument reply) ≡ target (port_of argument) ∷ []
unfolding main_bound run_bound greet_bound request async_initiate initiate_with complete
main_bound-channels rpc version argument reply = refl

-- Whatever the argument and the reply: the program creates one channel, to `0.0.0.0:` and the
-- decimal digits of a port, with no zero in front. The port is a 16-bit number: the one that is
-- asked for, or, where the argument is no such number, another one and no error.
pub main_bound-port_of :
    (rpc : Rpc) (version : Bytes) (argument : Option ℤ) (reply : Reply)
    → (digits : Bytes) × (channels (main_bound rpc version argument reply)
        ≡ (codes "0.0.0.0:" ++ digits) ∷ [])
      × IsDigits digits
      × ((digits ≡ 48 ∷ []) ⊎ StartsPositive digits)
      × (digits_value 0 digits ≡ port_of argument)
      × (port_of argument < 2 ^ 16)
      × ((asked_port argument ≡ some (port_of argument)) ⊎ (asked_port argument ≡ none))
unfolding target
main_bound-port_of rpc version argument reply =
    let bound = (port_of_bounds argument).0 in
    let port = port_of argument in
    let fits = Digits-five port bound in
    (
      decimal 5 port [],
      main_bound-channels rpc version argument reply,
      decimal-IsDigits 5 port [] tt,
      starts_or_zero port fits,
      decimal-digits_value 5 port [] fits,
      bound,
      asked_port-port_of argument,
    )
