-- ===== src/Echo/Startup.antt =====
-- The start of the server of src/brpc/server.cpp.
use vcpkg_test.Prelude.{
  ℕ, ◌≡◌, ◌≢◌, ◌⊎◌, sym, ap, subst, refl, Bool, true, false, none, some, [], ◌∷◌, Bytes, pos,
  negsuc, if◌then◌else◌, Bool-cases, Option-cases, inl, inr,
}
use vcpkg_test.Echo.{
  Brpc, Exit, failed_to_add, invalid_address, failed_to_start, ran_on, endpoint, server_main,
  exit_code,
}

module _ {EndPoint : Type 0} (brpc : Brpc EndPoint) (listen_addr : Bytes) (port : ℕ) where
  -- The address that the flags ask for.
  abbrev Asked : EndPoint → Type 0
  Asked point =
      ((listen_addr ≡ []) × (point ≡ brpc.any_address port))
      ⊎ ((listen_addr ≢ []) × (brpc.str_to_endpoint listen_addr ≡ some point))

  pub record IsServing (point : EndPoint) : Type 0 where
    pub added : brpc.add_service_fails ≡ false
    pub asked : Asked point
    pub started : brpc.start_fails point ≡ false

-- The two ways in which `main` ends.
abbrev pub Ended : {EndPoint : Type 0} → Brpc EndPoint → Bytes → ℕ → Exit EndPoint → Type 0
Ended {EndPoint} brpc listen_addr port exit =
    ((point : EndPoint) × IsServing brpc listen_addr port point
      × (exit ≡ ran_on point)
      × (exit_code exit ≡ pos 0))
    ⊎ (((point : EndPoint) → ¬ IsServing brpc listen_addr port point) × (exit_code exit ≡ negsuc 0))

module _ {EndPoint : Type 0} (brpc : Brpc EndPoint) where
  Asked-endpoint :
      (listen_addr : Bytes) (port : ℕ) (point : EndPoint)
      → Asked brpc listen_addr port point
      → endpoint brpc listen_addr port ≡ some point
  unfolding endpoint
  Asked-endpoint [] port point (inl (e, q)) = ap some (sym q)
  Asked-endpoint [] port point (inr (ne, q)) = absurd (ne refl)
  Asked-endpoint (c ∷ cs) port point (inl (e, q)) = absurd (cc)
  Asked-endpoint (c ∷ cs) port point (inr (ne, q)) = q

  endpoint-Asked :
      (listen_addr : Bytes) (port : ℕ) (point : EndPoint)
      → endpoint brpc listen_addr port ≡ some point
      → Asked brpc listen_addr port point
  unfolding endpoint
  endpoint-Asked [] port point e = inl (refl, cc e)
  endpoint-Asked (c ∷ cs) port point e = inr ((λ n. cc), e)

  module _ (listen_addr : Bytes) (port : ℕ) where
    unresolved_lem :
        brpc.add_service_fails ≡ false
        → endpoint brpc listen_addr port ≡ none
        → server_main brpc listen_addr port ≡ invalid_address
    unfolding server_main
    unresolved_lem added e = simp (added, e) refl

    resolved_lem :
        (point : EndPoint) (fails : Bool)
        → brpc.add_service_fails ≡ false
        → endpoint brpc listen_addr port ≡ some point
        → brpc.start_fails point ≡ fails
        → server_main brpc listen_addr port ≡ (if fails then failed_to_start else ran_on point)
    unfolding server_main
    resolved_lem point fails added e f = simp (added, e, f) refl

    not_added_lem :
        brpc.add_service_fails ≡ true → server_main brpc listen_addr port ≡ failed_to_add
    unfolding server_main
    not_added_lem fails = rw fails refl

    ends_as :
        {exit : Exit EndPoint}
        → server_main brpc listen_addr port ≡ exit
        → Ended brpc listen_addr port exit
        → Ended brpc listen_addr port (server_main brpc listen_addr port)
    ends_as e = subst (Ended brpc listen_addr port) (sym e)

    with_endpoint :
        brpc.add_service_fails ≡ false
        → (point : EndPoint) → endpoint brpc listen_addr port ≡ some point
        → Ended brpc listen_addr port (server_main brpc listen_addr port)
    unfolding exit_code
    with_endpoint added point e = elim (Bool-cases (brpc.start_fails point)) [
      | inl fails ↦
          ends_as (resolved_lem point true added e fails)
            (inr ((λ q s. false_start q s fails), refl))
      | inr started ↦
          let asked = endpoint-Asked listen_addr port point e in
          ends_as (resolved_lem point false added e started)
            (inl (point, record { added = added; asked = asked; started = started }, refl, refl))
    ]
      where
        false_start :
            (q : EndPoint) → IsServing brpc listen_addr port q → brpc.start_fails point ≡ true → ⊥
        false_start q s fails =
            let same : q ≡ point = cc (Asked-endpoint listen_addr port q s.asked, e) in
            cc (s.started, fails, same)

    -- `main` of the server serves and returns 0 exactly if the service is added, there is an
    -- address (`listen_addr` parsed if it is not empty, and `port` of any address if it is) and the
    -- server starts on it; in every other case it returns -1.
    pub server_main-Ended : Ended brpc listen_addr port (server_main brpc listen_addr port)
    unfolding exit_code
    server_main-Ended = elim (Bool-cases brpc.add_service_fails) [
      | inl fails ↦ ends_as (not_added_lem fails) (inr ((λ point s. cc (s.added, fails)), refl))
      | inr added ↦ elim (Option-cases (endpoint brpc listen_addr port)) [
        | inl e ↦
            ends_as (unresolved_lem added e)
              (inr ((λ q s. cc (Asked-endpoint listen_addr port q s.asked, e)), refl))
        | inr (point, e) ↦ with_endpoint added point e
      ]
    ]
