-- ===== src/Session/Limits.antt =====
-- How many connections the server accepts, and with which extranonces.
use merged_mining_pool.Common.{
  ℕ, zero, suc, ◌+◌, ◌≤◌, ◌≡◌, sym, ap, ◌∙◌, inl, inr, false, List, [], ◌∷◌, map, arith, ltb,
  Bool-cases, length, Result, ok, >>=-eq-ok, Bytes,
}
use mathlib.Core.Path.{subst}
use merged_mining_pool.Server.{is_used, random_hex, unique_extranonce}
use merged_mining_pool.Server.Fresh.{IsFresh}
use merged_mining_pool.Session.Listening.{
  Arrival, accept_error, address_error, connection, Listener, extranonce_size, arrive, listen_round,
  listen_for_connections,
}

module _ (intn : ℕ → ℕ) where
  returned-fresh :
      (strlen rounds from : ℕ) (used : List Bytes) {r : Bytes × List Bytes}
      → unique_extranonce intn strlen rounds from used ≡ ok r
      → (is_used r.0 used ≡ false) × (r.1 ≡ r.0 ∷ used)
  unfolding unique_extranonce
  returned-fresh strlen zero from used h = cc
  returned-fresh strlen (suc rounds) from used {r} h =
      let (e, drawn, h1) = >>=-eq-ok (random_hex intn from strlen) _ h in
      elim (Bool-cases (is_used e used)) [
        | inl taken ↦ returned-fresh strlen rounds (from + strlen) used (rw taken at h1)
        | inr new ↦
            let it : (e, e ∷ used) ≡ r = value (rw new at h1) in
            (ap (λ z. is_used z used) (ap (λ z. z.0) (sym it)) ∙ new, cc)
      ]
    where
      value :
          {x y : Bytes × List Bytes} → ◌≡◌ {A = Result (Bytes × List Bytes)} (ok x) (ok y) → x ≡ y
      value h = cc

  module _ (rounds max_connections : ℕ) where
    -- The clients hold all the extranonces, which differ; there are as many clients as are counted, and
    -- at most one more than configured.
    abbrev pub IsWithin : Listener → Type 0
    IsWithin l =
        (map (λ client. client.extranonce1) l.clients ≡ l.extranonces)
        × IsFresh l.extranonces
        × (length l.clients ≡ l.number_of_connections)
        × (l.number_of_connections ≤ max_connections + 1)

    listen_round-IsWithin :
        (arrival : Arrival) (l : Listener) {l' : Listener}
        → IsWithin l
        → listen_round intn rounds max_connections arrival l ≡ ok l'
        → IsWithin l'
    unfolding listen_round
    listen_round-IsWithin arrival l {l'} h e =
        elim (Bool-cases (ltb max_connections l.number_of_connections)) [
          | inl full ↦ let same : l ≡ l' = value (rw full at e) in subst IsWithin same h
          | inr free ↦ arrived arrival (rw free at e) free
        ]
      where
        value : {x y : Listener} → ◌≡◌ {A = Result Listener} (ok x) (ok y) → x ≡ y
        value h = cc

        arrived :
            (arrival : Arrival)
            → arrive intn rounds max_connections arrival l ≡ ok l'
            → ltb max_connections l.number_of_connections ≡ false
            → IsWithin l'
        arrived accept_error e free = subst IsWithin (value e) h
        arrived address_error e free = subst IsWithin (value e) h
        arrived (connection ip drawn) e free =
            let (r, got, e1) =
              >>=-eq-ok (unique_extranonce intn extranonce_size rounds drawn l.extranonces) _ e in
            let (new, shape) = returned-fresh extranonce_size rounds drawn l.extranonces got in
            let (held, fresh, counted, within) = h in
            subst IsWithin (value e1) (
              ap (λ us. r.0 ∷ us) held ∙ sym shape,
              subst IsFresh (sym shape) (new, fresh),
              omega (arith, counted),
              ground arith,
            )

    -- From a state within the limits, whatever arrives: when the loop returns, the clients accepted in
    -- the whole life of the server are at most one more than the configured maximum, and no two of them
    -- have the same extranonce.
    pub listen_for_connections-IsWithin :
        (arrivals : List Arrival) (l : Listener) {l' : Listener}
        → IsWithin l
        → listen_for_connections intn rounds max_connections arrivals l ≡ ok l'
        → IsWithin l'
    unfolding listen_for_connections
    listen_for_connections-IsWithin [] l {l'} h e = let same : l ≡ l' = cc in subst IsWithin same h
    listen_for_connections-IsWithin (arrival ∷ arrivals) l h e =
        let (l1, step, rest) = >>=-eq-ok (listen_round intn rounds max_connections arrival l) _ e in
        listen_for_connections-IsWithin arrivals l1 (listen_round-IsWithin arrival l h step) rest
