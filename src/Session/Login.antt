-- ===== src/Session/Login.antt =====
-- What a login is worth that the server accepts.
use merged_mining_pool.Common.{
  ℕ, ◌+◌, ◌≡◌, refl, ap, ◌∙◌, inl, inr, Bool, true, false, not, Option, none, some, List, [], ◌∷◌,
  ◌==◌, Bool-cases, length, get_elem?, drop, Error, Result, ok, err, panic, or_panic, >>=-eq-ok,
  Bytes, bytes_eq_refl,
}
use merged_mining_pool.Common.{split, AllNe, split-part, ==_iff}
use merged_mining_pool.Chain.{Chain, get_chain}
use merged_mining_pool.Block.{Work}
use merged_mining_pool.Intake.{StratumClient, Config}
use merged_mining_pool.Session.{
  SessionMap, add_session, find_session, Packet, Stratum, refuses, demand, check_addresses,
  check_login, send_from, log_in, generate_work_from_cache, mining_authorize,
}

-- Each chain of the order is known, and does not refuse its address.
abbrev pub Accepted : (Bytes → Bytes) → List Bytes → List Bytes → Type 0
Accepted network [] addresses = Unit
Accepted network (name ∷ order) addresses =
    (chain : Chain) × (address : Bytes) × (get_chain name ≡ ok chain)
    × (get_elem? addresses 0 ≡ some address)
    × (refuses (network name) chain address ≡ false)
    × Accepted network order (drop 1 addresses)

demanded : (b : Bool) (e : Error) {u : Unit {0}} → demand b e ≡ ok u → b ≡ true
demanded true e h = refl
demanded false e h = cc

there : {A : Type 0} (o : Option A) {a : A} → or_panic o ≡ ok a → o ≡ some a
there none h = cc
there (some b) h = cc

check_addresses-Accepted :
    (network : Bytes → Bytes) (order addresses : List Bytes) {u : Unit {0}}
    → check_addresses network order addresses ≡ ok u
    → Accepted network order addresses
unfolding check_addresses
check_addresses-Accepted network [] addresses h = tt
check_addresses-Accepted network (name ∷ order) addresses h =
    let (chain, known, h1) = >>=-eq-ok (get_chain name) _ h in
    let (address, given, h2) = >>=-eq-ok (or_panic (get_elem? addresses 0)) _ h1 in
    let (u, met, h3) =
      >>=-eq-ok (demand (not (refuses (network name) chain address)) Error.invalid_address) _ h2 in
    (
      chain,
      address,
      known,
      there _ given,
      not_true (refuses (network name) chain address) (demanded _ _ met),
      check_addresses-Accepted network order (drop 1 addresses) h3,
    )
  where
    not_true : (b : Bool) → not b ≡ true → b ≡ false
    not_true false h = refl
    not_true true h = cc

module _ {F : Type 0} (config : Config F) (network : Bytes → Bytes) (delivers : ℕ → Bool)
    (work_cache : Work) where
  -- A login without a `.` that has as many addresses as there are chains makes the handler panic.
  pub mining_authorize-panic :
      (login : Bytes) (params : List Bytes) (client : StratumClient) (s : Stratum F)
      → AllNe b'.' login
      → length (split login b'-') ≡ length config.block_chain_order
      → (mining_authorize config network delivers work_cache (some (login ∷ params)) client s).1.1
        ≡ panic
  unfolding mining_authorize check_login
  mining_authorize-panic login params client s plain enough =
      rw (split-part b'.' login plain, (==_iff _ _).1 enough) refl

  send_from-sessions :
      (i : ℕ) (packets : List (Packet F)) (reply : Packet F) (s : Stratum F)
      → (send_from config network delivers work_cache i packets reply s).0.sessions ≡ s.sessions
  send_from-sessions i [] reply s = refl
  send_from-sessions i (packet ∷ packets) reply s = elim (Bool-cases (delivers i)) [
    | inl sent ↦ rw sent (send_from-sessions (i + 1) packets reply _)
    | inr lost ↦ rw lost refl
  ]

  found_added :
      (client : StratumClient) (sessions : SessionMap)
      → find_session client.session_id (add_session client sessions) ≡ some client
  unfolding find_session add_session
  found_added client sessions = rw (bytes_eq_refl client.session_id) refl

  -- What a reply to a login says of the client and the server.
  abbrev pub Authorized : Bytes → StratumClient → StratumClient → Stratum F → Type 0
  Authorized login client client' s' =
      (text : Bytes) × (get_elem? (split login b'.') 0 ≡ some text)
      × (length (split text b'-') ≡ length config.block_chain_order)
      × Accepted network config.block_chain_order (split text b'-')
      × (client'.login ≡ login)
      × (find_session client.session_id s'.sessions ≡ some client')

  log_in-Authorized :
      (login : Bytes) (client : StratumClient) (s : Stratum F) (checked : Result (Unit {0}))
      {reply : Packet F}
      → check_login network config.block_chain_order login ≡ checked
      → let (client', (s', r)) = log_in config network delivers work_cache login client s checked in
        r ≡ ok reply → Authorized login client client' s'
  unfolding check_login
  log_in-Authorized login client s (err e) same h = cc
  log_in-Authorized login client s panic same h = cc
  log_in-Authorized login client s (ok u) same h =
      let client' = record client { login = login } in
      let (text, given, h1) = >>=-eq-ok (or_panic (get_elem? (split login b'.') 0)) _ same in
      let (v, enough, h2) =
        >>=-eq-ok
          (demand (length (split text b'-') == length config.block_chain_order)
            Error.not_enough_addresses)
          _ h1 in
      let (rig, named, h3) = >>=-eq-ok (or_panic (get_elem? (split login b'.') 1)) _ h2 in
      (
        text,
        there _ given,
        (==_iff _ _).0 (demanded _ _ enough),
        check_addresses-Accepted network config.block_chain_order (split text b'-') h3,
        refl,
        ap (find_session client.session_id) (
              send_from-sessions 0
                (Packet.authorized ∷ Packet.set_difficulty config.pool_difficulty ∷ [])
                (Packet.notify (generate_work_from_cache config network delivers work_cache false))
                (record s { sessions = add_session client' s.sessions }))
            ∙ found_added client' s.sessions,
      )

  -- If a request to authorize gets a reply, then the login in it has as many addresses as there are
  -- chains, each of a known chain that does not refuse it in its network; the client holds the
  -- login; and its session is the one found under its identifier.
  pub mining_authorize-Authorized :
      (login : Bytes) (params : List Bytes) (client : StratumClient) (s : Stratum F)
      {reply : Packet F}
      → let (client', (s', r)) =
          mining_authorize config network delivers work_cache (some (login ∷ params)) client s in
        r ≡ ok reply → Authorized login client client' s'
  unfolding mining_authorize
  mining_authorize-Authorized login params client s =
      log_in-Authorized login client s (check_login network config.block_chain_order login) refl
