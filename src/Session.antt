-- ===== src/Session.antt =====
-- pool/session.go, and miningAuthorize of pool/responses.go, where nobody is banned. The parameters
-- of a request are what encoding/json decodes them to, and whether a packet is sent is a function
-- of its number.
pub mod Login
pub mod Requests
pub mod Ended
pub mod Listening
pub mod Limits
use merged_mining_pool.Common.{
  ◌>>=◌, ℕ, ◌+◌, ◌-◌, ◌/◌, Bool, true, false, not, ◌&&◌, ◌||◌, Option, none, some, List, [], ◌∷◌,
  ◌++◌, map, ◌==◌, if◌then◌else◌, length, get_elem?, set, drop, Error, Result, ok, err, panic,
  or_panic, Bytes, codes, bytes_eq,
}
use merged_mining_pool.Common.{split}
use merged_mining_pool.Chain.{Chain, get_chain, valid_mainnet_address, valid_testnet_address}
use merged_mining_pool.Block.{Item, Work}
use merged_mining_pool.Intake.{StratumClient, Config}

-- The map of sessions, the entry set last in front. An entry holds the client as it was when it was
-- added, where the code holds a pointer to the client of the connection, whose later fields it shows.
abbrev pub SessionMap : Type 0
SessionMap = List (Bytes × StratumClient)

unfoldable pub add_session : StratumClient → SessionMap → SessionMap
add_session client sessions = (client.session_id, client) ∷ sessions

-- `delete`.
unfoldable pub remove_session : Bytes → SessionMap → SessionMap
remove_session session_id [] = []
remove_session session_id ((id, client) ∷ sessions) =
    let rest = remove_session session_id sessions in
    if bytes_eq id session_id then rest else (id, client) ∷ rest

unfoldable pub find_session : Bytes → SessionMap → Option StratumClient
find_session session_id [] = none
find_session session_id ((id, client) ∷ sessions) =
    let rest = find_session session_id sessions in
    if bytes_eq id session_id then some client else rest

-- What the server sends: the answer to the request, the difficulty, work.
pub data Packet (F : Type 0) : Type 0 where
  authorized : Packet F
  set_difficulty : F → Packet F
  notify : Work → Packet F

pub record Stratum (F : Type 0) : Type 0 where
  pub sessions : SessionMap
  pub sent : List (Packet F)

abbrev pub refuses : Bytes → Chain → Bytes → Bool
refuses network chain address =
    (bytes_eq network (codes "test") && not (valid_testnet_address chain address))
    || (bytes_eq network (codes "main") && not (valid_mainnet_address chain address))

abbrev pub demand : Bool → Error → Result (Unit {0})
demand true e = ok tt
demand false e = err e

-- The loop over the chains; `network` is empty for a chain without a node.
unfoldable pub check_addresses : (Bytes → Bytes) → List Bytes → List Bytes → Result (Unit {0})
check_addresses network [] addresses = ok tt
check_addresses network (name ∷ order) addresses = do
  chain ← get_chain name
  address ← or_panic (get_elem? addresses 0)
  u ← demand (not (refuses (network name) chain address)) Error.invalid_address
  check_addresses network order (drop 1 addresses)

-- Up to the last address. The text in front of the first `.` is there for every login.
unfoldable pub check_login : (Bytes → Bytes) → List Bytes → Bytes → Result (Unit {0})
check_login network order login = do
  let parts = split login b'.'
  addresses_text ← or_panic (get_elem? parts 0)
  let addresses = split addresses_text b'-'
  u ← demand (length addresses == length order) Error.not_enough_addresses
  rig ← or_panic (get_elem? parts 1)
  check_addresses network order addresses

module _ {F : Type 0} (config : Config F) (network : Bytes → Bytes) (delivers : ℕ → Bool)
    (work_cache : Work) where
  -- The flag tells a broadcast from the first work of a client.
  unfoldable pub generate_work_from_cache : Bool → Work
  generate_work_from_cache refresh = work_cache ++ Item.flag refresh ∷ []

  -- A packet that is not sent ends the handler with an error.
  abbrev pub send_from : ℕ → List (Packet F) → Packet F → Stratum F → Stratum F × Result (Packet F)
  send_from i [] reply s = (s, ok reply)
  send_from i (packet ∷ packets) reply s =
      let rest = send_from (i + 1) packets reply (record s { sent = s.sent ++ packet ∷ [] }) in
      if delivers i then rest else (s, err Error.not_sent)

  abbrev pub log_in :
      Bytes
      → StratumClient
      → Stratum F
      → Result (Unit {0})
      → StratumClient × (Stratum F × Result (Packet F))
  log_in login client s (ok u) =
      let client' = record client { login = login } in
      (
        client',
        send_from 0 (Packet.authorized ∷ Packet.set_difficulty config.pool_difficulty ∷ [])
            (Packet.notify (generate_work_from_cache false))
            (record s { sessions = add_session client' s.sessions }),
      )
  log_in login client s (err e) = (client, (s, err e))
  log_in login client s panic = (client, (s, panic))

  -- The client, the server and the reply.
  unfoldable pub mining_authorize :
      Option (List Bytes)
      → StratumClient
      → Stratum F
      → StratumClient × (Stratum F × Result (Packet F))
  mining_authorize none client s = (client, (s, err Error.malformed_request))
  mining_authorize (some []) client s = (client, (s, err Error.invalid_parameters))
  mining_authorize (some (login ∷ params)) client s =
      log_in login client s (check_login network config.block_chain_order login)
