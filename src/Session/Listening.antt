-- ===== src/Session/Listening.antt =====
-- The loop of pool/network.go that accepts connections.
use merged_mining_pool.Common.{ℕ, ◌+◌, List, [], ◌∷◌, ltb, if◌then◌else◌, Result, ok, ◌>>=◌, Bytes}
use merged_mining_pool.Intake.{StratumClient}
use merged_mining_pool.Server.{unique_extranonce}

-- What a round of the loop meets. A connection comes with its address, and the number of calls of
-- the random numbers before it.
pub data Arrival : Type 0 where
  accept_error address_error : Arrival
  connection : Bytes → ℕ → Arrival

-- The clients stand with the newest in front.
pub record Listener : Type 0 where
  pub number_of_connections : ℕ
  pub extranonces : List Bytes
  pub clients : List StratumClient

-- `extranonce1Length * 2`.
abbrev pub extranonce_size : ℕ
extranonce_size = 8

module _ (intn : ℕ → ℕ) (rounds max_connections : ℕ) where
  abbrev pub opened : Listener → Bytes → Bytes × List Bytes → Listener
  opened l ip (extranonce, used) = record {
    number_of_connections = l.number_of_connections + 1;
    extranonces = used;
    clients =
        record { ip = ip; login = []; extranonce1 = extranonce; user_agent = []; session_id = [] }
        ∷ l.clients;
  }

  abbrev pub arrive : Arrival → Listener → Result Listener
  arrive accept_error l = ok l
  arrive address_error l = ok l
  arrive (connection ip drawn) l = do
    drawn_one ← unique_extranonce intn extranonce_size rounds drawn l.extranonces
    ok (opened l ip drawn_one)

  -- A full server goes round without accepting.
  unfoldable pub listen_round : Arrival → Listener → Result Listener
  listen_round arrival l =
      if ltb max_connections l.number_of_connections then ok l else arrive arrival l

  unfoldable pub listen_for_connections : List Arrival → Listener → Result Listener
  listen_for_connections [] l = ok l
  listen_for_connections (arrival ∷ arrivals) l =
      listen_round arrival l >>= listen_for_connections arrivals
