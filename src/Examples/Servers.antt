-- ===== src/Examples/Servers.antt =====
-- Runs of the theorems on the server: its buffer, its extranonces and its connections.
use merged_mining_pool.Common.{
  ℕ, ◌+◌, ◌%◌, ◌<◌, ◌≡◌, refl, Bool, true, none, some, List, [], ◌∷◌, ◌++◌, arith, length, ok,
  Bytes, codes, bytes_eq,
}
use merged_mining_pool.Rows.{Share}
use merged_mining_pool.Storage.{Outage}
use merged_mining_pool.Intake.{StratumClient}
use merged_mining_pool.Server.{
  Server, take_buffer, write_shares, credits, takes, writes, done, then_step, random_hex,
  unique_extranonce,
}
use merged_mining_pool.Server.Conserved.{count, held, Steps-held}
use merged_mining_pool.Server.Fresh.{IsFresh, unique_extranonce-IsFresh}
use merged_mining_pool.Session.{Stratum}
use merged_mining_pool.Session.Requests.{Request, Pool, Moment, Event, handle_stratum_connection}
use merged_mining_pool.Session.Ended.{IsEnded, handle_stratum_connection-IsEnded}
use merged_mining_pool.Session.Listening.{Arrival, Listener, listen_for_connections}
use merged_mining_pool.Session.Limits.{IsWithin, listen_for_connections-IsWithin}
use merged_mining_pool.Examples.Toy.{toy}
use merged_mining_pool.Examples.Shares.{whole}
use merged_mining_pool.Examples.Credits.{block, nodes, empty, config}
use merged_mining_pool.Examples.Ledger.{share_at, database}

-- A share is credited, the buffer is taken, another share is credited, and the writing fails.
abbrev first : Server ℕ
first = record {
  share_buffer = [];
  to_write = none;
  database = record database { outages = Outage.fails ∷ [] };
}

abbrev credited : Server ℕ
credited = record first { share_buffer = share_at (codes "A") 30 ∷ [] }

abbrev taken : Server ℕ
taken = take_buffer credited

abbrev again : Server ℕ
again = record taken { share_buffer = taken.share_buffer ++ share_at (codes "B") 31 ∷ [] }

abbrev last : Server ℕ
last = write_shares (share_at (codes "A") 30 ∷ []) again

abbrev of_a : Share ℕ → Bool
of_a s = bytes_eq s.miner (codes "A")

Steps-held_example :
    held of_a last
    ≡ count of_a (share_at (codes "A") 30 ∷ share_at (codes "B") 31 ∷ []) + held of_a first
unfolding take_buffer
Steps-held_example = Steps-held of_a (
    then_step (credits (share_at (codes "A") 30) first) (
      then_step (takes credited refl) (
        then_step (credits (share_at (codes "B") 31) taken)
          (then_step (writes (share_at (codes "A") 30 ∷ []) again refl) (done last)))))

-- The digits 0, 1, 2 and so on.
abbrev digits : ℕ → ℕ
digits i = i % 16

digits-below : (i : ℕ) → digits i < 16
digits-below i = omega arith

-- Texts of two digits: 01 is in use, 23 is free.
unique_extranonce-IsFresh_example :
    (e : Bytes) × (unique_extranonce digits 2 3 0 (codes "01" ∷ []) ≡ ok (e, e ∷ codes "01" ∷ []))
    × (length e ≡ 2)
    × IsFresh (e ∷ codes "01" ∷ [])
unfolding random_hex
unique_extranonce-IsFresh_example =
    unique_extranonce-IsFresh digits digits-below 2 3 0 1 (codes "01" ∷ []) (codes "23")
      (omega arith) refl refl (refl, tt)

-- Room for no connection beside the first, and two that come.
abbrev arrivals : List Arrival
arrivals =
    Arrival.connection (codes "::1") 0
    ∷ Arrival.address_error
    ∷ Arrival.connection (codes "::2") 8
    ∷ []

abbrev nobody : Listener
nobody = record { number_of_connections = 0; extranonces = []; clients = [] }

abbrev one : Listener
one = record {
  number_of_connections = 1;
  extranonces = codes "01234567" ∷ [];
  clients =
      record {
        ip = codes "::1";
        login = [];
        extranonce1 = codes "01234567";
        user_agent = [];
        session_id = [];
      }
      ∷ [];
}

listen_for_connections-IsWithin_example : IsWithin digits 3 0 one
unfolding listen_for_connections merged_mining_pool.Session.Listening.listen_round unique_extranonce
    random_hex
listen_for_connections-IsWithin_example =
    listen_for_connections-IsWithin digits 3 0 arrivals nobody {l' = one}
      (refl, tt, refl, omega arith) refl

abbrev subscription : Request
subscription = record {
  method = codes "mining.subscribe";
  texts = codes "miner/1" ∷ [];
  texts_decoded = true;
  work = none;
}

abbrev client : StratumClient
client = record {
  ip = codes "::1";
  login = [];
  extranonce1 = codes "01234567";
  user_agent = [];
  session_id = [];
}

abbrev pool : Pool ℕ
pool = record {
  stratum = record { sessions = (codes "u", client) ∷ []; sent = [] };
  intake = empty;
  replies = [];
}

abbrev moment : Moment
moment = record { nodes = nodes; now = 7; primary = block; delivers = λ i. true; work_cache = [] }

-- Another connection adds its session.
abbrev joined : Pool ℕ → Pool ℕ
joined s = record s {
  stratum = record s.stratum { sessions = (codes "v", client) ∷ s.stratum.sessions };
}

-- A subscription under the identifier of a session, the arrival of another client, and the end of
-- the connection.
abbrev events : List (Event ℕ)
events =
    Event.line (some subscription) (codes "u") true moment
    ∷ Event.meanwhile joined
    ∷ Event.short_line
    ∷ Event.end_of_file
    ∷ []

handle_stratum_connection-IsEnded_example :
    IsEnded (handle_stratum_connection toy whole config (λ chain. codes "main") events client pool)
handle_stratum_connection-IsEnded_example =
    handle_stratum_connection-IsEnded toy whole config (λ chain. codes "main") events client pool
