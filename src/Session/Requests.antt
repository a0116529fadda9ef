-- ===== src/Session/Requests.antt =====
-- pool/responses.go besides miningAuthorize, and the loop of pool/network.go over the lines of a
-- connection. What encoding/json decodes a line to, the identifiers of google/uuid and what becomes
-- of a packet stand in the events of the connection.
use merged_mining_pool.Common.{
  ℕ, Bool, true, false, Option, none, some, List, [], ◌∷◌, ◌++◌, if◌then◌else◌, Error, Result, ok,
  err, panic, Bytes, codes, bytes_eq,
}
use merged_mining_pool.Crypto.{Crypto}
use merged_mining_pool.Target.{Floats}
use merged_mining_pool.Block.{BitcoinBlock, Work}
use merged_mining_pool.Intake.{StratumClient, Config, Intake, Nodes, recieve_work_from_client}
use merged_mining_pool.Session.{Stratum, Packet, mining_authorize, remove_session}

-- `texts` is what decoding the parameters as texts leaves, and `texts_decoded` whether it succeeds;
-- `work` is what they are decoded to as work.
pub record Request : Type 0 where
  pub method : Bytes
  pub texts : List Bytes
  pub texts_decoded : Bool
  pub work : Option Work

pub data Reply (F : Type 0) : Type 0 where
  subscribed : Bytes → Bytes → Reply F
  packet : Packet F → Reply F
  submitted : Reply F
  null : Reply F
  empty_response : Reply F

pub record Pool (F : Type 0) : Type 0 where
  pub stratum : Stratum F
  pub intake : Intake F
  pub replies : List (Reply F)

-- What a connection finds when it reads a line: the nodes, the time, the block and the work that are
-- current then, and which packets are delivered.
pub record Moment : Type 0 where
  pub nodes : Nodes
  pub now : ℕ
  pub primary : BitcoinBlock
  pub delivers : ℕ → Bool
  pub work_cache : Work

-- What the reader of a connection gives: a line with its request, the identifier to come, whether
-- the answer is sent, and its moment. In between, the other connections and the loops of the server
-- change the pool.
pub data Event (F : Type 0) : Type 0 where
  end_of_file socket_flood read_error short_line : Event F
  line : Option Request → Bytes → Bool → Moment → Event F
  meanwhile : (Pool F → Pool F) → Event F

-- How the loop over a connection stands: no event is left, or it has returned.
pub data Ending : Type 0 where
  waiting disconnected flooded broken : Ending
  refused : Error → Ending
  crashed : Ending

-- Nobody is banned.
unfoldable pub mining_subscribe :
    {F : Type 0} → Request → Bytes → StratumClient → StratumClient × Result (Reply F)
mining_subscribe request new_id client =
    let named = named_client request.texts client in
    (record named { session_id = new_id }, ok (Reply.subscribed new_id named.extranonce1))
  where
    named_client : List Bytes → StratumClient → StratumClient
    named_client [] client = client
    named_client (client_type ∷ texts) client = record client { user_agent = client_type }

unfoldable pub ban_client : {F : Type 0} → StratumClient → Pool F → Pool F
ban_client client s = record s {
  stratum = record s.stratum { sessions = remove_session client.session_id s.stratum.sessions };
}

module _ {F B : Type 0} (c : Crypto) (f : Floats F B) (nodes : Nodes) (now : ℕ) (config : Config F)
    (primary : BitcoinBlock) (network : Bytes → Bytes) (delivers : ℕ → Bool)
    (work_cache : Work) where
  -- An error of the work is only logged: the answer is true all the same.
  abbrev submit_reply : Pool F → Intake F × Result (Unit {0}) → Pool F × Result (Reply F)
  submit_reply s (i, ok u) = (record s { intake = i }, ok Reply.submitted)
  submit_reply s (i, err e) = (record s { intake = i }, ok Reply.submitted)
  submit_reply s (i, panic) = (record s { intake = i }, panic)

  unfoldable pub mining_submit : Option Work → StratumClient → Pool F → Pool F × Result (Reply F)
  mining_submit none client s = (s, err Error.malformed_request)
  mining_submit (some work) client s =
      submit_reply s (recieve_work_from_client c f nodes now config primary work client s.intake)

  abbrev packet_of : Result (Packet F) → Result (Reply F)
  packet_of (ok p) = ok (Reply.packet p)
  packet_of (err e) = err e
  packet_of panic = panic

  abbrev authorized_of :
      Pool F
      → StratumClient × (Stratum F × Result (Packet F))
      → StratumClient × (Pool F × Result (Reply F))
  authorized_of s (client, (stratum, r)) = (client, (record s { stratum = stratum }, packet_of r))

  unfoldable pub handle_stratum_request :
      Request → Bytes → StratumClient → Pool F → StratumClient × (Pool F × Result (Reply F))
  handle_stratum_request request new_id client s =
      if bytes_eq request.method (codes "mining.subscribe")
      then (let (client', r) = mining_subscribe request new_id client in (client', (s, r)))
      else if bytes_eq request.method (codes "mining.authorize")
      then authorized_of s (
          mining_authorize config network delivers work_cache
            (if request.texts_decoded then some request.texts else none) client s.stratum)
      else if bytes_eq request.method (codes "mining.extranonce.subscribe")
      then (client, (s, ok Reply.empty_response))
      else if bytes_eq request.method (codes "mining.submit")
      then (client, mining_submit request.work client s)
      else if bytes_eq request.method (codes "mining.multi_version")
      then (client, (s, ok Reply.null))
      else if bytes_eq request.method (codes "mining.get_transactions")
      then (client, (s, ok Reply.null))
      else (client, (s, err Error.unknown_method))

  -- The answer is sent, or the sending fails.
  abbrev answer :
      Bool
      → StratumClient × (Pool F × Result (Reply F))
      → StratumClient × (Pool F × Result (Unit {0}))
  answer true (client, (s, ok reply)) =
      (client, (record s { replies = s.replies ++ reply ∷ [] }, ok tt))
  answer false (client, (s, ok reply)) = (client, (s, err Error.not_sent))
  answer sends (client, (s, err e)) = (client, (s, err e))
  answer sends (client, (s, panic)) = (client, (s, panic))

  unfoldable pub respond_to_stratum_client :
      Option Request
      → Bytes
      → Bool
      → StratumClient
      → Pool F
      → StratumClient × (Pool F × Result (Unit {0}))
  respond_to_stratum_client none new_id sends client s = (client, (s, err Error.malformed_request))
  respond_to_stratum_client (some request) new_id sends client s =
      answer sends (handle_stratum_request request new_id client s)

-- The result of a line ends the loop, or the next line is read.
abbrev pub after_line :
    {F : Type 0}
    → (StratumClient → Pool F → StratumClient × (Pool F × Ending))
    → StratumClient × (Pool F × Result (Unit {0}))
    → StratumClient × (Pool F × Ending)
after_line next_line (client, (s, ok u)) = next_line client s
after_line next_line (client, (s, err e)) = (client, (s, Ending.refused e))
after_line next_line (client, (s, panic)) = (client, (s, Ending.crashed))

module _ {F B : Type 0} (c : Crypto) (f : Floats F B) (config : Config F)
    (network : Bytes → Bytes) where
  -- A line is answered with what is current when it is read.
  abbrev pub respond_at :
      Moment
      → Option Request
      → Bytes
      → Bool
      → StratumClient
      → Pool F
      → StratumClient × (Pool F × Result (Unit {0}))
  respond_at m =
      respond_to_stratum_client c f m.nodes m.now config m.primary network m.delivers m.work_cache

  -- The client, the pool and the ending.
  unfoldable pub handle_stratum_connection :
      List (Event F) → StratumClient → Pool F → StratumClient × (Pool F × Ending)
  handle_stratum_connection [] client s = (client, (s, Ending.waiting))
  handle_stratum_connection (Event.end_of_file ∷ events) client s =
      (client, (ban_client client s, Ending.disconnected))
  handle_stratum_connection (Event.socket_flood ∷ events) client s =
      (client, (ban_client client s, Ending.flooded))
  handle_stratum_connection (Event.read_error ∷ events) client s = (client, (s, Ending.broken))
  handle_stratum_connection (Event.short_line ∷ events) client s =
      handle_stratum_connection events client s
  handle_stratum_connection (Event.line request new_id sends m ∷ events) client s =
      after_line (handle_stratum_connection events) (respond_at m request new_id sends client s)
  handle_stratum_connection (Event.meanwhile others ∷ events) client s =
      handle_stratum_connection events client (others s)
