-- ===== src/Session/Ended.antt =====
-- What is left of a client when its connection ends.
use merged_mining_pool.Common.{
  ◌≡◌, refl, inl, inr, none, List, [], ◌∷◌, Bool-cases, Result, ok, err, panic, Bytes, bytes_eq,
}
use merged_mining_pool.Crypto.{Crypto}
use merged_mining_pool.Target.{Floats}
use merged_mining_pool.Intake.{StratumClient, Config}
use merged_mining_pool.Session.{SessionMap, find_session, remove_session}
use merged_mining_pool.Session.Requests.{
  Pool, Event, end_of_file, socket_flood, read_error, short_line, line, meanwhile, respond_at,
  Ending, disconnected, flooded, ban_client, after_line, handle_stratum_connection,
}

removed : (id : Bytes) (sessions : SessionMap) → find_session id (remove_session id sessions) ≡ none
unfolding find_session remove_session
removed id [] = refl
removed id ((k, client) ∷ sessions) = elim (Bool-cases (bytes_eq k id)) [
  | inl e ↦ rw e (removed id sessions)
  | inr e ↦ rw (e, e) (removed id sessions)
]

-- The client's session is gone when the peer has closed the connection or has flooded it.
abbrev pub IsEnded : {F : Type 0} → StratumClient × (Pool F × Ending) → Type 0
IsEnded (client, (s, disconnected)) = find_session client.session_id s.stratum.sessions ≡ none
IsEnded (client, (s, flooded)) = find_session client.session_id s.stratum.sessions ≡ none
IsEnded _ = Unit

module _ {F B : Type 0} (c : Crypto) (f : Floats F B) (config : Config F)
    (network : Bytes → Bytes) where
  -- Whatever was sent before, and whatever others changed in between: a connection that its peer
  -- closes, or that is flooded, leaves no session under the last identifier of its client.
  pub handle_stratum_connection-IsEnded :
      (events : List (Event F)) (client : StratumClient) (s : Pool F)
      → IsEnded (handle_stratum_connection c f config network events client s)
  unfolding handle_stratum_connection ban_client
  handle_stratum_connection-IsEnded [] client s = tt
  handle_stratum_connection-IsEnded (end_of_file ∷ events) client s =
      removed client.session_id s.stratum.sessions
  handle_stratum_connection-IsEnded (socket_flood ∷ events) client s =
      removed client.session_id s.stratum.sessions
  handle_stratum_connection-IsEnded (read_error ∷ events) client s = tt
  handle_stratum_connection-IsEnded (short_line ∷ events) client s =
      handle_stratum_connection-IsEnded events client s
  handle_stratum_connection-IsEnded (meanwhile others ∷ events) client s =
      handle_stratum_connection-IsEnded events client (others s)
  handle_stratum_connection-IsEnded (line request new_id sends m ∷ events) client s =
      after (λ client' s'. handle_stratum_connection-IsEnded events client' s')
        (respond_at c f config network m request new_id sends client s)
    where
      next_line : StratumClient → Pool F → StratumClient × (Pool F × Ending)
      next_line = handle_stratum_connection c f config network events

      after :
          ((client' : StratumClient) (s' : Pool F) → IsEnded (next_line client' s'))
          → (r : StratumClient × (Pool F × Result (Unit {0}))) → IsEnded (after_line next_line r)
      after ih (client', (s', ok u)) = ih client' s'
      after ih (client', (s', err e)) = tt
      after ih (client', (s', panic)) = tt
