-- ===== src/Manager.antt =====
-- rpc/manager.go: which of the nodes of a chain the pool talks to.
pub mod Failover
pub mod Steps
use merged_mining_pool.Common.{
  ℕ, zero, suc, ◌+◌, ◌-◌, ◌*◌, ◌/◌, ◌%◌, ◌^◌, ◌≤◌, ◌<◌, ◌≡◌, refl, sym, ap, ◌∙◌, ◌≢◌, ◌↔◌, ◌⊎◌, inl,
  inr, Bool, true, false, not, ◌&&◌, ◌||◌, Option, none, some, List, [], ◌∷◌, ◌++◌, map, reverse,
  append-nil, append_assoc, arith, ltb, leb, ◌==◌, if◌then◌else◌, Bool-cases, Option-cases, length,
  get_elem?, set, take, drop, replicate, All, length-append, length-reverse, All-append,
  All-reverse, length-set, length-replicate, length-map, Error, Result, ok, err, panic, ◌>>=◌,
  or_panic, >>=-eq-ok, Bytes, IsByte, codes, bytes_eq, bytes_eq_refl, eq_of_bytes_eq,
}

-- `RPCClient`; its connection is no part of the model.
pub record RpcClient : Type 0 where
  pub node_url : Bytes
  pub name : Bytes

-- The time that the manager waits between two checks of the primary node is left to the steps of
-- the environment.
pub record Manager : Type 0 where
  pub chain_name : Bytes
  pub active_index : ℕ
  pub clients : List RpcClient

unfoldable pub get_active_client : Manager → Result RpcClient
get_active_client m = or_panic (get_elem? m.clients m.active_index)

unfoldable pub get_index : Manager → ℕ
get_index m = m.active_index

unfoldable pub restore_primary : Manager → Manager
restore_primary m = record m { active_index = 0 }

unfoldable pub next_node : Manager → Manager
next_node m =
    if ltb m.active_index (length m.clients - 1)
    then record m { active_index = m.active_index + 1 }
    else record m { active_index = 0 }

-- The end of a round of `FindHealthyNode`.
abbrev pub found_or_more :
    Manager → Result Bool → Manager × Result (Unit {0}) → Manager × Result (Unit {0})
found_or_more m (ok true) more = (m, ok tt)
found_or_more m (ok false) more = more
found_or_more m (err e) more = (m, err e)
found_or_more m panic more = (m, panic)

-- The answer of a node may change: `check t client` is the answer to the t-th request.
module _ (check : ℕ → RpcClient → Bool) where
  unfoldable pub check_active_node_health : ℕ → Manager → Result Bool
  check_active_node_health t m = do client ← get_active_client m; ok (check t client)

  unfoldable pub check_primary : ℕ → Manager → Result Bool
  check_primary t m = do client ← or_panic (get_elem? m.clients 0); ok (check t client)

  -- The loop of `FindHealthyNode`, with `left` nodes to check. The new state stands beside the
  -- error.
  unfoldable pub find_loop : ℕ → ℕ → Manager → Manager × Result (Unit {0})
  find_loop zero t m = (m, err Error.no_healthy_node)
  find_loop (suc left) t m =
      let m' = next_node m in
      let more = find_loop left (t + 1) m' in found_or_more m' (check_active_node_health t m') more

  unfoldable pub find_healthy_node : ℕ → Manager → Manager × Result (Unit {0})
  find_healthy_node t m = find_loop (length m.clients) t m

  -- The flag tells whether the loop that returns to the primary node was launched.
  unfoldable pub check_and_recover_rpcs : ℕ → Manager → Manager × Result Bool
  check_and_recover_rpcs t m = elim (check_active_node_health t m) [
    | ok true ↦ (m, ok false)
    | ok false ↦ let (m', found) = find_healthy_node (t + 1) m in (m', found >>= λ _. ok true)
    | err e ↦ (m, err e)
    | panic ↦ (m, panic)
  ]

  -- One round of the launched loop; the flag tells whether the loop ends.
  unfoldable pub return_round : ℕ → Manager → Manager × Result Bool
  return_round t m = elim (check_primary t m) [
    | ok true ↦ (restore_primary m, ok true)
    | ok false ↦ (m, ok false)
    | err e ↦ (m, err e)
    | panic ↦ (m, panic)
  ]
