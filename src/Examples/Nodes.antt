-- ===== src/Examples/Nodes.antt =====
-- Runs of the theorems on the node manager and on chains.
use merged_mining_pool.Common.{
  ℕ, ◌<◌, ◌≡◌, refl, ◌≢◌, ◌↔◌, ◌⊎◌, Bool, true, false, List, [], ◌∷◌, arith, All, Error, ok, err,
  Bytes, codes, bytes_eq,
}
use merged_mining_pool.Chain.{
  luckycoin, pepecoin, dogecoin, get_chain, chain_name, valid_mainnet_address, is_base58,
}
use merged_mining_pool.Chain.Names.{IsPlain, get_chain-chain_name, valid_mainnet_address-IsPlain}
use merged_mining_pool.Manager.{
  RpcClient, Manager, get_active_client, find_healthy_node, restore_primary,
}
use merged_mining_pool.Manager.Failover.{
  Finds, Answers, find_healthy_node-ends, find_healthy_node-succeeds,
}
use merged_mining_pool.Manager.Steps.{
  idle, world, unhealthy, test_below, load, store, restored, answered, Reach, done, ◌then◌, IsValid,
  Reach-active,
}

get_chain-chain_name_example :
    (get_chain (chain_name luckycoin) ≡ ok luckycoin)
    ↔ ((luckycoin ≢ luckycoin) × (luckycoin ≢ pepecoin))
get_chain-chain_name_example = get_chain-chain_name luckycoin

abbrev address : Bytes
address = codes "DBXu2kgc3xtvCUWFcxFE3r9hEYgmuaaCyD"

address_valid : valid_mainnet_address dogecoin address ≡ true
unfolding valid_mainnet_address merged_mining_pool.Chain.matches_headed is_base58
address_valid = refl

valid_mainnet_address-IsPlain_example : All IsPlain address
valid_mainnet_address-IsPlain_example = valid_mainnet_address-IsPlain dogecoin address address_valid

abbrev node : Bytes → RpcClient
node name = record { node_url = []; name = name }

abbrev nodes : List RpcClient
nodes = node (codes "a") ∷ node (codes "b") ∷ node (codes "c") ∷ []

abbrev manager : Manager
manager = record { chain_name = codes "litecoin"; active_index = 0; clients = nodes }

-- Only the last node ever answers.
abbrev answers : ℕ → RpcClient → Bool
answers t c = bytes_eq c.name (codes "c")

find_healthy_node-ends_example :
    (((find_healthy_node answers 5 manager).1 ≡ ok tt)
      × Finds answers 3 5 manager (find_healthy_node answers 5 manager).0)
    ⊎ (((find_healthy_node answers 5 manager).1 ≡ err Error.no_healthy_node)
        × ((find_healthy_node answers 5 manager).0.active_index ≡ 0)
        × ((k : ℕ) → k < 3 → Answers answers nodes 0 5 k false))
find_healthy_node-ends_example = find_healthy_node-ends answers 5 manager (omega arith)

find_healthy_node-succeeds_example : (find_healthy_node answers 5 manager).1 ≡ ok tt
find_healthy_node-succeeds_example =
    find_healthy_node-succeeds answers 5 manager 2 {c = node (codes "c")} (omega arith)
      (omega arith) refl (λ s. refl)

-- The primary node answers again between the load and the store of `activeIndex++`, and the search
-- then moves on to the second node.
raced : Reach (world manager idle 1) (world (record manager { active_index = 1 }) idle 1)
unfolding restore_primary
raced = unhealthy then test_below refl then load then restored then store then answered then done

Reach-active_example :
    let recovered = record manager { active_index = 1 } in
    IsValid nodes recovered × ((c : RpcClient) × (get_active_client recovered ≡ ok c))
Reach-active_example =
    Reach-active nodes {s = manager} (record { nodes = refl; in_range = omega arith }) raced
