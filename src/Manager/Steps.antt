-- ===== src/Manager/Steps.antt =====
-- The manager while one search for a healthy node and the launched loops that return to the primary
-- node run side by side, without a lock: a step is one access to the index.
use merged_mining_pool.Common.{
  ℕ, suc, ◌+◌, ◌-◌, ◌<◌, ◌≡◌, ap, true, false, List, arith, ltb, length, ltb→lt, get_elem?-some, ok,
}
use merged_mining_pool.Manager.{RpcClient, Manager, get_active_client, restore_primary}

-- Where the search stands, with the number of nodes that it may still check: before `nextNode`,
-- behind the test in it, behind the load of `activeIndex++`, behind a failed test, and waiting for
-- the answer of a node. Only the loop that fetches work searches, so there is one search at a time.
pub data Phase : Type 0 where
  idle : Phase
  searching tested wrapping checking : ℕ → Phase
  loaded : ℕ → ℕ → Phase

-- The manager, the search, and the number of launched loops, which wait until the primary node
-- answers.
pub data World : Type 0 where
  world : Manager → Phase → ℕ → World

abbrev pub manager_of : World → Manager
manager_of (world m phase launched) = m

abbrev phase_of : World → Phase
phase_of (world m phase launched) = phase

-- The nodes answer what they like. A launched loop stores zero at any time, and ends.
pub data Step : World → World → Type 0 where
  unhealthy :
      {m : Manager} {n : ℕ} → Step (world m idle n) (world m (searching (length m.clients)) n)
  given_up : {m : Manager} {n : ℕ} → Step (world m (searching 0) n) (world m idle n)
  test_below :
      {m : Manager} {left n : ℕ}
      → ltb m.active_index (length m.clients - 1) ≡ true
      → Step (world m (searching (suc left)) n) (world m (tested left) n)
  test_last :
      {m : Manager} {left n : ℕ}
      → ltb m.active_index (length m.clients - 1) ≡ false
      → Step (world m (searching (suc left)) n) (world m (wrapping left) n)
  load :
      {m : Manager} {left n : ℕ}
      → Step (world m (tested left) n) (world m (loaded left m.active_index) n)
  store :
      {m : Manager} {left i n : ℕ}
      → Step
          (world m (loaded left i) n)
          (world (record m { active_index = i + 1 }) (checking left) n)
  wrap :
      {m : Manager} {left n : ℕ}
      → Step (world m (wrapping left) n) (world (record m { active_index = 0 }) (checking left) n)
  refused :
      {m : Manager} {left n : ℕ} → Step (world m (checking left) n) (world m (searching left) n)
  answered : {m : Manager} {left n : ℕ} → Step (world m (checking left) n) (world m idle (suc n))
  restored :
      {m : Manager} {phase : Phase} {n : ℕ}
      → Step (world m phase (suc n)) (world (restore_primary m) phase n)

infixr 4 ◌then◌
pub data Reach : World → World → Type 0 where
  done : {w : World} → Reach w w
  ◌then◌ : {u v w : World} → Step u v → Reach v w → Reach u w

-- The index is in range, and the nodes are those of the configuration.
pub record IsValid (clients : List RpcClient) (m : Manager) : Type 0 where
  pub nodes : m.clients ≡ clients
  pub in_range : m.active_index < length clients

module _ (clients : List RpcClient) where
  -- What the search relies on: what it tested or loaded stays true while others store zero.
  abbrev HoldsAt : Manager → Phase → Type 0
  HoldsAt m (tested left) = m.active_index + 1 < length clients
  HoldsAt m (loaded left i) = i + 1 < length clients
  HoldsAt m _ = Unit {0}

  abbrev Invariant : World → Type 0
  Invariant w = IsValid clients (manager_of w) × HoldsAt (manager_of w) (phase_of w)

  moved :
      {m : Manager} (i : ℕ)
      → IsValid clients m
      → i < length clients
      → IsValid clients (record m { active_index = i })
  moved i v h = record { nodes = v.nodes; in_range = h }

  after_restore :
      {m : Manager} (phase : Phase)
      → IsValid clients m
      → HoldsAt m phase
      → HoldsAt (record m { active_index = 0 }) phase
  after_restore idle v h = tt
  after_restore (searching left) v h = tt
  after_restore (tested left) v h = omega arith
  after_restore (wrapping left) v h = tt
  after_restore (checking left) v h = tt
  after_restore (loaded left i) v h = h

  Step-Invariant : {u w : World} → Step u w → Invariant u → Invariant w
  unfolding restore_primary
  Step-Invariant unhealthy (v, h) = (v, tt)
  Step-Invariant given_up (v, h) = (v, tt)
  Step-Invariant (test_below below) (v, h) =
      (v, omega (arith, v.in_range, ap length v.nodes, ltb→lt _ _ below))
  Step-Invariant (test_last last) (v, h) = (v, tt)
  Step-Invariant load (v, h) = (v, h)
  Step-Invariant (store {i}) (v, h) = (moved (i + 1) v h, tt)
  Step-Invariant wrap (v, h) = (moved 0 v (omega (arith, v.in_range)), tt)
  Step-Invariant refused (v, h) = (v, tt)
  Step-Invariant answered (v, h) = (v, tt)
  Step-Invariant (restored {phase}) (v, h) =
      (moved 0 v (omega (arith, v.in_range)), after_restore phase v h)

  Reach-Invariant : {u w : World} → Reach u w → Invariant u → Invariant w
  Reach-Invariant done v = v
  Reach-Invariant (step then steps) v = Reach-Invariant steps (Step-Invariant step v)

  client_at : {m : Manager} → IsValid clients m → (c : RpcClient) × (get_active_client m ≡ ok c)
  unfolding get_active_client
  client_at {m} v =
      let (c, at) =
        get_elem?-some m.clients m.active_index (omega (arith, v.in_range, ap length v.nodes)) in
      (c, rw at)

  -- From a valid manager on, however the single accesses of the search and of any number of
  -- launched loops interleave, and whatever the nodes answer, the index stays in range and the nodes
  -- stay what they were, so the active client exists.
  pub Reach-active :
      {s : Manager} {launched : ℕ} {w : World}
      → IsValid clients s
      → Reach (world s idle launched) w
      → IsValid clients (manager_of w)
        × ((c : RpcClient) × (get_active_client (manager_of w) ≡ ok c))
  Reach-active v r = let (valid, _) = Reach-Invariant r (v, tt) in (valid, client_at valid)
