-- ===== src/Manager/Failover.antt =====
-- `FindHealthyNode` tries every node once, in order, and ends.
use merged_mining_pool.Common.{
  ℕ, zero, suc, ◌+◌, ◌-◌, ◌≤◌, ◌<◌, ◌≡◌, refl, sym, ap, ◌∙◌, ◌⊎◌, inl, inr, Bool, true, false, some,
  List, arith, ltb, if◌then◌else◌, Bool-cases, length, get_elem?, get_elem?-some, Error, Result, ok,
  err,
}
use merged_mining_pool.Manager.{
  RpcClient, Manager, get_active_client, next_node, check_active_node_health, find_loop,
  find_healthy_node,
}

-- The index of the next node, with wrap-around.
abbrev pub next_index : ℕ → ℕ → ℕ
next_index n i = if ltb i (n - 1) then i + 1 else 0

-- The index after k more nodes.
abbrev pub index_after : ℕ → ℕ → ℕ → ℕ
index_after n i zero = i
index_after n i (suc k) = index_after n (next_index n i) k

next_index-lt : (n i : ℕ) → 0 < n → next_index n i < n
next_index-lt n i h = ground arith

pub index_after-lt : (n i k : ℕ) → i < n → index_after n i k < n
index_after-lt n i zero h = h
index_after-lt n i (suc k) h = index_after-lt n (next_index n i) k (next_index-lt n i (omega arith))

wraps :
    (n i k : ℕ) → i < n → k ≤ n → index_after n i k ≡ (if ltb (i + k) n then i + k else i + k - n)
wraps n i zero h b = ground arith
wraps n i (suc k) h b = ground (arith, wraps n (next_index n i) k, next_index-lt n i)

full_circle : (n i : ℕ) → i < n → index_after n i n ≡ i
full_circle n i h = ground (arith, wraps n i n)

-- Every node is met in one of n rounds.
reaches : (n i j : ℕ) → i < n → j < n → (k : ℕ) × (k < n) × (index_after n i (suc k) ≡ j)
reaches n i j h b = elim (Bool-cases (ltb i j)) [
  | inl ahead ↦
      (j - i - 1, ground arith, wraps n i (suc (j - i - 1)) h (ground arith) ∙ ground arith)
  | inr behind ↦
      (j + n - i - 1, ground arith, wraps n i (suc (j + n - i - 1)) h (ground arith) ∙ ground arith)
]

module _ (check : ℕ → RpcClient → Bool) where
  -- The k-th request of a search from index i, asked at time t, is answered by b.
  abbrev pub Answers : List RpcClient → ℕ → ℕ → ℕ → Bool → Type 0
  Answers clients i t k b =
      (c : RpcClient) × (get_elem? clients (index_after (length clients) i (suc k)) ≡ some c)
      × (check (t + k) c ≡ b)

  -- What a search of `left` nodes comes to.
  pub record Fails (left t : ℕ) (m m' : Manager) : Type 0 where
    pub index : m'.active_index ≡ index_after (length m.clients) m.active_index left
    pub refused : (k : ℕ) → k < left → Answers m.clients m.active_index t k false

  pub record Finds (left t : ℕ) (m m' : Manager) : Type 0 where
    pub round : ℕ
    pub within : round < left
    pub index : m'.active_index ≡ index_after (length m.clients) m.active_index (suc round)
    pub healthy : Answers m.clients m.active_index t round true

  next_node-eq :
      (m : Manager)
      → next_node m ≡ record m { active_index = next_index (length m.clients) m.active_index }
  unfolding next_node
  next_node-eq m = ground arith

  -- The two ways in which the loop ends.
  abbrev Ends : ℕ → ℕ → Manager → Manager × Result (Unit {0}) → Type 0
  Ends left t m r =
      ((r.1 ≡ ok tt) × Finds left t m r.0)
      ⊎ ((r.1 ≡ err Error.no_healthy_node) × Fails left t m r.0)

  later :
      (left t : ℕ) (m : Manager) (r : Manager × Result (Unit {0})) {c : RpcClient}
      → let m' = record m { active_index = next_index (length m.clients) m.active_index } in
        get_elem? m.clients m'.active_index ≡ some c
        → check t c ≡ false
        → Ends left (t + 1) m' r
        → Ends (suc left) t m r
  later left t m r {c} at bad (inl (e, f)) = inl (
    e,
    record {
      round = suc f.round;
      within = omega (arith, f.within);
      index = f.index;
      healthy = (
        f.healthy.0,
        f.healthy.1,
        ap (λ (s : ℕ). check s f.healthy.0) (omega arith) ∙ f.healthy.2,
      );
    },
  )
  later left t m r {c} at bad (inr (e, f)) = inr (e, record { index = f.index; refused = shifted })
    where
      shifted : (k : ℕ) → k < suc left → Answers m.clients m.active_index t k false
      shifted zero b = (c, at, ap (λ (s : ℕ). check s c) (omega arith) ∙ bad)
      shifted (suc k) b =
          let (x, there, no_answer) = f.refused k (omega arith) in
          (x, there, ap (λ (s : ℕ). check s x) (omega arith) ∙ no_answer)

  find_loop-Ends :
      (left t : ℕ) (m : Manager)
      → m.active_index < length m.clients
      → Ends left t m (find_loop check left t m)
  unfolding find_loop check_active_node_health get_active_client
  find_loop-Ends zero t m h =
      inr (refl, record { index = refl; refused = λ k b. absurd (omega arith) })
  find_loop-Ends (suc left) t m h =
      let i = next_index (length m.clients) m.active_index in
      let m' = record m { active_index = i } in
      let (c, at) = get_elem?-some m.clients i (next_index-lt _ m.active_index (omega arith)) in
      rw (next_node-eq m, at)
        (elim (Bool-cases (check t c)) [
          | inl good ↦ rw good (
              inl (
                refl,
                record {
                  round = 0;
                  within = omega arith;
                  index = refl;
                  healthy = (c, at, ap (λ (s : ℕ). check s c) (omega arith) ∙ good);
                },
              ))
          | inr bad ↦ rw bad (
              later left t m (find_loop check left (t + 1) m') at bad
                (find_loop-Ends left (t + 1) m' (next_index-lt _ m.active_index (omega arith))))
        ])

  -- For a manager whose index is in range the search ends, in one of two ways. It succeeds within
  -- as many rounds as there are nodes, and leaves the index at the node that answered in that
  -- round; or it fails, every round's node has refused, and the index is back where it was.
  pub find_healthy_node-ends :
      (t : ℕ) (m : Manager)
      → m.active_index < length m.clients
      → (((find_healthy_node check t m).1 ≡ ok tt)
          × Finds (length m.clients) t m (find_healthy_node check t m).0)
        ⊎ (((find_healthy_node check t m).1 ≡ err Error.no_healthy_node)
            × ((find_healthy_node check t m).0.active_index ≡ m.active_index)
            × ((k : ℕ) → k < length m.clients → Answers m.clients m.active_index t k false))
  unfolding find_healthy_node
  find_healthy_node-ends t m h = elim (find_loop-Ends (length m.clients) t m h) [
    | inl found ↦ inl found
    | inr (e, f) ↦ inr (e, f.index ∙ full_circle (length m.clients) m.active_index h, f.refused)
  ]

  -- If some node answers at every time, the search succeeds.
  pub find_healthy_node-succeeds :
      (t : ℕ) (m : Manager) (j : ℕ) {c : RpcClient}
      → m.active_index < length m.clients
      → j < length m.clients
      → get_elem? m.clients j ≡ some c
      → ((s : ℕ) → check s c ≡ true)
      → (find_healthy_node check t m).1 ≡ ok tt
  find_healthy_node-succeeds t m j {c} h b at well = elim (find_healthy_node-ends t m h) [
    | inl (e, f) ↦ e
    | inr (e, _, refused) ↦
        let (k, within, met) = reaches (length m.clients) m.active_index j h b in
        let (x, there, no_answer) = refused k within in
        let same : some c ≡ some x = sym at ∙ ap (get_elem? m.clients) (sym met) ∙ there in
        cc (well (t + k))
  ]
