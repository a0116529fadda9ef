-- ===== src/AuxMerkle/Climb.antt =====
-- The branch that `buildMerkleBranchesAndMask` returns leads to the root of `buildMerkleRoot`.
use merged_mining_pool.Common.{
  ℕ, zero, suc, ◌+◌, ◌-◌, ◌*◌, ◌/◌, ◌%◌, ◌^◌, ◌≤◌, ◌<◌, ◌≡◌, refl, sym, ap, ◌∙◌, ◌⊎◌, inl, inr,
  true, some, List, [], ◌∷◌, ◌++◌, append-nil, append_assoc, arith, ltb, ◌==◌, if◌then◌else◌,
  Bool-cases, length, get_elem?, lt→ltb, ok, ◌>>=◌, Bytes, bytes_eq, bytes_eq_refl, eq_of_bytes_eq,
}
use native.Mathlib.Nat.{pow-suc}
use merged_mining_pool.Hex.{hex_decode_prefix}
use merged_mining_pool.Crypto.{Crypto, utils_double_sha256}
use merged_mining_pool.Template.{AuxBlock}
use merged_mining_pool.Encoding.{reverse_bytes}
use merged_mining_pool.AuxMerkle.{
  build_merkle_leaf, mask_of, search_hash, sibling_index, join_all, branch_loop, nth_block,
  build_merkle_branches_and_mask, join_or_double, root_loop, build_merkle_root,
}

-- The loop leaves what it was given, or stops at an index whose slot holds the hash.
IsFound : Bytes → List Bytes → ℕ → ℕ × Bytes → Type 0
IsFound searched slots start r =
    (j : ℕ) × (r ≡ (start + j, mask_of (start + j))) × (get_elem? slots j ≡ some searched)

next_slot :
    (searched x : Bytes) (slots : List Bytes) (start : ℕ) (r : ℕ × Bytes)
    → IsFound searched slots (start + 1) r
    → IsFound searched (x ∷ slots) start r
unfolding IsFound
next_slot searched x slots start r (j, e, at) =
    (suc j, e ∙ ap (λ (m : ℕ). (m, mask_of m)) (omega arith), at)

this_slot :
    (searched x : Bytes) (slots : List Bytes) (start : ℕ) (found : ℕ × Bytes)
    → x ≡ searched
    → search_hash searched slots (start + 1) (start, mask_of start) ≡ (start, mask_of start)
    → IsFound searched (x ∷ slots) start (search_hash searched (x ∷ slots) start found)
unfolding IsFound search_hash
this_slot searched x slots start found e kept = (
  0,
  ap (search_hash searched slots (start + 1)) (rw (e, bytes_eq_refl searched))
      ∙ kept
      ∙ ap (λ (m : ℕ). (m, mask_of m)) (omega arith),
  ap some e,
)

search_cases :
    (searched : Bytes) (slots : List Bytes) (start : ℕ) (found : ℕ × Bytes)
    → (search_hash searched slots start found ≡ found)
      ⊎ IsFound searched slots start (search_hash searched slots start found)
unfolding search_hash
search_cases searched [] start found = inl refl
search_cases searched (x ∷ slots) start found = elim (Bool-cases (bytes_eq x searched)) [
  | inl here ↦ elim (search_cases searched slots (start + 1) (start, mask_of start)) [
    | inl kept ↦ inr (this_slot searched x slots start found (eq_of_bytes_eq x searched here) kept)
    | inr later ↦ inr (rw here (next_slot searched x slots start _ later))
  ]
  | inr gone ↦ elim (search_cases searched slots (start + 1) found) [
    | inl kept ↦ inl (rw gone kept)
    | inr later ↦ inr (rw gone (next_slot searched x slots start _ later))
  ]
]

search-IsFound :
    (searched : Bytes) (slots : List Bytes) (j start : ℕ) (found : ℕ × Bytes)
    → get_elem? slots j ≡ some searched
    → IsFound searched slots start (search_hash searched slots start found)
unfolding search_hash
search-IsFound searched [] j start found at = cc
search-IsFound searched (x ∷ slots) zero start found at =
    let here : x ≡ searched = cc in
    elim (search_cases searched slots (start + 1) (start, mask_of start)) [
      | inl kept ↦ this_slot searched x slots start found here kept
      | inr later ↦
          rw (here, bytes_eq_refl searched) (next_slot searched searched slots start _ later)
    ]
search-IsFound searched (x ∷ slots) (suc j) start found at =
    next_slot searched x slots start _ (search-IsFound searched slots j (start + 1) _ at)

-- The climb of a verifier: the bits of the index tell on which side the node stands.
abbrev pub climb_at : (Bytes → Bytes) → ℕ → Bytes → List Bytes → Bytes
climb_at hash index node [] = node
climb_at hash index node (s ∷ branch) =
    climb_at hash (index / 2) (if index % 2 == 0 then hash (node ++ s) else hash (s ++ node)) branch

sibling_two : (i : ℕ) → sibling_index (suc (suc i)) ≡ suc (suc (sibling_index i))
sibling_two i = ground arith

half_two : (i : ℕ) → suc (suc i) / 2 ≡ suc (i / 2)
half_two i = omega arith

parity_two : (i : ℕ) → suc (suc i) % 2 ≡ i % 2
parity_two i = omega arith

twice : (k : ℕ) → 2 ^ suc k ≡ 2 * 2 ^ k
twice k = omega (arith, pow-suc 2 k)

one-le-pow : (k : ℕ) → 1 ≤ 2 ^ k
one-le-pow zero = omega arith
one-le-pow (suc k) = omega (arith, one-le-pow k, pow-suc 2 k)

lt-pow : (k : ℕ) → k < 2 ^ k
lt-pow zero = omega arith
lt-pow (suc k) = omega (arith, lt-pow k, pow-suc 2 k)

several : (k : ℕ) (level : List Bytes) → length level ≡ 2 ^ suc k → ltb 1 (length level) ≡ true
several k level e = lt→ltb 1 (length level) (omega (arith, one-le-pow k, pow-suc 2 k))

module _ (c : Crypto) where
  abbrev hash : Bytes → Bytes
  hash = utils_double_sha256 c

  join_all-even :
      (m : ℕ) (level : List Bytes)
      → length level ≡ 2 * m
      → (join_all c level ≡ ok (join_or_double c level)) × (length (join_or_double c level) ≡ m)
  unfolding join_all join_or_double
  join_all-even m [] e = (refl, omega arith)
  join_all-even m (a ∷ []) e = absurd (omega arith)
  join_all-even m (a ∷ b ∷ rest) e =
      let (same, size) = join_all-even (m - 1) rest (omega arith) in (rw same, omega arith)

  -- The sibling of a node, and the node above both.
  pair_at :
      (m index : ℕ) (level : List Bytes) {x : Bytes}
      → length level ≡ 2 * m
      → get_elem? level index ≡ some x
      → (s : Bytes) × (get_elem? level (sibling_index index) ≡ some s)
        × (get_elem? (join_or_double c level) (index / 2)
            ≡ some (if index % 2 == 0 then hash (x ++ s) else hash (s ++ x)))
  unfolding join_or_double
  pair_at m index [] e at = cc
  pair_at m index (a ∷ []) e at = absurd (omega arith)
  pair_at m zero (a ∷ b ∷ rest) {x} e at = (b, refl, rw (at_head))
    where
      at_head : a ≡ x
      at_head = cc
  pair_at m (suc zero) (a ∷ b ∷ rest) {x} e at = (a, refl, rw (at_next))
    where
      at_next : b ≡ x
      at_next = cc
  pair_at m (suc (suc index)) (a ∷ b ∷ rest) {x} e at =
      let (s, beside, up) = pair_at (m - 1) index rest (omega arith) at in
      (
        s,
        ap (get_elem? (a ∷ b ∷ rest)) (sibling_two index) ∙ beside,
        ap (get_elem? (join_or_double c (a ∷ b ∷ rest))) (half_two index)
            ∙ up
            ∙ rw (parity_two index),
      )

  -- Rounds of both loops on a level of 2 ^ k nodes.
  loops_climb :
      (k rounds index : ℕ) (level acc : List Bytes) {x : Bytes}
      → length level ≡ 2 ^ k
      → k < rounds
      → get_elem? level index ≡ some x
      → (branch : List Bytes) × (root : Bytes) × (branch_loop c rounds level index acc
          ≡ ok (acc ++ branch))
        × (root_loop c rounds level ≡ ok root)
        × (climb_at hash index x branch ≡ root)
        × (length branch ≡ k)
  unfolding branch_loop root_loop
  loops_climb k zero index level acc e h at = absurd (omega arith)
  loops_climb zero (suc rounds) index [] acc e h at = cc
  loops_climb zero (suc rounds) zero (a ∷ []) acc {x} e h at =
      ([], x, ap ok (sym (append-nil acc)), ap ok (cc), refl, refl)
  loops_climb zero (suc rounds) (suc index) (a ∷ []) acc e h at = cc
  loops_climb zero (suc rounds) index (a ∷ b ∷ level) acc e h at = absurd (omega arith)
  loops_climb (suc k) (suc rounds) index level acc {x} e h at =
      let (s, beside, up) = pair_at (2 ^ k) index level (e ∙ twice k) at in
      let (joined, size) = join_all-even (2 ^ k) level (e ∙ twice k) in
      let (branch, root, found, top, climbs, count) =
        loops_climb k rounds (index / 2) (join_or_double c level) (acc ++ s ∷ []) size (omega arith)
          up in
      (
        s ∷ branch,
        root,
        rw (several k level e, beside, joined) (found ∙ ap ok (append_assoc acc (s ∷ []) branch)),
        rw (several k level e) top,
        climbs,
        ap suc count,
      )

  searched_at :
      (rounds : ℕ) (leaves : List Bytes) (r : ℕ × Bytes) (index : ℕ) (branch : List Bytes)
      → r ≡ (index, mask_of index)
      → branch_loop c rounds leaves index [] ≡ ok branch
      → ◌>>=◌ {A = List Bytes × Bytes} (branch_loop c rounds leaves r.0 []) (λ b. ok (b, r.1))
        ≡ ok (branch, mask_of index)
  searched_at rounds leaves r index branch e found = rw (e, found)

  -- If the leaves of 2 ^ k slots are built and hold the hash of the n-th block, then
  -- `buildMerkleBranchesAndMask` and `buildMerkleRoot`, called with that same number of slots,
  -- both return; the mask is that of a slot which holds the hash; the branch has k nodes; and the
  -- climb from the hash along the branch, at that slot, ends in the root.
  pub build_merkle_branches_and_mask-climbs :
      (k : ℕ) (blocks : List AuxBlock) (n j : ℕ) {leaves : List Bytes} {block : AuxBlock}
      → let searched = reverse_bytes (hex_decode_prefix block.hash).0 in
        build_merkle_leaf (2 ^ k) blocks ≡ ok leaves
        → length leaves ≡ 2 ^ k
        → nth_block blocks n ≡ ok block
        → get_elem? leaves j ≡ some searched
        → (index : ℕ) × (branch : List Bytes) × (root : Bytes) × (build_merkle_branches_and_mask c
              (2 ^ k)
              blocks
              n
            ≡ ok (branch, mask_of index))
          × (build_merkle_root c (2 ^ k) blocks ≡ ok root)
          × (get_elem? leaves index ≡ some searched)
          × (length branch ≡ k)
          × (climb_at hash index searched branch ≡ root)
  unfolding build_merkle_branches_and_mask build_merkle_root IsFound
  build_merkle_branches_and_mask-climbs k blocks n j {leaves} {block} built size chosen at =
      let searched = reverse_bytes (hex_decode_prefix block.hash).0 in
      let (index, e, held) = search-IsFound searched leaves j 0 (0, []) at in
      let (branch, root, found, top, climbs, count) =
        loops_climb k (suc (length leaves)) index leaves [] size (omega (arith, lt-pow k)) held in
      (
        index,
        branch,
        root,
        rw (built, chosen)
            (searched_at (suc (length leaves)) leaves _ index branch
              (e ∙ ap (λ (m : ℕ). (m, mask_of m)) (omega arith)) found),
        rw built top,
        held,
        count,
        climbs,
      )
