-- ===== src/Merkle/Tree.antt =====
-- The merkle tree of the protocol, over any hash function of byte strings.
use merged_mining_pool.Common.{
  ℕ, zero, suc, ◌≤◌, List, [], ◌∷◌, ◌++◌, arith, length, All, Bytes, IsByte,
}

module _ (hash : Bytes → Bytes) where
  -- The nodes above those of a level; the last node of an odd level is paired with itself.
  unfoldable pub level_above : List Bytes → List Bytes
  level_above [] = []
  level_above (a ∷ []) = hash (a ++ a) ∷ []
  level_above (a ∷ b ∷ rest) = hash (a ++ b) ∷ level_above rest

  -- `IsRoot leaves root`: the tree over the leaves has that root.
  pub data IsRoot : List Bytes → Bytes → Type 0 where
    single : {a : Bytes} → IsRoot (a ∷ []) a
    above :
        {a b root : Bytes} {rest : List Bytes}
        → IsRoot (level_above (a ∷ b ∷ rest)) root
        → IsRoot (a ∷ b ∷ rest) root

  -- Climbing from a leftmost leaf along its branch.
  abbrev pub climb : Bytes → List Bytes → Bytes
  climb block [] = block
  climb block (s ∷ steps) = climb (hash (block ++ s)) steps

  -- The siblings on the way from a leaf in front of `rest` to the root, in at most k levels.
  unfoldable pub siblings : ℕ → List Bytes → List Bytes
  unfolding level_above
  siblings zero rest = []
  siblings (suc k) [] = []
  siblings (suc k) (s ∷ rest) = s ∷ siblings k (level_above rest)

  pub length-level_above : (xs : List Bytes) → length (level_above xs) ≤ length xs
  unfolding level_above
  length-level_above [] = omega arith
  length-level_above (a ∷ []) = omega arith
  length-level_above (a ∷ b ∷ rest) = omega (arith, length-level_above rest)

  -- The climb ends in the root.
  pub climb-IsRoot :
      (k : ℕ) (block : Bytes) (rest : List Bytes)
      → length rest ≤ k
      → IsRoot (block ∷ rest) (climb block (siblings k rest))
  unfolding siblings
  climb-IsRoot zero block [] h = single
  climb-IsRoot zero block (s ∷ rest) h = absurd (omega arith)
  climb-IsRoot (suc k) block [] h = single
  climb-IsRoot (suc k) block (s ∷ rest) h = above (
      climb-IsRoot k (hash (block ++ s)) (level_above rest)
        (omega (arith, length-level_above rest)))

  pub level_above-IsByte :
      ((bs : Bytes) → All IsByte (hash bs)) → (xs : List Bytes) → All (All IsByte) (level_above xs)
  unfolding level_above
  level_above-IsByte h [] = tt
  level_above-IsByte h (a ∷ []) = (h (a ++ a), tt)
  level_above-IsByte h (a ∷ b ∷ rest) = (h (a ++ b), level_above-IsByte h rest)

  pub siblings-IsByte :
      ((bs : Bytes) → All IsByte (hash bs))
      → (k : ℕ) (xs : List Bytes) → All (All IsByte) xs
      → All (All IsByte) (siblings k xs)
  unfolding siblings
  siblings-IsByte h zero xs p = tt
  siblings-IsByte h (suc k) [] p = tt
  siblings-IsByte h (suc k) (s ∷ rest) (p, ps) =
      (p, siblings-IsByte h k (level_above rest) (level_above-IsByte h rest))

  level_above-keeps :
      (P : Bytes → Type 0)
      → ((bs : Bytes) → P (hash bs))
      → (xs : List Bytes) → All P (level_above xs)
  unfolding level_above
  level_above-keeps P h [] = tt
  level_above-keeps P h (a ∷ []) = (h (a ++ a), tt)
  level_above-keeps P h (a ∷ b ∷ rest) = (h (a ++ b), level_above-keeps P h rest)

  -- What every hash and every leaf has, the root has.
  pub IsRoot-keeps :
      (P : Bytes → Type 0)
      → ((bs : Bytes) → P (hash bs))
      → {leaves : List Bytes} {root : Bytes} → IsRoot leaves root
      → All P leaves
      → P root
  IsRoot-keeps P h single (p, _) = p
  IsRoot-keeps P h (above {a} {b} {rest = rest} up) p =
      IsRoot-keeps P h up (level_above-keeps P h (a ∷ b ∷ rest))
