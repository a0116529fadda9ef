-- ===== src/Payouts/Numbers.antt =====
-- The numbers of the rows of blocks.
use merged_mining_pool.Common.{
  ℕ, zero, suc, ◌<◌, ◌≡◌, refl, ap, some, List, [], ◌∷◌, ◌++◌, map, arith, Bool-cases, inl, inr,
  ◌==◌, get_elem?, All,
}
use mathlib.Core.Path.{subst}
use merged_mining_pool.Rows.{Found}
use merged_mining_pool.Storage.{Database}
use merged_mining_pool.Storage.Blocks.{updated_row}
use merged_mining_pool.Payouts.Unlocked.{IsNumbered}

-- Numbers that rise and stay below `n`.
abbrev pub IsRising : List ℕ → ℕ → Type 0
IsRising [] n = Unit
IsRising (x ∷ xs) n = (x < n) × (All (λ y. x < y) xs × IsRising xs n)

above : (x n : ℕ) (xs : List ℕ) → x < n → All (λ y. x < y) xs → All (λ y. x < y) (xs ++ n ∷ [])
above x n [] h p = (h, tt)
above x n (y ∷ xs) h (p, ps) = (p, above x n xs h ps)

pub IsRising-snoc : (xs : List ℕ) (n : ℕ) → IsRising xs n → IsRising (xs ++ n ∷ []) (suc n)
IsRising-snoc [] n h = (omega arith, (tt, tt))
IsRising-snoc (x ∷ xs) n (h, (hs, rest)) =
    (omega arith, (above x n xs h hs, IsRising-snoc xs n rest))

at_above :
    (x : ℕ) (xs : List ℕ) (i : ℕ) {y : ℕ} → All (λ y. x < y) xs → get_elem? xs i ≡ some y → x < y
at_above x [] i h e = cc
at_above x (z ∷ xs) zero {y} (h, hs) e = let same : z ≡ y = cc in subst (λ k. x < k) same h
at_above x (z ∷ xs) (suc i) (h, hs) e = at_above x xs i hs e

rising_places :
    (xs : List ℕ) (n i j : ℕ) {a b : ℕ}
    → IsRising xs n
    → get_elem? xs i ≡ some a
    → get_elem? xs j ≡ some b
    → a ≡ b
    → i ≡ j
rising_places [] n i j h p q e = cc
rising_places (x ∷ xs) n zero zero h p q e = refl
rising_places (x ∷ xs) n zero (suc j) {a} {b} (h, (hs, rest)) p q e =
    let same : x ≡ a = cc in absurd (omega (arith, at_above x xs j hs q))
rising_places (x ∷ xs) n (suc i) zero {a} {b} (h, (hs, rest)) p q e =
    let same : x ≡ b = cc in absurd (omega (arith, at_above x xs i hs p))
rising_places (x ∷ xs) n (suc i) (suc j) (h, (hs, rest)) p q e =
    ap suc (rising_places xs n i j rest p q e)

module _ {F : Type 0} where
  abbrev pub ids : List (Found F) → List ℕ
  ids [] = []
  ids (b ∷ bs) = b.id ∷ ids bs

  -- The rows stand in the order of their numbers, and the next number is new.
  abbrev pub IsOrdered : Database F → Type 0
  IsOrdered d = IsRising (ids d.blocks) d.next_id

  id_at :
      (bs : List (Found F)) (i : ℕ) {r : Found F}
      → get_elem? bs i ≡ some r
      → get_elem? (ids bs) i ≡ some r.id
  id_at [] i h = cc
  id_at (b ∷ bs) zero {r} h = let same : b ≡ r = cc in ap (λ (z : Found F). some z.id) same
  id_at (b ∷ bs) (suc i) h = id_at bs i h

  pub IsOrdered-IsNumbered : (d : Database F) → IsOrdered d → IsNumbered d
  IsOrdered-IsNumbered d h i j r s at_i at_j same =
      rising_places (ids d.blocks) d.next_id i j h (id_at d.blocks i at_i) (id_at d.blocks j at_j)
        same

  pub ids-snoc : (bs : List (Found F)) (b : Found F) → ids (bs ++ b ∷ []) ≡ ids bs ++ b.id ∷ []
  ids-snoc [] b = refl
  ids-snoc (c ∷ bs) b = ap (λ r. c.id ∷ r) (ids-snoc bs b)

  pub ids-updated :
      (b : Found F) (rows : List (Found F)) → ids (map (updated_row b) rows) ≡ ids rows
  ids-updated b [] = refl
  ids-updated b (r ∷ rows) = elim (Bool-cases (r.id == b.id)) [
    | inl e ↦ rw e (ap (λ z. r.id ∷ z) (ids-updated b rows))
    | inr e ↦ rw e (ap (λ z. r.id ∷ z) (ids-updated b rows))
  ]

  pub row_of_append :
      (bs : List (Found F)) (b : Found F) (i : ℕ) {r : Found F}
      → get_elem? bs i ≡ some r
      → get_elem? (bs ++ b ∷ []) i ≡ some r
  row_of_append [] b i h = cc
  row_of_append (c ∷ bs) b zero h = h
  row_of_append (c ∷ bs) b (suc i) h = row_of_append bs b i h
