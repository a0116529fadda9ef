-- ===== src/Payouts/Takes.antt =====
-- The first elements of a list, and the last of those.
use merged_mining_pool.Common.{
  ℕ, zero, suc, ◌≤◌, ◌≡◌, refl, ap, some, List, [], ◌∷◌, ◌++◌, arith, length, get_elem?, take, All,
}

-- The last element, and those in front of it.
pub last_of :
    {A : Type 0} (x : A) (xs : List A)
    → (front : List A) × (last : A) × (x ∷ xs ≡ front ++ last ∷ [])
      × (get_elem? (x ∷ xs) (length xs) ≡ some last)
last_of x [] = ([], x, refl, refl)
last_of x (y ∷ xs) =
    let (front, last, e, at) = last_of y xs in (x ∷ front, last, ap (λ r. x ∷ r) e, at)

pub take_all : {A : Type 0} (n : ℕ) (xs : List A) → length xs ≤ n → take n xs ≡ xs
take_all zero [] h = refl
take_all zero (x ∷ xs) h = absurd (omega arith)
take_all (suc n) [] h = refl
take_all (suc n) (x ∷ xs) h = ap (λ r. x ∷ r) (take_all n xs (omega arith))

pub length-take : {A : Type 0} (n : ℕ) (xs : List A) → n ≤ length xs → length (take n xs) ≡ n
length-take zero xs h = refl
length-take (suc n) [] h = absurd (omega arith)
length-take (suc n) (x ∷ xs) h = ap suc (length-take n xs (omega arith))

pub All-take : {A : Type 0} (Q : A → Type 0) (n : ℕ) (xs : List A) → All Q xs → All Q (take n xs)
All-take Q zero xs h = tt
All-take Q (suc n) [] h = tt
All-take Q (suc n) (x ∷ xs) (h, hs) = (h, All-take Q n xs hs)
