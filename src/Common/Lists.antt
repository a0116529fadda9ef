-- ===== src/Common/Lists.antt =====
-- Lists measured and indexed by native numbers, under the library's names.
use Prim.Native.Nat.{ℕ, zero, suc, ◌+◌, ◌-◌, ◌<◌, ◌≤◌}
use mathlib.Core.Path.{◌≡◌, refl, ap, sym, ◌∙◌}
use mathlib.Core.List.{List, [], ◌∷◌, ◌++◌, map, reverse, reverse-append, append_assoc}
use mathlib.Core.Option.{Option, none, some}
use native.Mathlib.Omega.{arith}

module _ {ℓ} {A : Type ℓ} where
  abbrev pub length : List A → ℕ
  length [] = 0
  length (x ∷ xs) = suc (length xs)

  abbrev pub get_elem? : List A → ℕ → Option A
  get_elem? [] i = none
  get_elem? (x ∷ xs) zero = some x
  get_elem? (x ∷ xs) (suc i) = get_elem? xs i

  -- A write out of bounds changes nothing.
  abbrev pub set : List A → ℕ → A → List A
  set [] i v = []
  set (x ∷ xs) zero v = v ∷ xs
  set (x ∷ xs) (suc i) v = x ∷ set xs i v

  abbrev pub take : ℕ → List A → List A
  take zero xs = []
  take (suc n) [] = []
  take (suc n) (x ∷ xs) = x ∷ take n xs

  abbrev pub drop : ℕ → List A → List A
  drop zero xs = xs
  drop (suc n) [] = []
  drop (suc n) (x ∷ xs) = drop n xs

  abbrev pub replicate : ℕ → A → List A
  replicate zero a = []
  replicate (suc n) a = a ∷ replicate n a

module _ {ℓ} {A : Type ℓ} where
  abbrev pub All {κ} : (A → Type κ) → List A → Type κ
  All P [] = Unit {κ}
  All P (x ∷ xs) = P x × All P xs

  pub length-append : (xs ys : List A) → length (xs ++ ys) ≡ length xs + length ys
  length-append [] ys = omega arith
  length-append (x ∷ xs) ys = omega (arith, length-append xs ys)

  pub length-reverse : (xs : List A) → length (reverse xs) ≡ length xs
  length-reverse [] = refl
  length-reverse (x ∷ xs) =
      ap length (reverse-append (x ∷ []) xs)
      ∙ omega (arith, length-append (reverse xs) (x ∷ []), length-reverse xs)

  pub All-append {κ} : (P : A → Type κ) (xs ys : List A) → All P xs → All P ys → All P (xs ++ ys)
  All-append P [] ys p q = q
  All-append P (x ∷ xs) ys (p, ps) q = (p, All-append P xs ys ps q)

  pub All-reverse {κ} : (P : A → Type κ) (xs : List A) → All P xs → All P (reverse xs)
  All-reverse P [] p = p
  All-reverse P (x ∷ xs) (p, ps) =
      rw (reverse-append (x ∷ []) xs)
        (All-append P (reverse xs) (x ∷ []) (All-reverse P xs ps) (p, tt))

  pub length-set : (xs : List A) (i : ℕ) (v : A) → length (set xs i v) ≡ length xs
  length-set [] i v = refl
  length-set (x ∷ xs) zero v = refl
  length-set (x ∷ xs) (suc i) v = ap suc (length-set xs i v)

  pub length-replicate : (n : ℕ) (a : A) → length (replicate n a) ≡ n
  length-replicate zero a = refl
  length-replicate (suc n) a = ap suc (length-replicate n a)

  pub length-map {κ} : {B : Type κ} (f : A → B) (xs : List A) → length (map f xs) ≡ length xs
  length-map f [] = refl
  length-map f (x ∷ xs) = ap suc (length-map f xs)

  pub get_elem?-some : (xs : List A) (i : ℕ) → i < length xs → (a : A) × (get_elem? xs i ≡ some a)
  get_elem?-some [] i h = elim h [ ]
  get_elem?-some (x ∷ xs) zero h = (x, refl)
  get_elem?-some (x ∷ xs) (suc i) h = get_elem?-some xs i (omega arith)

  pub take-append : (s t : List A) {k : ℕ} → length s ≡ k → take k (s ++ t) ≡ s
  take-append [] t {k = zero} e = refl
  take-append [] t {k = suc k} e = absurd (omega arith)
  take-append (x ∷ s) t {k = zero} e = absurd (omega arith)
  take-append (x ∷ s) t {k = suc k} e = ap (λ r. x ∷ r) (take-append s t {k = k} (omega arith))

  pub drop-append : (s t : List A) {k : ℕ} → length s ≡ k → drop k (s ++ t) ≡ t
  drop-append [] t {k = zero} e = refl
  drop-append [] t {k = suc k} e = absurd (omega arith)
  drop-append (x ∷ s) t {k = zero} e = absurd (omega arith)
  drop-append (x ∷ s) t {k = suc k} e = drop-append s t {k = k} (omega arith)

  pub drop-append_le : (n : ℕ) (s t : List A) → n ≤ length s → drop n (s ++ t) ≡ drop n s ++ t
  drop-append_le zero s t h = refl
  drop-append_le (suc n) [] t h = absurd (omega arith)
  drop-append_le (suc n) (x ∷ s) t h = drop-append_le n s t (omega arith)

  pub take-append_le : (n : ℕ) (s t : List A) → n ≤ length s → take n (s ++ t) ≡ take n s
  take-append_le zero s t h = refl
  take-append_le (suc n) [] t h = absurd (omega arith)
  take-append_le (suc n) (x ∷ s) t h = ap (λ r. x ∷ r) (take-append_le n s t (omega arith))

  pub length-drop : (n : ℕ) (xs : List A) → length (drop n xs) ≡ length xs - n
  length-drop zero xs = omega arith
  length-drop (suc n) [] = omega arith
  length-drop (suc n) (x ∷ xs) = omega (arith, length-drop n xs)

  pub get_elem?-append :
      (s : List A) (x : A) (t : List A) {k : ℕ} → length s ≡ k → get_elem? (s ++ x ∷ t) k ≡ some x
  get_elem?-append [] x t {k = zero} e = refl
  get_elem?-append [] x t {k = suc k} e = absurd (omega arith)
  get_elem?-append (y ∷ s) x t {k = zero} e = absurd (omega arith)
  get_elem?-append (y ∷ s) x t {k = suc k} e = get_elem?-append s x t {k = k} (omega arith)

  pub set-append :
      (s : List A) (x y : A) (t : List A) {k : ℕ} → length s ≡ k → set (s ++ x ∷ t) k y ≡ s ++ y ∷ t
  set-append [] x y t {k = zero} e = refl
  set-append [] x y t {k = suc k} e = absurd (omega arith)
  set-append (z ∷ s) x y t {k = zero} e = absurd (omega arith)
  set-append (z ∷ s) x y t {k = suc k} e =
      ap (λ r. z ∷ r) (set-append s x y t {k = k} (omega arith))

  pub replicate-snoc : (n : ℕ) (a : A) → replicate (suc n) a ≡ replicate n a ++ a ∷ []
  replicate-snoc zero a = refl
  replicate-snoc (suc n) a = ap (λ r. a ∷ r) (replicate-snoc n a)

  pub reverse-cons_append : (x : A) (xs ys : List A) → reverse (x ∷ xs) ++ ys ≡ reverse xs ++ x ∷ ys
  reverse-cons_append x xs ys =
      rw (reverse-append (x ∷ []) xs) (append_assoc (reverse xs) (x ∷ []) ys)

  pub take-append-drop : (n : ℕ) (xs : List A) → take n xs ++ drop n xs ≡ xs
  take-append-drop zero xs = refl
  take-append-drop (suc n) [] = refl
  take-append-drop (suc n) (x ∷ xs) = rw (take-append-drop n xs)

-- The texts of a list, one behind the other.
abbrev pub join {ℓ} : {A : Type ℓ} → List (List A) → List A
join [] = []
join (w ∷ ws) = w ++ join ws

pub join-append {ℓ} : {A : Type ℓ} (vs ws : List (List A)) → join (vs ++ ws) ≡ join vs ++ join ws
join-append [] ws = refl
join-append (v ∷ vs) ws = rw (join-append vs ws) (sym (append_assoc v (join vs) (join ws)))
