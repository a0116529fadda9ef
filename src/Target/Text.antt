-- ===== src/Target/Text.antt =====
-- A target that is printed is read back.
use merged_mining_pool.Common.{
  ℕ, zero, suc, ◌+◌, ◌*◌, ◌/◌, ◌%◌, ◌^◌, ◌<◌, ◌≡◌, refl, sym, ap, ◌∙◌, inl, inr, false, some, [],
  ◌∷◌, ◌++◌, arith, ltb, ◌==◌, Bool-cases, Option-cases, lt→ltb, ltb→lt, Bytes,
}
use native.Mathlib.Nat.{pow-suc}
use merged_mining_pool.Common.Int.{pos}
use merged_mining_pool.Hex.{hex_digit, hex_value}
use merged_mining_pool.Hex.RoundTrip.{hex_value-hex_digit}
use merged_mining_pool.Target.{digits_value, opt_map, parse_digits, to_big, text_digits, text_16}

digits_value-snoc :
    (acc v d x : ℕ) (s : Bytes)
    → digits_value acc s ≡ some v
    → hex_value x ≡ some d
    → digits_value acc (s ++ x ∷ []) ≡ some (16 * v + d)
digits_value-snoc acc v d x [] e h = ground (arith)
digits_value-snoc acc v d x (y ∷ s) e h = elim (Option-cases (hex_value y)) [
  | inl none_there ↦ ground (arith, none_there)
  | inr (b, there) ↦ ground (arith, there, digits_value-snoc (16 * acc + b) v d x s)
]

-- What is printed has a digit in front, and stands for the number.
record Prints (n : ℕ) (t : Bytes) : Type 0 where
  head : ℕ
  rest : Bytes
  digit : ℕ
  shape : t ≡ head ∷ rest
  is_digit : hex_value head ≡ some digit
  value : digits_value 0 t ≡ some n

one_digit : (n : ℕ) → n < 16 → Prints n (hex_digit n ∷ [])
one_digit n h = record {
  head = hex_digit n;
  rest = [];
  digit = n;
  shape = refl;
  is_digit = hex_value-hex_digit n h;
  value = ground (arith, hex_value-hex_digit n h);
}

text_digits-Prints : (k n : ℕ) → n < 16 ^ suc k → Prints n (text_digits (suc k) n)
text_digits-Prints zero n h = rw (lt→ltb n 16 (omega arith)) (one_digit n (omega arith))
text_digits-Prints (suc k) n h = elim (Bool-cases (ltb n 16)) [
  | inl small ↦ rw small (one_digit n (ltb→lt n 16 small))
  | inr large ↦
      let p = text_digits-Prints k (n / 16) (omega (arith, pow-suc 16 (suc k))) in
      let last = hex_value-hex_digit (n % 16) (omega arith) in
      rw large (record {
        head = p.head;
        rest = p.rest ++ hex_digit (n % 16) ∷ [];
        digit = p.digit;
        shape = ap (λ t. t ++ hex_digit (n % 16) ∷ []) p.shape;
        is_digit = p.is_digit;
        value =
            digits_value-snoc 0 (n / 16) (n % 16) (hex_digit (n % 16))
              (text_digits (suc k) (n / 16)) p.value last
            ∙ ap some (omega arith);
      })
]

no_sign : (x d : ℕ) → hex_value x ≡ some d → ((x == b'-') ≡ false) × ((x == b'+') ≡ false)
unfolding hex_value
no_sign x d h = ground arith

to_big-digits : (n : ℕ) (t : Bytes) → Prints n t → to_big t ≡ some (pos n)
unfolding to_big parse_digits
to_big-digits n t p =
    ap to_big p.shape
    ∙ rw ((no_sign p.head p.digit p.is_digit).0, (no_sign p.head p.digit p.is_digit).1)
        (ap (opt_map pos) (ap (digits_value 0) (sym p.shape) ∙ p.value))

-- The text of a number below 16 ^ 400 is read back as that number.
pub to_big-text_16 : (n : ℕ) → n < 16 ^ 400 → to_big (text_16 (some (pos n))) ≡ some (pos n)
unfolding text_16
to_big-text_16 n h = to_big-digits n (text_digits 400 n) (text_digits-Prints 399 n h)
