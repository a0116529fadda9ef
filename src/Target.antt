-- ===== src/Target.antt =====
-- bitcoin/target.go: targets as hex text, and difficulties.
pub mod Text
pub mod FromBits
use merged_mining_pool.Common.{
  ℕ, zero, suc, ◌+◌, ◌-◌, ◌*◌, ◌/◌, ◌%◌, ◌^◌, ◌≤◌, ◌<◌, ◌≡◌, refl, sym, ap, ◌∙◌, ◌≢◌, ◌↔◌, ◌⊎◌, inl,
  inr, Bool, true, false, not, ◌&&◌, ◌||◌, Option, none, some, List, [], ◌∷◌, ◌++◌, map, reverse,
  append-nil, append_assoc, arith, ltb, leb, ◌==◌, if◌then◌else◌, Bool-cases, Option-cases, length,
  get_elem?, set, take, drop, replicate, All, length-append, length-reverse, All-append,
  All-reverse, length-set, length-replicate, length-map, Error, Result, ok, err, panic, ◌>>=◌,
  or_panic, or_error, >>=-eq-ok, Bytes, IsByte, codes, bytes_eq, bytes_eq_refl, eq_of_bytes_eq,
}
use merged_mining_pool.Common.Int.{ℤ, pos, negsuc, to_unsigned, of_unsigned, times, minus}
use Prim.Native.Nat.{bit_xor}
use merged_mining_pool.Hex.{hex_digit, hex_value}

-- `math/big.Float` and `float64`, of types that the caller chooses. `none` is the panic of
-- `SetFloat64` on NaN, and the nil that `Int` returns for an infinity.
pub record Floats (F B : Type 0) : Type 0 where
  pub set_int : ℤ → B
  pub set_float64 : F → Option B
  pub quo : B → B → B
  pub to_float64 : B → F
  pub to_int : B → Option ℤ
  -- The zero value of `float64`.
  pub zero : F
  -- `x / y` and `x * y` on `float64`, at a whole `y`.
  pub div_whole : F → ℕ → F
  pub mul_whole : F → ℕ → F

abbrev pub digits_value : ℕ → Bytes → Option ℕ
digits_value acc [] = some acc
digits_value acc (x ∷ s) = elim (hex_value x) [
  | none ↦ none
  | some d ↦ digits_value (16 * acc + d) s
]

-- One digit at least.
unfoldable pub parse_digits : Bytes → Option ℕ
parse_digits [] = none
parse_digits (x ∷ s) = digits_value 0 (x ∷ s)

abbrev pub negated : ℕ → ℤ
negated zero = pos 0
negated (suc n) = negsuc n

abbrev pub opt_map {ℓ κ} : {A : Type ℓ} {B : Type κ} → (A → B) → Option A → Option B
opt_map f none = none
opt_map f (some a) = some (f a)

-- `SetString(s, 16)`: digits behind an optional sign.
unfoldable pub to_big : Bytes → Option ℤ
to_big [] = none
to_big (x ∷ s) =
    if x == b'-'
    then opt_map negated (parse_digits s)
    else if x == b'+'
    then opt_map pos (parse_digits s)
    else opt_map pos (parse_digits (x ∷ s))

-- Digits without leading zeros. Four hundred digits hold every quotient of the highest target by a
-- `float64`.
abbrev pub text_digits : ℕ → ℕ → Bytes
text_digits zero n = []
text_digits (suc k) n =
    let front = text_digits k (n / 16) in
    if ltb n 16 then hex_digit n ∷ [] else front ++ hex_digit (n % 16) ∷ []

-- `Text(16)`; a nil number prints as `<nil>`.
unfoldable pub text_16 : Option ℤ → Bytes
text_16 none = codes "<nil>"
text_16 (some (pos n)) = text_digits 400 n
text_16 (some (negsuc n)) = codes "-" ++ text_digits 400 (n + 1)

abbrev pub highest_target : ℤ
highest_target = pos (0xffff * 2 ^ 208)

module _ {F B : Type 0} (f : Floats F B) where
  open f use {set_int, set_float64, quo, to_float64, to_int}

  -- A target that is no number panics.
  unfoldable pub to_difficulty : Bytes → Result F
  to_difficulty t = do
    target_big ← or_panic (to_big t)
    ok (to_float64 (quo (set_int highest_target) (set_int target_big)))

  unfoldable pub target_from_difficulty : F → Result Bytes
  target_from_difficulty difficulty = do
    difficulty_big_float ← or_panic (set_float64 difficulty)
    ok (text_16 (to_int (quo (set_int highest_target) difficulty_big_float)))

abbrev int_8 : ℤ → Result ℤ
int_8 (pos n) = if ltb n 128 then ok (pos n) else err Error.out_of_range
int_8 (negsuc n) = if ltb n 128 then ok (negsuc n) else err Error.out_of_range

-- `strconv.ParseInt(s, 16, 8)`: the value must fit eight bits, with its sign.
unfoldable pub parse_int_8 : Bytes → Result ℤ
parse_int_8 s = do z ← or_error (to_big s) Error.invalid_number; int_8 z

-- `x ^ y` on `int64`: the exclusive or of the bits.
abbrev xor_64 : ℤ → ℤ → ℤ
xor_64 x y = of_unsigned 64 (bit_xor (to_unsigned 64 x) (to_unsigned 64 y))

-- In the last line `^` is exclusive or, and binds less tightly than `*`.
unfoldable pub target_from_bits : Bytes → Result Bytes
target_from_bits bits_hex =
    let l = length bits_hex in
    if ltb l 8 then err Error.too_short else if l % 2 == 0 then err Error.not_even else (do
      exponent_value ← parse_int_8 (take 2 bits_hex)
      significand_value ← parse_int_8 (drop 3 bits_hex)
      ok (text_16 (some (xor_64 (times significand_value 256) (minus exponent_value 3)))))
