-- ===== src/Coinbase/Format.antt =====
-- `%016x` prints the sixteen hex digits of a 64-bit number.
use merged_mining_pool.Common.{
  ℕ, zero, suc, ◌*◌, ◌/◌, ◌%◌, ◌≡◌, refl, sym, ap, ◌∙◌, [], ◌∷◌, ◌++◌, reverse, append_assoc, arith,
  ok,
}
use mathlib.Core.List.{reverse-append}
use merged_mining_pool.Hex.{hex_digit, hex_encode}
use merged_mining_pool.Hex.RoundTrip.{hex_encode-append}
use merged_mining_pool.Encoding.{le_bytes, reverse_hex_bytes}
use merged_mining_pool.Encoding.Reverse.{reverse_hex_bytes-encode}
use merged_mining_pool.Coinbase.{hex_fixed}
use mathlib.Core.List.{reverse-reverse}

two_digits :
    (w v : ℕ) → hex_fixed (suc (suc w)) v ≡ hex_fixed w (v / 256) ++ hex_encode ((v % 256) ∷ [])
unfolding hex_fixed hex_encode
two_digits w v =
    append_assoc (hex_fixed w (v / 16 / 16)) (hex_digit (v / 16 % 16) ∷ [])
      (hex_digit (v % 16) ∷ [])
    ∙ rw (quotient, high, low)
  where
    quotient : v / 16 / 16 ≡ v / 256
    quotient = omega arith

    high : v / 16 % 16 ≡ v % 256 / 16
    high = omega arith

    low : v % 16 ≡ v % 256 % 16
    low = omega arith

-- Two digits to a byte, the highest byte first.
pub hex_fixed-le_bytes : (k v : ℕ) → hex_fixed (2 * k) v ≡ hex_encode (reverse (le_bytes k v))
hex_fixed-le_bytes zero v = unfold hex_fixed le_bytes hex_encode in refl
hex_fixed-le_bytes (suc k) v =
    ap (λ w. hex_fixed w v) two
    ∙ digits
    ∙ ap (λ r. r ++ hex_encode ((v % 256) ∷ [])) (hex_fixed-le_bytes k (v / 256))
    ∙ sym (hex_encode-append (reverse (le_bytes k (v / 256))) ((v % 256) ∷ []))
    ∙ ap hex_encode
        (sym (reverse-append ((v % 256) ∷ []) (le_bytes k (v / 256))) ∙ ap reverse (low))
  where
    two : 2 * suc k ≡ suc (suc (2 * k))
    two = omega arith

    low : (v % 256) ∷ le_bytes k (v / 256) ≡ le_bytes (suc k) v
    low = unfold le_bytes in refl

    digits :
        hex_fixed (suc (suc (2 * k))) v ≡ hex_fixed (2 * k) (v / 256) ++ hex_encode ((v % 256) ∷ [])
    digits = two_digits (2 * k) v

-- The reversed digits of a 64-bit amount are its eight bytes in little-endian order.
pub reverse-hex_fixed :
    (v : ℕ) → reverse_hex_bytes (hex_fixed 16 v) ≡ ok (hex_encode (le_bytes 8 v))
reverse-hex_fixed v =
    ap reverse_hex_bytes (hex_fixed-le_bytes 8 v)
    ∙ reverse_hex_bytes-encode (reverse (le_bytes 8 v))
    ∙ ap (λ s. ok (hex_encode s)) (reverse-reverse (le_bytes 8 v))
