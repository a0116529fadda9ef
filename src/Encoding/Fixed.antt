-- ===== src/Encoding/Fixed.antt =====
-- The fixed-width writers, and the filter of zero bytes.
use merged_mining_pool.Common.{
  ℕ, zero, suc, ◌-◌, ◌%◌, ◌^◌, ◌<◌, ◌≡◌, refl, sym, ap, ◌∙◌, ◌≢◌, true, false, [], ◌∷◌, ◌++◌,
  append-nil, append_assoc, arith, ◌==◌, if◌then◌else◌, length, replicate, All, ok, Bytes, IsByte,
}
use merged_mining_pool.Common.Int.{ℤ, pos, negsuc, to_unsigned, of_unsigned}
use merged_mining_pool.Encoding.{
  le_bytes, int64, uint, four_little_endian_bytes, eight_little_endian_bytes,
  remove_insignificant_loop, remove_insignificant_bytes_little_endian,
}
use merged_mining_pool.Encoding.VarUint.{
  le_value, length-le_bytes, le_bytes-IsByte, le_value-le_bytes,
}

abbrev magnitude : ℤ → ℕ
magnitude (pos n) = n
magnitude (negsuc n) = n

-- The range of `int64`.
abbrev pub IsInt64 : ℤ → Type 0
IsInt64 z = magnitude z < 2 ^ 63

module _ {F : Type 0} (to_uint : ℕ → F → ℕ) where
  -- Every `int64` is written as eight bytes, which read as a little-endian number in two's
  -- complement give it back.
  pub eight_little_endian_bytes_round_trip :
      (z : ℤ)
      → IsInt64 z
      → (bs : Bytes) × (eight_little_endian_bytes to_uint (int64 z) ≡ ok bs)
        × (length bs ≡ 8)
        × All IsByte bs
        × (of_unsigned 64 (le_value bs) ≡ z)
  unfolding eight_little_endian_bytes
  eight_little_endian_bytes_round_trip z h =
      (le_bytes 8 (to_unsigned 64 z), refl, length-le_bytes 8 _, le_bytes-IsByte 8 _, value z h)
    where
      value : (z : ℤ) → IsInt64 z → of_unsigned 64 (le_value (le_bytes 8 (to_unsigned 64 z))) ≡ z
      value (pos n) h = rw (le_value-le_bytes 8 (n % 2 ^ 64) (omega arith)) (ground arith)
      value (negsuc n) h =
          rw (le_value-le_bytes 8 (2 ^ 64 - suc (n % 2 ^ 64)) (omega arith)) (ground arith)

  -- Every 64-bit `uint` is written as four bytes that hold it modulo 2 ^ 32.
  pub four_little_endian_bytes_truncates :
      (v : ℕ)
      → (bs : Bytes) × (four_little_endian_bytes to_uint (uint v) ≡ ok bs)
        × (length bs ≡ 4)
        × All IsByte bs
        × (le_value bs ≡ v % 2 ^ 32)
  unfolding four_little_endian_bytes
  four_little_endian_bytes_truncates v = (
    le_bytes 4 (v % 2 ^ 32),
    refl,
    length-le_bytes 4 _,
    le_bytes-IsByte 4 _,
    le_value-le_bytes 4 (v % 2 ^ 32) (omega arith),
  )

-- The bytes other than zero.
abbrev pub nonzero : Bytes → Bytes
nonzero [] = []
nonzero (b ∷ bs) = if b == 0 then nonzero bs else b ∷ nonzero bs

reached_lem :
    (bs cleaned : Bytes) → remove_insignificant_loop bs true cleaned ≡ cleaned ++ nonzero bs
unfolding remove_insignificant_loop
reached_lem [] cleaned = sym (append-nil cleaned)
reached_lem (b ∷ bs) cleaned = ground (
  arith,
  reached_lem bs cleaned,
  reached_lem bs (cleaned ++ b ∷ []),
  append_assoc cleaned (b ∷ []) (nonzero bs),
)

zeros_lem :
    (z : ℕ) (bs cleaned : Bytes)
    → remove_insignificant_loop (replicate z 0 ++ bs) false cleaned
      ≡ remove_insignificant_loop bs false (cleaned ++ replicate z 0)
unfolding remove_insignificant_loop
zeros_lem zero bs cleaned = ap (remove_insignificant_loop bs false) (sym (append-nil cleaned))
zeros_lem (suc z) bs cleaned =
    zeros_lem z bs (cleaned ++ 0 ∷ [])
    ∙ ap (remove_insignificant_loop bs false) (append_assoc cleaned (0 ∷ []) (replicate z 0))

-- The filter keeps the zeros in front of the first byte other than zero and that byte, and drops
-- every zero behind it, also between two other bytes.
pub remove_insignificant_lem :
    (z b : ℕ) (bs : Bytes)
    → b ≢ 0
    → remove_insignificant_bytes_little_endian (replicate z 0 ++ b ∷ bs)
      ≡ replicate z 0 ++ b ∷ nonzero bs
unfolding remove_insignificant_bytes_little_endian remove_insignificant_loop
remove_insignificant_lem z b bs h =
    zeros_lem z (b ∷ bs) []
    ∙ first
    ∙ reached_lem bs (replicate z 0 ++ b ∷ [])
    ∙ append_assoc (replicate z 0) (b ∷ []) (nonzero bs)
  where
    first :
        remove_insignificant_loop (b ∷ bs) false (replicate z 0)
        ≡ remove_insignificant_loop bs true (replicate z 0 ++ b ∷ [])
    first = ground arith
