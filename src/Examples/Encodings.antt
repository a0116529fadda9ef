-- ===== src/Examples/Encodings.antt =====
-- Runs of the theorems on encodings.
use merged_mining_pool.Common.{
  ℕ, ◌%◌, ◌^◌, ◌≡◌, ◌↔◌, some, [], ◌∷◌, ◌++◌, arith, length, All, ok, panic, Bytes, IsByte,
}
use merged_mining_pool.Hex.{hex_encode}
use merged_mining_pool.Encoding.{var_uint, Interface, four_little_endian_bytes}
use merged_mining_pool.Encoding.VarUint.{
  le_value, read_compact, var_uint_round_trip, var_uint-eq-panic_iff,
}
use merged_mining_pool.Encoding.Fixed.{four_little_endian_bytes_truncates}

var_uint_round_trip_example :
    (buffer : Bytes) × (var_uint 70000 ≡ ok (hex_encode buffer))
    × All IsByte buffer
    × (read_compact (buffer ++ 5 ∷ []) ≡ some (70000, 5 ∷ []))
var_uint_round_trip_example = var_uint_round_trip 70000 (5 ∷ []) (omega arith) (ground arith)

var_uint-eq-panic_iff_example : (var_uint 253 ≡ panic) ↔ (◌≡◌ {A = ℕ} 253 253)
var_uint-eq-panic_iff_example = var_uint-eq-panic_iff 253 (omega arith)

four_little_endian_bytes_truncates_example :
    (bs : Bytes) × (four_little_endian_bytes (λ w (x : ℕ). x) (Interface.uint 4294967298) ≡ ok bs)
    × (length bs ≡ 4)
    × All IsByte bs
    × (le_value bs ≡ 4294967298 % 2 ^ 32)
four_little_endian_bytes_truncates_example =
    four_little_endian_bytes_truncates (λ w (x : ℕ). x) 4294967298
