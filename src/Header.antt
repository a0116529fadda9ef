-- ===== src/Header.antt =====
-- bitcoin/header.go: the eighty bytes of a block header.
pub mod Fields
use merged_mining_pool.Common.{
  ℕ, zero, suc, ◌+◌, ◌-◌, ◌*◌, ◌/◌, ◌%◌, ◌^◌, ◌≤◌, ◌<◌, ◌≡◌, refl, sym, ap, ◌∙◌, ◌≢◌, ◌↔◌, ◌⊎◌, inl,
  inr, Bool, true, false, not, ◌&&◌, ◌||◌, Option, none, some, List, [], ◌∷◌, ◌++◌, map, reverse,
  append-nil, append_assoc, arith, ltb, leb, ◌==◌, if◌then◌else◌, Bool-cases, Option-cases, length,
  get_elem?, set, take, drop, replicate, All, length-append, length-reverse, All-append,
  All-reverse, length-set, length-replicate, length-map, Error, Result, ok, err, panic, ◌>>=◌,
  or_panic, >>=-eq-ok, Bytes, IsByte, codes, bytes_eq, bytes_eq_refl, eq_of_bytes_eq,
}
use merged_mining_pool.Hex.{hex_encode, hex_decode}
use merged_mining_pool.Encoding.{uint, four_little_endian_bytes, reverse_go}

-- The version is a `uint`; no float is written.
unfoldable pub version_bytes : ℕ → Result Bytes
unfolding four_little_endian_bytes
version_bytes version = four_little_endian_bytes {F = Unit {0}} (λ w f. 0) (uint version)

unfoldable pub block_header : ℕ → Bytes → Bytes → Bytes → Bytes → Bytes → Result Bytes
block_header version previous_block_hash merkle_root_hex n_time bits nonce = do
  version_bytes ← version_bytes version
  prev_block_hash ← hex_decode previous_block_hash
  merkle_root ← hex_decode merkle_root_hex
  nonce_time ← hex_decode n_time
  bits_hex ← hex_decode bits
  nonce_hex ← hex_decode nonce
  ok (
      hex_encode (
        version_bytes
        ++ (reverse_go prev_block_hash
            ++ (merkle_root
                ++ (reverse_go nonce_time ++ (reverse_go bits_hex ++ reverse_go nonce_hex))))))
