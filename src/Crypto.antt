-- ===== src/Crypto.antt =====
-- bitcoin/crypto.go, utils/hash.go and `doubleSha256Bytes` of bitcoin/encoding.go. The hash
-- functions themselves are not code of the repository: they are the fields of a record.
use merged_mining_pool.Common.{ℕ, ◌≡◌, length, All, Result, ok, ◌>>=◌, Bytes, IsByte}
use merged_mining_pool.Hex.{hex_encode, hex_decode}

-- `scrypt_key password salt n r p length` is `scrypt.Key`, whose error the program ignores.
pub record Crypto : Type 0 where
  pub sha256 : Bytes → Bytes
  pub ripemd160 : Bytes → Bytes
  pub scrypt_key : Bytes → Bytes → ℕ → ℕ → ℕ → ℕ → Bytes

-- What the program relies on: digests are byte strings of their documented sizes.
pub record IsCrypto (c : Crypto) : Type 0 where
  pub length-sha256 : (bs : Bytes) → length (c.sha256 bs) ≡ 32
  pub sha256-IsByte : (bs : Bytes) → All IsByte (c.sha256 bs)
  pub length-ripemd160 : (bs : Bytes) → length (c.ripemd160 bs) ≡ 20
  pub ripemd160-IsByte : (bs : Bytes) → All IsByte (c.ripemd160 bs)
  pub length-scrypt_key :
      (password salt : Bytes) (n r p size : ℕ)
      → length (c.scrypt_key password salt n r p size) ≡ size
  pub scrypt_key-IsByte :
      (password salt : Bytes) (n r p size : ℕ) → All IsByte (c.scrypt_key password salt n r p size)

module _ (c : Crypto) where
  open c use {sha256, ripemd160, scrypt_key}

  -- `doubleSha256Bytes` of package bitcoin.
  unfoldable pub double_sha256_bytes : Bytes → Bytes
  double_sha256_bytes input = sha256 (sha256 input)

  -- `DoubleSHA256` of package utils.
  unfoldable pub utils_double_sha256 : Bytes → Bytes
  utils_double_sha256 input = let hash1 = sha256 input in sha256 hash1

  unfoldable pub double_sha256 : Bytes → Result Bytes
  double_sha256 input = do
    input_bytes ← hex_decode input
    ok (hex_encode (sha256 (sha256 input_bytes)))

  unfoldable pub scrypt_digest : Bytes → Result Bytes
  scrypt_digest input = do
    digest ← hex_decode input
    ok (hex_encode (scrypt_key digest digest 1024 1 1 32))
