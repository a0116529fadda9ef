-- ===== src/Examples/Toy.antt =====
-- A concrete stand-in for the hash functions, with digests of the documented sizes.
use merged_mining_pool.Common.{◌+◌}
use merged_mining_pool.Crypto.{Crypto, IsCrypto}
use merged_mining_pool.Encoding.{le_bytes}
use merged_mining_pool.Encoding.VarUint.{le_value, length-le_bytes, le_bytes-IsByte}

abbrev pub toy : Crypto
toy = record {
  sha256 = λ bs. le_bytes 32 (le_value bs + 1);
  ripemd160 = λ bs. le_bytes 20 (le_value bs);
  scrypt_key = λ password salt n r p size. le_bytes size (le_value password);
}

pub toy-IsCrypto : IsCrypto toy
toy-IsCrypto = record {
  length-sha256 = λ bs. length-le_bytes 32 (le_value bs + 1);
  sha256-IsByte = λ bs. le_bytes-IsByte 32 (le_value bs + 1);
  length-ripemd160 = λ bs. length-le_bytes 20 (le_value bs);
  ripemd160-IsByte = λ bs. le_bytes-IsByte 20 (le_value bs);
  length-scrypt_key = λ password salt n r p size. length-le_bytes size (le_value password);
  scrypt_key-IsByte = λ password salt n r p size. le_bytes-IsByte size (le_value password);
}
