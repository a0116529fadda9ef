-- ===== src/Chain.antt =====
-- bitcoin/chain.go and the six files of the chains.
pub mod Names
use merged_mining_pool.Common.{
  ℕ, ◌+◌, ◌-◌, ◌/◌, ◌^◌, ◌≡◌, refl, Bool, true, false, ◌&&◌, ◌||◌, [], ◌∷◌, leb, ◌==◌,
  if◌then◌else◌, length, take, drop, All, Result, ok, panic, Bytes, codes, bytes_eq,
}
use merged_mining_pool.Crypto.{Crypto, double_sha256, scrypt_digest}

-- The implementations of `Blockchain`.
pub data Chain : Type 0 where
  dogecoin litecoin bellscoin luckycoin pepecoin vergecoin : Chain

unfoldable pub get_chain : Bytes → Result Chain
get_chain name =
    if bytes_eq name (codes "dogecoin")
    then ok dogecoin
    else if bytes_eq name (codes "litecoin")
    then ok litecoin
    else if bytes_eq name (codes "bellscoin")
    then ok bellscoin
    else if bytes_eq name (codes "luckycoin")
    then ok luckycoin
    else if bytes_eq name (codes "pepecoin")
    then ok pepecoin
    else if bytes_eq name (codes "vergecoin")
    then ok vergecoin
    else panic

abbrev pub all_of : (ℕ → Bool) → Bytes → Bool
all_of p [] = true
all_of p (x ∷ s) = p x && all_of p s

abbrev pub one_of : ℕ → Bytes → Bool
one_of x [] = false
one_of x (y ∷ s) = x == y || one_of x s

abbrev between : ℕ → ℕ → ℕ → Bool
between lo hi x = leb lo x && leb x hi

-- `[A-Za-z0-9]`.
unfoldable pub is_alphanumeric : ℕ → Bool
is_alphanumeric x = between b'A' b'Z' x || (between b'a' b'z' x || between b'0' b'9' x)

-- `[a-km-zA-HJ-NP-Z1-9]`.
unfoldable pub is_base58 : ℕ → Bool
is_base58 x =
    between b'a' b'k' x
    || (between b'm' b'z' x
        || (between b'A' b'H' x
            || (between b'J' b'N' x || (between b'P' b'Z' x || between b'1' b'9' x))))

-- `[a-z0-9]`.
unfoldable pub is_lower_alphanumeric : ℕ → Bool
is_lower_alphanumeric x = between b'a' b'z' x || between b'0' b'9' x

-- `^(…)[class]{lo,hi}$` with one character in front.
unfoldable pub matches_headed : Bytes → (ℕ → Bool) → ℕ → ℕ → Bytes → Bool
matches_headed heads class_ lo hi [] = false
matches_headed heads class_ lo hi (x ∷ s) =
    one_of x heads && (all_of class_ s && between lo hi (length s))

-- `^(prefix)[class]{count}$`.
unfoldable pub matches_prefixed : Bytes → (ℕ → Bool) → ℕ → Bytes → Bool
matches_prefixed prefix class_ count s =
    bytes_eq (take (length prefix) s) prefix
    && (all_of class_ (drop (length prefix) s) && length s == length prefix + count)

-- `[class]{count}` anywhere in the text.
unfoldable pub matches_within : (ℕ → Bool) → ℕ → Bytes → Bool
matches_within class_ count [] = count == 0
matches_within class_ count (x ∷ s) =
    (leb count (length (x ∷ s)) && all_of class_ (take count (x ∷ s)))
    || matches_within class_ count s

-- The methods of `Blockchain`. The multiplier is a whole number; the source has it as a `float64`.
pub record Blockchain : Type 0 where
  pub chain_name : Bytes
  pub coinbase_digest : Crypto → Bytes → Result Bytes
  pub header_digest : Crypto → Bytes → Result Bytes
  pub share_multiplier : ℕ
  pub valid_mainnet_address : Bytes → Bool
  pub valid_testnet_address : Bytes → Bool
  pub minimum_confirmations : ℕ

-- `Dogecoin`.
abbrev pub dogecoin_methods : Blockchain
dogecoin_methods = record {
  chain_name = codes "dogecoin";
  coinbase_digest = λ c coinbase. double_sha256 c coinbase;
  header_digest = λ c header. scrypt_digest c header;
  share_multiplier = 65536;
  valid_mainnet_address = λ address. matches_headed (codes "DA9") is_base58 33 34 address;
  valid_testnet_address = λ address. matches_headed (codes "n2") is_base58 33 33 address;
  minimum_confirmations = 251;
}

-- `Litecoin`.
abbrev pub litecoin_methods : Blockchain
litecoin_methods = record {
  chain_name = codes "litecoin";
  coinbase_digest = λ c coinbase. double_sha256 c coinbase;
  header_digest = λ c header. scrypt_digest c header;
  share_multiplier = 65536;
  valid_mainnet_address = λ address.
      matches_headed (codes "LM") is_alphanumeric 33 33 address
      || matches_prefixed (codes "ltc1") is_alphanumeric 39 address;
  valid_testnet_address = λ address. matches_within is_lower_alphanumeric 44 address;
  minimum_confirmations = 102;
}

-- `Bellscoin`.
abbrev pub bellscoin_methods : Blockchain
bellscoin_methods = record {
  chain_name = codes "bellscoin";
  coinbase_digest = λ c coinbase. double_sha256 c coinbase;
  header_digest = λ c header. scrypt_digest c header;
  share_multiplier = 65536;
  valid_mainnet_address = λ address.
      matches_headed (codes "LM") is_alphanumeric 33 33 address
      || matches_prefixed (codes "ltc1") is_alphanumeric 39 address;
  valid_testnet_address = λ address. matches_within is_alphanumeric 34 address;
  minimum_confirmations = 102;
}

-- `Luckycoin`.
abbrev pub luckycoin_methods : Blockchain
luckycoin_methods = record {
  chain_name = codes "dogecoin";
  coinbase_digest = λ c coinbase. double_sha256 c coinbase;
  header_digest = λ c header. scrypt_digest c header;
  share_multiplier = 65536;
  valid_mainnet_address = λ address. matches_headed (codes "DA9") is_base58 33 34 address;
  valid_testnet_address = λ address. matches_headed (codes "K2") is_base58 33 33 address;
  minimum_confirmations = 251;
}

-- `Pepecoin`.
abbrev pub pepecoin_methods : Blockchain
pepecoin_methods = record {
  chain_name = codes "dogecoin";
  coinbase_digest = λ c coinbase. double_sha256 c coinbase;
  header_digest = λ c header. scrypt_digest c header;
  share_multiplier = 65536;
  valid_mainnet_address = λ address. matches_headed (codes "DA9") is_base58 33 34 address;
  valid_testnet_address = λ address. matches_headed (codes "K2") is_base58 33 33 address;
  minimum_confirmations = 251;
}

-- `Vergecoin`.
abbrev pub vergecoin_methods : Blockchain
vergecoin_methods = record {
  chain_name = codes "vergecoin";
  coinbase_digest = λ c coinbase. double_sha256 c coinbase;
  header_digest = λ c header. scrypt_digest c header;
  share_multiplier = 65536;
  valid_mainnet_address = λ address. matches_headed (codes "DA9") is_base58 33 34 address;
  valid_testnet_address = λ address. matches_headed (codes "o2") is_base58 33 33 address;
  minimum_confirmations = 251;
}

-- The methods that an interface value of each chain is called with.
abbrev pub methods : Chain → Blockchain
methods dogecoin = dogecoin_methods
methods litecoin = litecoin_methods
methods bellscoin = bellscoin_methods
methods luckycoin = luckycoin_methods
methods pepecoin = pepecoin_methods
methods vergecoin = vergecoin_methods

unfoldable pub chain_name : Chain → Bytes
chain_name chain = (methods chain).chain_name

module _ (c : Crypto) where
  unfoldable pub coinbase_digest : Chain → Bytes → Result Bytes
  coinbase_digest chain coinbase = (methods chain).coinbase_digest c coinbase

  unfoldable pub header_digest : Chain → Bytes → Result Bytes
  header_digest chain header = (methods chain).header_digest c header

unfoldable pub share_multiplier : Chain → ℕ
share_multiplier chain = (methods chain).share_multiplier

unfoldable pub minimum_confirmations : Chain → ℕ
minimum_confirmations chain = (methods chain).minimum_confirmations

unfoldable pub valid_mainnet_address : Chain → Bytes → Bool
valid_mainnet_address chain address = (methods chain).valid_mainnet_address address

unfoldable pub valid_testnet_address : Chain → Bytes → Bool
valid_testnet_address chain address = (methods chain).valid_testnet_address address

-- All chains hash a coinbase twice with SHA-256, and a header with scrypt.
pub coinbase_digest_lem :
    (c : Crypto) (chain : Chain) (coinbase : Bytes)
    → coinbase_digest c chain coinbase ≡ double_sha256 c coinbase
unfolding coinbase_digest
coinbase_digest_lem c dogecoin coinbase = refl
coinbase_digest_lem c litecoin coinbase = refl
coinbase_digest_lem c bellscoin coinbase = refl
coinbase_digest_lem c luckycoin coinbase = refl
coinbase_digest_lem c pepecoin coinbase = refl
coinbase_digest_lem c vergecoin coinbase = refl

pub header_digest_lem :
    (c : Crypto) (chain : Chain) (header : Bytes)
    → header_digest c chain header ≡ scrypt_digest c header
unfolding header_digest
header_digest_lem c dogecoin header = refl
header_digest_lem c litecoin header = refl
header_digest_lem c bellscoin header = refl
header_digest_lem c luckycoin header = refl
header_digest_lem c pepecoin header = refl
header_digest_lem c vergecoin header = refl
