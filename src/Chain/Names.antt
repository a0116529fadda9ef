-- ===== src/Chain/Names.antt =====
-- The names of the chains, and the characters of their addresses.
use merged_mining_pool.Common.{
  ℕ, ◌≡◌, refl, ◌≢◌, ◌↔◌, ◌⊎◌, inl, inr, Bool, true, false, ◌||◌, [], ◌∷◌, arith, ◌==◌, Bool-cases,
  length, take, drop, All, All-append, ==_iff, take-append-drop, ok, Bytes, codes, bytes_eq,
  eq_of_bytes_eq,
}
use merged_mining_pool.Chain.{
  Chain, dogecoin, litecoin, bellscoin, luckycoin, pepecoin, vergecoin, get_chain, chain_name,
  all_of, one_of, is_alphanumeric, is_base58, matches_headed, matches_prefixed,
  valid_mainnet_address,
}

-- `GetChain` finds a chain by the name that the chain itself answers with, except for two chains:
-- of the answers of `ChainName`, `GetChain` finds the chain back exactly if it is neither
-- Luckycoin nor Pepecoin.
pub get_chain-chain_name :
    (chain : Chain)
    → (get_chain (chain_name chain) ≡ ok chain) ↔ ((chain ≢ luckycoin) × (chain ≢ pepecoin))
unfolding get_chain chain_name
get_chain-chain_name dogecoin = (λ e. (λ p. cc, λ p. cc), λ p. refl)
get_chain-chain_name litecoin = (λ e. (λ p. cc, λ p. cc), λ p. refl)
get_chain-chain_name bellscoin = (λ e. (λ p. cc, λ p. cc), λ p. refl)
get_chain-chain_name luckycoin = (λ e. cc, λ p. absurd (p.0 refl))
get_chain-chain_name pepecoin = (λ e. cc, λ p. absurd (p.1 refl))
get_chain-chain_name vergecoin = (λ e. (λ p. cc, λ p. cc), λ p. refl)

-- Neither of the bytes that take a login apart, `-` and `.`.
abbrev pub IsPlain : ℕ → Type 0
IsPlain x = (x ≢ b'-') × (x ≢ b'.')

alphanumeric-IsPlain : (x : ℕ) → is_alphanumeric x ≡ true → IsPlain x
unfolding is_alphanumeric
alphanumeric-IsPlain x h = ground arith

base58-IsPlain : (x : ℕ) → is_base58 x ≡ true → IsPlain x
unfolding is_base58
base58-IsPlain x h = ground arith

all_of-IsPlain :
    (p : ℕ → Bool)
    → ((x : ℕ) → p x ≡ true → IsPlain x)
    → (s : Bytes) → all_of p s ≡ true
    → All IsPlain s
all_of-IsPlain p plain [] h = tt
all_of-IsPlain p plain (x ∷ s) h = elim (Bool-cases (p x)) [
  | inl e ↦ (plain x e, all_of-IsPlain p plain s (rw e at h))
  | inr e ↦ cc (e)
]

one_of-IsPlain : (x : ℕ) (heads : Bytes) → All IsPlain heads → one_of x heads ≡ true → IsPlain x
one_of-IsPlain x [] p h = cc
one_of-IsPlain x (y ∷ heads) (p, ps) h = elim (Bool-cases (x == y)) [
  | inl e ↦ rw ((==_iff x y).0 e) p
  | inr e ↦ one_of-IsPlain x heads ps (rw e at h)
]

matches_headed-IsPlain :
    (heads : Bytes) (p : ℕ → Bool) (lo hi : ℕ) (s : Bytes)
    → All IsPlain heads
    → ((x : ℕ) → p x ≡ true → IsPlain x)
    → matches_headed heads p lo hi s ≡ true
    → All IsPlain s
unfolding matches_headed
matches_headed-IsPlain heads p lo hi [] hs plain h = cc
matches_headed-IsPlain heads p lo hi (x ∷ s) hs plain h = elim (Bool-cases (one_of x heads)) [
  | inr e ↦ cc (e)
  | inl e ↦ elim (Bool-cases (all_of p s)) [
    | inr f ↦ ground (arith, e, f)
    | inl f ↦ (one_of-IsPlain x heads hs e, all_of-IsPlain p plain s f)
  ]
]

matches_prefixed-IsPlain :
    (front : Bytes) (p : ℕ → Bool) (count : ℕ) (s : Bytes)
    → All IsPlain front
    → ((x : ℕ) → p x ≡ true → IsPlain x)
    → matches_prefixed front p count s ≡ true
    → All IsPlain s
unfolding matches_prefixed
matches_prefixed-IsPlain front p count s hs plain h =
    elim (Bool-cases (bytes_eq (take (length front) s) front)) [
      | inr e ↦ cc (e)
      | inl e ↦ elim (Bool-cases (all_of p (drop (length front) s))) [
        | inr f ↦ ground (arith, e, f)
        | inl f ↦ whole (eq_of_bytes_eq _ _ e) (all_of-IsPlain p plain _ f)
      ]
    ]
  where
    whole : take (length front) s ≡ front → All IsPlain (drop (length front) s) → All IsPlain s
    whole e rest =
        rw (take-append-drop (length front) s) at
          (All-append IsPlain (take (length front) s) (drop (length front) s) (rw e hs) rest)

either : (a b : Bool) → (a || b) ≡ true → (a ≡ true) ⊎ (b ≡ true)
either true b h = inl refl
either false b h = inr h

segwit_or_legacy :
    (address : Bytes)
    → (matches_headed (codes "LM") is_alphanumeric 33 33 address
        || matches_prefixed (codes "ltc1") is_alphanumeric 39 address)
      ≡ true
    → All IsPlain address
segwit_or_legacy address h =
    elim (either (matches_headed (codes "LM") is_alphanumeric 33 33 address) _ h) [
      | inl e ↦
          matches_headed-IsPlain (codes "LM") is_alphanumeric 33 33 address (omega arith)
            alphanumeric-IsPlain e
      | inr e ↦
          matches_prefixed-IsPlain (codes "ltc1") is_alphanumeric 39 address (omega arith)
            alphanumeric-IsPlain e
    ]

-- An address that `ValidMainnetAddress` accepts, on any chain, holds neither `-` nor `.`.
pub valid_mainnet_address-IsPlain :
    (chain : Chain) (address : Bytes)
    → valid_mainnet_address chain address ≡ true
    → All IsPlain address
unfolding valid_mainnet_address
valid_mainnet_address-IsPlain dogecoin address h =
    matches_headed-IsPlain (codes "DA9") is_base58 33 34 address (omega arith) base58-IsPlain h
valid_mainnet_address-IsPlain litecoin address h = segwit_or_legacy address h
valid_mainnet_address-IsPlain bellscoin address h = segwit_or_legacy address h
valid_mainnet_address-IsPlain luckycoin address h =
    matches_headed-IsPlain (codes "DA9") is_base58 33 34 address (omega arith) base58-IsPlain h
valid_mainnet_address-IsPlain pepecoin address h =
    matches_headed-IsPlain (codes "DA9") is_base58 33 34 address (omega arith) base58-IsPlain h
valid_mainnet_address-IsPlain vergecoin address h =
    matches_headed-IsPlain (codes "DA9") is_base58 33 34 address (omega arith) base58-IsPlain h
