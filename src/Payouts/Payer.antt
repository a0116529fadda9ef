-- ===== src/Payouts/Payer.antt =====
-- payouts/payer.go, and the order of the chains in config/config.go.
use merged_mining_pool.Common.{
  ℕ, suc, ◌+◌, Option, none, some, List, [], ◌∷◌, ltb, ◌==◌, if◌then◌else◌, length, get_elem?,
  Error, Result, ok, err, or_panic, Bytes, split, bytes_eq,
}
use merged_mining_pool.Rows.{Balance}

-- `GetAuxN`, with an empty text for a chain that is not there.
abbrev name_or_empty : Option Bytes → Bytes
name_or_empty none = []
name_or_empty (some name) = name

-- `GetPrimary` panics on an empty order.
unfoldable pub get_primary : List Bytes → Result Bytes
get_primary order = or_panic (get_elem? order 0)

unfoldable pub get_aux_n : List Bytes → ℕ → Bytes
get_aux_n order n = if ltb (length order) (n + 1) then [] else name_or_empty (get_elem? order n)

-- The loop that counts up to the chain: its index, or the length of the order.
unfoldable pub chain_index : List Bytes → Bytes → ℕ
chain_index [] name = 0
chain_index (chain ∷ order) name =
    let rest = chain_index order name in if bytes_eq chain name then 0 else suc rest

abbrev pub found_address : List Bytes → List Bytes → Bytes → Result Bytes
found_address order (address ∷ []) chain = ok address
found_address order addresses chain =
    let i = chain_index order chain in
    if i == length order then err Error.chain_not_found else or_panic (get_elem? addresses i)

unfoldable pub find_balance_address : {A : Type 0} → Balance A → List Bytes → Result Bytes
find_balance_address balance order =
    if ltb 1 (length order)
    then found_address order (split balance.address b'-') balance.chain
    else ok balance.address
