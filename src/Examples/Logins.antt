-- ===== src/Examples/Logins.antt =====
-- Runs of the theorems on logins.
use merged_mining_pool.Common.{
  ℕ, ◌≡◌, refl, Bool, true, false, some, [], ◌∷◌, arith, ok, panic, Bytes, codes,
}
use merged_mining_pool.Chain.{get_chain, valid_mainnet_address, is_base58}
use merged_mining_pool.Block.{Item}
use merged_mining_pool.Intake.{StratumClient, Config}
use merged_mining_pool.Session.{
  Packet, Stratum, check_addresses, check_login, mining_authorize, generate_work_from_cache,
}
use merged_mining_pool.Session.Login.{
  Authorized, mining_authorize-panic, mining_authorize-Authorized,
}

abbrev client : StratumClient
client = record { ip = []; login = []; extranonce1 = []; user_agent = []; session_id = codes "7" }

abbrev config : Config ℕ
config = record { pool_name = []; block_chain_order = codes "dogecoin" ∷ []; pool_difficulty = 1 }

abbrev start : Stratum ℕ
start = record { sessions = []; sent = [] }

-- Every chain is on its main network, and every packet is sent.
abbrev network : Bytes → Bytes
network chain = codes "main"

abbrev delivers : ℕ → Bool
delivers i = true

abbrev login : Bytes
login = codes "DBXu2kgc3xtvCUWFcxFE3r9hEYgmuaaCyD.rig"

mining_authorize-panic_example :
    (mining_authorize config network delivers [] (some (codes "DBXu" ∷ [])) client start).1.1
    ≡ panic
mining_authorize-panic_example =
    mining_authorize-panic config network delivers [] (codes "DBXu") [] client start (ground arith)
      refl

authorized :
    (mining_authorize config network delivers [] (some (login ∷ [])) client start).1.1
    ≡ ok (Packet.notify (Item.flag false ∷ []))
unfolding mining_authorize check_login check_addresses generate_work_from_cache get_chain
    valid_mainnet_address merged_mining_pool.Chain.matches_headed is_base58
authorized = refl

mining_authorize-Authorized_example :
    let (client', (s', r)) =
      mining_authorize config network delivers [] (some (login ∷ [])) client start in
    Authorized config network delivers [] login client client' s'
mining_authorize-Authorized_example =
    mining_authorize-Authorized config network delivers [] login [] client start
      {reply = Packet.notify (Item.flag false ∷ [])} authorized
