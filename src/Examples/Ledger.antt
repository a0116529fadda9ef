-- ===== src/Examples/Ledger.antt =====
-- A small database, on amounts that are natural numbers: minus one is left at zero.
use merged_mining_pool.Common.{
  ℕ, ◌+◌, ◌-◌, ◌*◌, ◌/◌, none, some, Option, [], ◌∷◌, leb, if◌then◌else◌, ok, err, Error, Bytes,
  codes, bytes_eq,
}
use merged_mining_pool.Rows.{Share, Found, Balance, BalanceChange, status_pending, status_confirmed}
use merged_mining_pool.Storage.{Amounts, Database}
use merged_mining_pool.Payouts.Setup.{PayoutConfig, Remote}

abbrev pub amounts : Amounts ℕ
amounts = record {
  zero = 0;
  one = 1;
  thousand = 1000;
  minus_one = 0;
  add = ◌+◌;
  sub = ◌-◌;
  mul = ◌*◌;
  div = ◌/◌;
  at_most = leb;
  whole = λ n. n;
  round = λ n. n;
}

abbrev pub share_at : Bytes → ℕ → Share ℕ
share_at miner time = record {
  pool_id = codes "p";
  block_height = 10;
  miner = miner;
  worker = codes "rig";
  user_agent = [];
  difficulty = 4;
  network_difficulty = 4;
  ip_address = [];
  created = time;
}

abbrev pub block_of : ℕ → Bytes → Found ℕ
block_of id status = record {
  id = id;
  pool_id = codes "p";
  chain = codes "litecoin";
  block_height = 10;
  network_difficulty = 4;
  status = status;
  kind = [];
  confirmation_progress = 0;
  effort = 0;
  transaction_confirmation_data = [];
  miner = codes "A";
  reward = 0;
  source = [];
  hash = codes "h";
  created = 9;
}

abbrev pub owed : Bytes → ℕ → Balance ℕ
owed address amount = record {
  pool_id = codes "p";
  chain = codes "litecoin";
  address = address;
  amount = amount;
  created = 1;
  updated = 1;
}

abbrev pub change : Bytes → ℕ → BalanceChange ℕ
change address amount = record {
  pool_id = codes "p";
  chain = codes "litecoin";
  address = address;
  amount = amount;
  usage = [];
  created = 1;
}

-- A confirmed block and a pending one; two miners, of whom one is owed seven.
abbrev pub database : Database ℕ
database = record {
  shares = share_at (codes "A") 8 ∷ share_at (codes "B") 6 ∷ share_at (codes "A") 5 ∷ [];
  blocks = block_of 1 status_confirmed ∷ block_of 2 status_pending ∷ [];
  balances = owed (codes "A") 7 ∷ [];
  balance_changes = change (codes "A") 7 ∷ [];
  payments = [];
  next_id = 3;
  sent = [];
  outages = [];
  now = 20;
}

abbrev pub config : PayoutConfig ℕ
config = record {
  pool_name = codes "p";
  block_chain_order = codes "litecoin" ∷ codes "dogecoin" ∷ [];
  scheme = codes "Solo";
  chains = λ chain. some (record {
    miner_minimum_payment = 1;
    pool_reward_recipients = record { address = codes "F"; percentage = 0 } ∷ [];
  });
  blockchain_nodes = λ chain. some (codes "R" ∷ []);
  payment_threshold = λ address. none;
}

-- A node that has seen every block mature.
abbrev pub node : Remote ℕ
node = record {
  index = 0;
  get_block_by_hash = λ hash. ok (codes "ab" ∷ []);
  get_transaction =
      λ id. ok (record { amount = 50; confirmations = 100; categories = codes "generate" ∷ [] });
  send_many = λ payments. ok (codes "t");
}

-- A node whose wallet does not pay.
abbrev pub broke : Remote ℕ
broke = record node { send_many = λ payments. err Error.not_sent }

-- The node of Litecoin works, that of Dogecoin does not pay.
abbrev pub nodes : Bytes → Option (Remote ℕ)
nodes chain = some (if bytes_eq chain (codes "litecoin") then node else broke)
