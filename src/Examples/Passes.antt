-- ===== src/Examples/Passes.antt =====
-- Runs of the theorems on passes of the payouts.
use merged_mining_pool.Common.{ℕ, ◌≢◌, refl, [], arith, codes}
use merged_mining_pool.Rows.{status_pending, status_confirmed}
use merged_mining_pool.Storage.{Database, statement}
use merged_mining_pool.Storage.Balances.{
  Account, add_amount, same_account, get_balance, update_balance,
}
use merged_mining_pool.Storage.Blocks.{insert_block}
use merged_mining_pool.Storage.Ledger.{IsConsistent, add_amount-IsConsistent}
use merged_mining_pool.Payouts.Rounds.{run_pass}
use merged_mining_pool.Payouts.Unlocked.{IsRow}
use merged_mining_pool.Payouts.Numbers.{IsOrdered}
use merged_mining_pool.Payouts.Steps.{pass, found, done, then_step, Steps-settled}
use merged_mining_pool.Payouts.Audited.{IsAudited, run_pass-IsAudited}
use merged_mining_pool.Examples.Ledger.{amounts, block_of, database, config, nodes}

-- After a pass and a new block.
abbrev later : Database ℕ
later =
    (insert_block amounts (block_of 0 status_pending) (run_pass amounts config nodes database).1).1

is_settled : status_confirmed ≢ status_pending
is_settled h = cc

Steps-settled_example : IsRow 0 (block_of 1 status_confirmed) later × IsOrdered later
Steps-settled_example =
    Steps-settled amounts config 0 (block_of 1 status_confirmed)
      (then_step (pass nodes database) (
        then_step (found (block_of 0 status_pending) (run_pass amounts config nodes database).1)
          (done later)))
      (omega arith, ((omega arith, tt), (omega arith, (tt, tt)))) refl is_settled

database-IsConsistent : IsConsistent amounts database
unfolding same_account
database-IsConsistent a = refl

run_pass-IsAudited_example : IsAudited amounts (run_pass amounts config nodes database).1
run_pass-IsAudited_example =
    run_pass-IsAudited amounts config nodes database (refl, database-IsConsistent)

abbrev account : Account
account = record { pool_id = codes "p"; chain = codes "litecoin"; address = codes "A" }

add_amount-IsConsistent_example : IsConsistent amounts (add_amount amounts account [] 5 database).1
unfolding add_amount statement get_balance same_account update_balance
add_amount-IsConsistent_example =
    add_amount-IsConsistent amounts account [] 5 database database-IsConsistent refl
