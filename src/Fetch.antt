-- ===== src/Fetch.antt =====
-- fetchAllBlockTemplatesFromRPC of pool/server.go and fetchRpcBlockTemplatesAndCacheWork of
-- pool/work.go. What the nodes answer is given for each of the two attempts.
pub mod Gather
pub mod Whole
use merged_mining_pool.Common.{
  ℕ, ◌+◌, Bool, true, false, some, List, [], ◌∷◌, ◌++◌, drop, if◌then◌else◌, Error, Result, ok, err,
  panic, ◌>>=◌, Bytes, bytes_eq,
}
use merged_mining_pool.Common.Int.{pos}
use merged_mining_pool.Hex.{hex_decode}
use merged_mining_pool.Crypto.{Crypto}
use merged_mining_pool.Template.{AuxBlock, Template}
use merged_mining_pool.AuxMerkle.{create_merged_mining_coinbase}
use merged_mining_pool.Block.{BitcoinBlock, Work, generate_work}
use merged_mining_pool.Payouts.Payer.{get_primary, get_aux_n}

pub data AuxAnswer : Type 0 where
  not_found malformed : AuxAnswer
  found : AuxBlock → AuxAnswer

-- The answer of the primary node, decoded, and that of the node of the n-th auxiliary chain.
pub record Answers : Type 0 where
  pub block_template : Result Template
  pub aux_block : ℕ → AuxAnswer

-- `Target2` takes the place of the target where there is one.
abbrev pub adopted : AuxBlock → AuxBlock
adopted aux = if bytes_eq aux.target2 [] then aux else record aux { target = aux.target2 }

-- A node without an aux block ends the loop with a nil list, and without an error.
abbrev pub next_aux : AuxAnswer → (AuxBlock → Result (List AuxBlock)) → Result (List AuxBlock)
next_aux not_found more = ok []
next_aux malformed more = err Error.malformed_request
next_aux (found aux) more = more (adopted aux)

unfoldable pub fetch_aux_loop :
    (ℕ → AuxAnswer) → List Bytes → ℕ → List AuxBlock → Result (List AuxBlock)
fetch_aux_loop answers [] i auxblocks = ok auxblocks
fetch_aux_loop answers (chain_name ∷ rest) i auxblocks =
    next_aux (answers i) λ aux. fetch_aux_loop answers rest (i + 1) (auxblocks ++ aux ∷ [])

-- No aux block is asked for where the first auxiliary chain has no name.
unfoldable pub fetch_all_block_templates : List Bytes → Answers → Result (Template × List AuxBlock)
fetch_all_block_templates order answers = do
  template ← answers.block_template
  auxblocks ←
      if bytes_eq (get_aux_n order 1) []
      then ok []
      else fetch_aux_loop answers.aux_block (drop 1 order) 1 []
  ok (template, auxblocks)

-- `hexStringToByteString` panics on what is not hex.
unfoldable pub hex_string_to_byte_string : Bytes → Result Bytes
hex_string_to_byte_string text = or_stop (hex_decode text)
  where
    or_stop : Result Bytes → Result Bytes
    or_stop (ok bytes) = ok bytes
    or_stop (err e) = panic
    or_stop panic = panic

-- `templates` and `workCache` of the server, with the counter of jobs.
pub record PoolWork : Type 0 where
  pub aux_blocks : List AuxBlock
  pub block : BitcoinBlock
  pub work_cache : Work
  pub job_counter : ℕ

-- An error of the first attempt leads to a second one, once the managers have recovered.
abbrev pub again_after : Result (Unit {0}) → {A : Type 0} → Result A → Result A → Result A
again_after recovered (ok a) second = ok a
again_after recovered (err e) second = recovered >>= λ u. second
again_after recovered panic second = panic

-- The error of GenerateWork is only logged, and then its nil block is dereferenced.
abbrev pub stored : List AuxBlock → Result (BitcoinBlock × Work × ℕ) → Result PoolWork
stored auxblocks (ok (block, work, counter)) =
    ok record { aux_blocks = auxblocks; block = block; work_cache = work; job_counter = counter }
stored auxblocks (err e) = panic
stored auxblocks panic = panic

unfoldable pub fetch_rpc_block_templates_and_cache_work :
    Crypto
    → Bytes
    → List Bytes
    → Bytes
    → Result (Unit {0})
    → Answers
    → Answers
    → ℕ
    → Result PoolWork
fetch_rpc_block_templates_and_cache_work c signature order script_key recovered first second
      counter =
    do
      (template, auxblocks) ←
          again_after recovered (fetch_all_block_templates order first)
            (fetch_all_block_templates order second)
      script_sig ← create_merged_mining_coinbase c auxblocks (pos 0)
      script ← hex_string_to_byte_string script_sig
      primary ← get_primary order
      stored auxblocks (
          generate_work c (some (record template { aux_blocks = auxblocks })) primary
            (signature ++ script) script_key 8 counter)
