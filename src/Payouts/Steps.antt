-- ===== src/Payouts/Steps.antt =====
-- What happens to the database while the payouts run: passes of the loop, and between them the
-- pool's own insertions of shares and blocks, the passing of time, and statements that will fail.
use merged_mining_pool.Common.{ℕ, suc, ◌≢◌, sym, Option, List, [], ◌∷◌, ◌++◌, map, All, Bytes}
use mathlib.Core.Path.{subst}
use merged_mining_pool.Rows.{Share, Found, status_pending}
use merged_mining_pool.Storage.{Outage, Amounts, Database, gets, modify, statement, outcome}
use merged_mining_pool.Storage.Blocks.{
  updated_row, has_row, update_block, insert_block, round_to_three_digits,
}
use merged_mining_pool.Storage.Shares.{insert_batch, place_all}
use merged_mining_pool.Payouts.Setup.{PayoutConfig, Remote}
use merged_mining_pool.Payouts.Rounds.{run_pass}
use merged_mining_pool.Payouts.Frames.{
  Frame, Frames, PayoutFrame, tables_frame, >>=-Frames, gets-Frames, statement-Frames,
  modify-Frames, change-Frames,
}
use merged_mining_pool.Payouts.Frames.Passing.{run_pass-related}
use merged_mining_pool.Payouts.Unlocked.{IsRow}
use merged_mining_pool.Payouts.Settled.{run_pass-settled, row_stays, rows_affected-Frames}
use merged_mining_pool.Payouts.Numbers.{
  IsRising, IsRising-snoc, ids, IsOrdered, IsOrdered-IsNumbered, ids-snoc, ids-updated,
  row_of_append,
}

module _ {F : Type 0} where
  -- The numbers stay.
  numbers_stay : Frame F
  unfolding statement
  numbers_stay = record {
    related = λ d e. IsOrdered d → IsOrdered e;
    stays = λ d h. h;
    follows = λ p q h. q (p h);
    asks = λ d. by_flags d d.outages;
  }
    where
      by_flags : (d : Database F) (o : List Outage) → IsOrdered d → IsOrdered (outcome o d).1
      by_flags d [] h = h
      by_flags d (Outage.fails ∷ o) h = h
      by_flags d (Outage.answers ∷ o) h = h
      by_flags d (Outage.breaks_off n ∷ o) h = h

  update_block-ordered : (b : Found F) → Frames numbers_stay (update_block b)
  unfolding update_block numbers_stay
  update_block-ordered b = >>=-Frames statement _ statement-Frames λ u.
      >>=-Frames (gets (λ d. has_row b d.blocks)) _ (gets-Frames (λ d. has_row b d.blocks)) λ found.
        >>=-Frames (modify (λ d. record d { blocks = map (updated_row b) d.blocks })) _
          (modify-Frames (λ d. record d { blocks = map (updated_row b) d.blocks })
            (λ d h. subst (λ n. IsRising n d.next_id) (sym (ids-updated b d.blocks)) h))
          λ v. rows_affected-Frames numbers_stay found

  each_ordered :
      (bs : List (Found F)) → All (λ (b : Found F). Frames numbers_stay (update_block b)) bs
  each_ordered [] = tt
  each_ordered (b ∷ bs) = (update_block-ordered b, each_ordered bs)

module _ {F : Type 0} (m : Amounts F) (config : PayoutConfig F) where
  pub data Step : Database F → Database F → Type 0 where
    pass :
        (managers : Bytes → Option (Remote F)) (d : Database F)
        → Step d (run_pass m config managers d).1
    found : (block : Found F) (d : Database F) → Step d (insert_block m block d).1
    shared : (shares : List (Share F)) (d : Database F) → Step d (insert_batch shares d).1
    waits : (later : ℕ) (d : Database F) → Step d (record d { now = later })
    fails : (outages : List Outage) (d : Database F) → Step d (record d { outages = outages })

  pub data Steps : Database F → Database F → Type 0 where
    done : (d : Database F) → Steps d d
    then_step : {d e f : Database F} → Step d e → Steps e f → Steps d f

  numbers_frame : PayoutFrame m
  unfolding numbers_stay
  numbers_frame =
      tables_frame m numbers_stay (λ x d h. h) (λ x d h. h) (λ x d h. h) (λ x d h. h) (λ x d h. h)

  run_pass-IsOrdered :
      (managers : Bytes → Option (Remote F)) (d : Database F)
      → IsOrdered d
      → IsOrdered (run_pass m config managers d).1
  unfolding numbers_frame numbers_stay tables_frame
  run_pass-IsOrdered managers d =
      run_pass-related m numbers_frame config managers d (λ bs e ran. each_ordered bs)

  abbrev numbered : Found F → Database F → Found F
  numbered block d = record block {
    id = d.next_id;
    network_difficulty = round_to_three_digits m block.network_difficulty;
  }

  abbrev with_row : Found F → Database F → Database F
  with_row block d = record d {
    blocks = d.blocks ++ numbered block d ∷ [];
    next_id = suc d.next_id;
  }

  insert_block-ordered : (block : Found F) → Frames numbers_stay (insert_block m block)
  unfolding insert_block numbers_stay
  insert_block-ordered block = change-Frames (with_row block) λ d h.
      subst (λ n. IsRising n (suc d.next_id)) (sym (ids-snoc d.blocks (numbered block d)))
        (IsRising-snoc (ids d.blocks) d.next_id h)

  insert_block-stays : (i : ℕ) (r block : Found F) → Frames (row_stays i r) (insert_block m block)
  unfolding insert_block row_stays
  insert_block-stays i r block =
      change-Frames (with_row block) λ d h. row_of_append d.blocks (numbered block d) i h

  insert_batch-ordered : (shares : List (Share F)) → Frames numbers_stay (insert_batch shares)
  unfolding insert_batch numbers_stay
  insert_batch-ordered shares =
      change-Frames (λ d. record d { shares = place_all shares d.shares }) λ d h. h

  insert_batch-stays :
      (i : ℕ) (r : Found F) (shares : List (Share F)) → Frames (row_stays i r) (insert_batch shares)
  unfolding insert_batch row_stays
  insert_batch-stays i r shares =
      change-Frames (λ d. record d { shares = place_all shares d.shares }) λ d h. h

  -- One step keeps the order of the numbers.
  Step-IsOrdered : {d e : Database F} → Step d e → IsOrdered d → IsOrdered e
  unfolding numbers_stay
  Step-IsOrdered (pass managers d) h = run_pass-IsOrdered managers d h
  Step-IsOrdered (found block d) h = (insert_block-ordered block).keeps d h
  Step-IsOrdered (shared shares d) h = (insert_batch-ordered shares).keeps d h
  Step-IsOrdered (waits later d) h = h
  Step-IsOrdered (fails outages d) h = h

  Step-settled :
      (i : ℕ) (r : Found F) {d e : Database F}
      → Step d e
      → IsOrdered d
      → IsRow i r d
      → r.status ≢ status_pending
      → IsRow i r e
  unfolding row_stays
  Step-settled i r (pass managers d) h at settled =
      run_pass-settled m i r config managers d (IsOrdered-IsNumbered d h) at settled
  Step-settled i r (found block d) h at settled = (insert_block-stays i r block).keeps d at
  Step-settled i r (shared shares d) h at settled = (insert_batch-stays i r shares).keeps d at
  Step-settled i r (waits later d) h at settled = at
  Step-settled i r (fails outages d) h at settled = at

  -- Whatever happens, passes with any answers of the nodes, failing statements, new blocks and
  -- shares: when the rows stand in the order of their numbers, a row that is not pending is never
  -- changed or removed again, and the order of the numbers is kept.
  pub Steps-settled :
      (i : ℕ) (r : Found F) {d e : Database F}
      → Steps d e
      → IsOrdered d
      → IsRow i r d
      → r.status ≢ status_pending
      → IsRow i r e × IsOrdered e
  Steps-settled i r (done d) h at settled = (at, h)
  Steps-settled i r (then_step s rest) h at settled =
      Steps-settled i r rest (Step-IsOrdered s h) (Step-settled i r s h at settled) settled
