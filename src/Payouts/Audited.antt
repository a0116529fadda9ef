-- ===== src/Payouts/Audited.antt =====
-- While the database answers, a whole pass keeps the ledger of balance changes right.
use merged_mining_pool.Common.{
  ℕ, ◌≡◌, refl, sym, ap, ◌∙◌, none, some, Option, List, [], ◌∷◌, map, All, Result, ok, Bytes,
}
use mathlib.Core.Path.{subst}
use merged_mining_pool.Rows.{Found, Balance}
use merged_mining_pool.Storage.{
  Amounts, Database, Action, continue_with, ◌>>=◌, gets, modify, statement,
}
use merged_mining_pool.Storage.Blocks.{updated_row, has_row, update_block}
use merged_mining_pool.Storage.Balances.{
  Account, add_amount, get_balance, insert_balance, update_balance, store_balance,
}
use merged_mining_pool.Storage.Ledger.{IsConsistent, add_amount-IsConsistent}
use merged_mining_pool.Payouts.Setup.{PayoutConfig, Remote}
use merged_mining_pool.Payouts.Rounds.{run_pass}
use merged_mining_pool.Payouts.Frames.{
  Frame, Frames, PayoutFrame, >>=-Frames, gets-Frames, statement-Frames, modify-Frames,
}
use merged_mining_pool.Payouts.Frames.Passing.{run_pass-related}
use merged_mining_pool.Payouts.Settled.{rows_affected-Frames}

module _ {F : Type 0} (m : Amounts F) where
  -- The database answers, and the changes of every account add up to its balance.
  abbrev pub IsAudited : Database F → Type 0
  IsAudited d = (d.outages ≡ []) × IsConsistent m d

  answered : (d : Database F) → d.outages ≡ [] → statement d ≡ (ok tt, d)
  unfolding statement
  answered d up = rw up refl

  stays_audited : Frame F
  stays_audited = record {
    related = λ d e. IsAudited d → IsAudited e;
    stays = λ d h. h;
    follows = λ p q h. q (p h);
    asks = λ d h.
        subst (λ (r : Result (Unit {0}) × Database F). IsAudited r.1) (sym (answered d h.0)) h;
  }

  -- An action that succeeds, and leaves the database answering.
  abbrev Succeeds : {A : Type 0} → Action F A → Database F → Type 0
  Succeeds {A} n d = (a : A) × (e : Database F) × (n d ≡ (ok a, e)) × (e.outages ≡ [])

  >>=-Succeeds :
      {A B : Type 0} (n : Action F A) (f : A → Action F B) (d : Database F)
      → Succeeds n d
      → ((a : A) (e : Database F) → e.outages ≡ [] → Succeeds (f a) e)
      → Succeeds (n >>= f) d
  >>=-Succeeds n f d (a, e, ran, up) rest =
      let (b, e', ran', up') = rest a e up in (b, e', ap (continue_with f) ran ∙ ran', up')

  statement-Succeeds : (d : Database F) → d.outages ≡ [] → Succeeds statement d
  statement-Succeeds d up = (tt, d, answered d up, up)

  store_balance-Succeeds :
      (b : Balance F) (o : Option F) (now : ℕ) (d : Database F)
      → d.outages ≡ []
      → Succeeds (store_balance m b o now) d
  unfolding insert_balance update_balance
  store_balance-Succeeds b none now d up =
      >>=-Succeeds statement _ d (statement-Succeeds d up) λ u e up'. (tt, _, refl, up')
  store_balance-Succeeds b (some old) now d up =
      >>=-Succeeds statement _ d (statement-Succeeds d up) λ u e up'. (tt, _, refl, up')

  add_amount-Succeeds :
      (account : Account) (usage : Bytes) (x : F) (d : Database F)
      → d.outages ≡ []
      → Succeeds (add_amount m account usage x) d
  unfolding add_amount get_balance
  add_amount-Succeeds account usage x d up =
      >>=-Succeeds statement _ d (statement-Succeeds d up) λ u e up1.
        >>=-Succeeds (get_balance account) _ _
          (>>=-Succeeds statement _ _ (statement-Succeeds _ up1) λ v e' up2. (_, e', refl, up2))
          λ o e' up3. store_balance-Succeeds _ o _ e' up3

  add_amount-Frames :
      (account : Account) (usage : Bytes) (x : F)
      → Frames stays_audited (add_amount m account usage x)
  unfolding stays_audited
  add_amount-Frames account usage x = record {
    keeps = λ d (up, consistent).
        let (u, e, ran, still) = add_amount-Succeeds account usage x d up in
        subst (λ (r : Result (Unit {0}) × Database F). IsAudited r.1) (sym ran)
          (still, add_amount-IsConsistent m account usage x d consistent ran);
  }

  update_block-audited : (b : Found F) → Frames stays_audited (update_block b)
  unfolding update_block stays_audited
  update_block-audited b = >>=-Frames statement _ statement-Frames λ u.
      >>=-Frames (gets (λ d. has_row b d.blocks)) _ (gets-Frames (λ d. has_row b d.blocks)) λ found.
        >>=-Frames (modify (λ d. record d { blocks = map (updated_row b) d.blocks })) _
          (modify-Frames (λ d. record d { blocks = map (updated_row b) d.blocks }) (λ d h. h))
          λ v. rows_affected-Frames stays_audited found

  each_audited :
      (bs : List (Found F)) → All (λ (b : Found F). Frames stays_audited (update_block b)) bs
  each_audited [] = tt
  each_audited (b ∷ bs) = (update_block-audited b, each_audited bs)

  audited_frame : PayoutFrame m
  unfolding stays_audited
  audited_frame = record {
    frame = stays_audited;
    clears = λ shares d h. h;
    sends = λ sent d h. h;
    pays = λ payments d h. h;
    credits = add_amount-Frames;
  }

  -- While the database answers, a pass of the loop keeps the changes that are listed for every
  -- account adding up to its balance, whatever the nodes answer and wherever the pass ends.
  pub run_pass-IsAudited :
      (config : PayoutConfig F) (managers : Bytes → Option (Remote F)) (d : Database F)
      → IsAudited d
      → IsAudited (run_pass m config managers d).1
  unfolding audited_frame stays_audited
  run_pass-IsAudited config managers d =
      run_pass-related m audited_frame config managers d (λ bs e ran. each_audited bs)
