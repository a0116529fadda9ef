-- ===== src/Intake/Replay.antt =====
-- What a sequence of submissions puts behind the buffered shares.
use merged_mining_pool.Common.{
  ℕ, ◌≡◌, refl, sym, ap, ◌∙◌, List, [], ◌∷◌, ◌++◌, append-nil, append_assoc, Result, ok, err, panic,
}
use merged_mining_pool.Crypto.{Crypto}
use merged_mining_pool.Target.{Floats}
use merged_mining_pool.Rows.{Share}
use merged_mining_pool.Block.{BitcoinBlock, Work}
use merged_mining_pool.Share.{ShareStatus, share_invalid, share_valid, share_candidate}
use merged_mining_pool.Intake.{
  StratumClient, Config, Intake, Nodes, Judged, judge_work, share_of, settle, settled,
  recieve_work_from_client, credit,
}
use merged_mining_pool.Intake.Credit.{kept_buffer, submit_candidates-buffer}

module _ {F B : Type 0} (c : Crypto) (f : Floats F B) (nodes : Nodes) (now : ℕ) (config : Config F)
    (client : StratumClient) where
  -- A panic ends the program; an error is only told to the client.
  abbrev unless_panic :
      Intake F × Result (Unit {0}) → (Intake F → Result (Intake F)) → Result (Intake F)
  unless_panic (s, ok u) more = more s
  unless_panic (s, err e) more = more s
  unless_panic (s, panic) more = panic

  -- Submissions one after the other, each with the block that was current when it came.
  abbrev pub recieve_all : List (BitcoinBlock × Work) → Intake F → Result (Intake F)
  recieve_all [] s = ok s
  recieve_all ((primary, share) ∷ rest) s =
      unless_panic (recieve_work_from_client c f nodes now config primary share client s)
        (recieve_all rest)

  abbrev credit_by : ShareStatus → Judged F → List (Share F)
  credit_by share_invalid j = []
  credit_by share_valid j = share_of c f nodes now config client j ∷ []
  credit_by share_candidate j = share_of c f nodes now config client j ∷ []

  abbrev credit_of : Result (Judged F) → List (Share F)
  credit_of (ok j) = credit_by j.status j
  credit_of (err e) = []
  credit_of panic = []

  -- The credit of each submission, from that submission and its block alone.
  abbrev pub credits : List (BitcoinBlock × Work) → List (Share F)
  credits [] = []
  credits ((primary, share) ∷ rest) =
      credit_of (judge_work c f nodes now config primary share client) ++ credits rest

  settle-credit_by :
      (status : ShareStatus) (j : Judged F) (s : Intake F)
      → (settle c f nodes now status config client j s).0.share_buffer
        ≡ s.share_buffer ++ credit_by status j
  unfolding credit
  settle-credit_by share_invalid j s = sym (append-nil s.share_buffer)
  settle-credit_by share_valid j s = refl
  settle-credit_by share_candidate j s =
      kept_buffer c f nodes now config client (credit c f nodes now config client j s) _ (
        submit_candidates-buffer c f nodes now config client j
          (credit c f nodes now config client j s))

  settled-credit_of :
      (judged : Result (Judged F)) (s : Intake F)
      → (settled c f nodes now config client s judged).0.share_buffer
        ≡ s.share_buffer ++ credit_of judged
  settled-credit_of (ok j) s = settle-credit_by j.status j s
  settled-credit_of (err e) s = sym (append-nil s.share_buffer)
  settled-credit_of panic s = sym (append-nil s.share_buffer)

  -- However many submissions a client makes, none of which panics, and whatever was credited before:
  -- the shares put behind the buffer are the credits of the single submissions, in order, each of
  -- which depends on that submission and its block alone, so a work that is sent again is credited
  -- again.
  pub recieve_all-credits :
      (works : List (BitcoinBlock × Work)) (s : Intake F) {s' : Intake F}
      → recieve_all works s ≡ ok s'
      → s'.share_buffer ≡ s.share_buffer ++ credits works
  unfolding recieve_work_from_client
  recieve_all-credits [] s {s'} h =
      let same : s ≡ s' = cc in rw (append-nil s.share_buffer) (ap (λ t. t.share_buffer) (sym same))
  recieve_all-credits ((primary, share) ∷ rest) s {s'} h =
      let judged = judge_work c f nodes now config primary share client in
      step (settled c f nodes now config client s judged) (settled-credit_of judged s)
        (λ t e. recieve_all-credits rest t e) h
    where
      step :
          (r : Intake F × Result (Unit {0}))
          → r.0.share_buffer
            ≡ s.share_buffer ++ credit_of (judge_work c f nodes now config primary share client)
          → ((t : Intake F)
              → recieve_all rest t ≡ ok s'
              → s'.share_buffer ≡ t.share_buffer ++ credits rest)
          → unless_panic r (recieve_all rest) ≡ ok s'
          → s'.share_buffer ≡ s.share_buffer ++ credits ((primary, share) ∷ rest)
      step (t, ok u) now_at ih h = ih t h ∙ rw now_at (append_assoc s.share_buffer _ _)
      step (t, err e) now_at ih h = ih t h ∙ rw now_at (append_assoc s.share_buffer _ _)
      step (t, panic) now_at ih h = cc
