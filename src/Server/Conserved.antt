-- ===== src/Server/Conserved.antt =====
-- No share that is credited is lost or written twice.
use merged_mining_pool.Common.{
  ℕ, ◌+◌, ◌≡◌, refl, ap, inl, inr, Bool, Option, none, some, List, [], ◌∷◌, ◌++◌, arith, leb,
  if◌then◌else◌, Bool-cases,
}
use merged_mining_pool.Rows.{Share}
use merged_mining_pool.Storage.{Outage, statement, outcome, continue_with, modify}
use merged_mining_pool.Storage.Shares.{place, place_all, insert_batch}
use merged_mining_pool.Server.{
  Server, take_buffer, written, write_shares, Step, credits, takes, writes, fails, Steps, done,
  then_step,
}

-- How many shares have a property.
abbrev pub count : {F : Type 0} → (Share F → Bool) → List (Share F) → ℕ
count p [] = 0
count p (s ∷ ss) = (if p s then 1 else 0) + count p ss

module _ {F : Type 0} (p : Share F → Bool) where
  count-append : (xs ys : List (Share F)) → count p (xs ++ ys) ≡ count p xs + count p ys
  count-append [] ys = omega arith
  count-append (x ∷ xs) ys = omega (arith, count-append xs ys)

  count-place : (x : Share F) (xs : List (Share F)) → count p (place x xs) ≡ count p (x ∷ xs)
  unfolding place
  count-place x [] = refl
  count-place x (y ∷ ys) = elim (Bool-cases (leb y.created x.created)) [
    | inl e ↦ rw e refl
    | inr e ↦ rw e (omega (arith, count-place x ys))
  ]

  count-place_all :
      (xs table : List (Share F)) → count p (place_all xs table) ≡ count p xs + count p table
  unfolding place_all
  count-place_all [] table = omega arith
  count-place_all (x ∷ xs) table =
      omega (arith, count-place_all xs (place x table), count-place x table)

  abbrev waiting : Option (List (Share F)) → ℕ
  waiting none = 0
  waiting (some shares) = count p shares

  -- In the buffer, on their way, and in the database.
  abbrev pub held : Server F → ℕ
  held s = count p s.share_buffer + (waiting s.to_write + count p s.database.shares)

  written-held :
      (shares : List (Share F)) (s : Server F)
      → s.to_write ≡ some shares
      → held (write_shares shares s) ≡ held s
  unfolding write_shares insert_batch statement
  written-held shares s at = by_flags s.database.outages
    where
      by_flags :
          (o : List Outage)
          → held (
              written shares s (
                continue_with
                  (λ u. modify (λ d. record d { shares = place_all shares d.shares }))
                  (outcome o s.database)))
            ≡ held s
      by_flags [] = omega (arith, count-place_all shares s.database.shares, ap waiting at)
      by_flags (Outage.fails ∷ o) = omega (arith, count-append s.share_buffer shares, ap waiting at)
      by_flags (Outage.answers ∷ o) =
          omega (arith, count-place_all shares s.database.shares, ap waiting at)
      by_flags (Outage.breaks_off n ∷ o) =
          omega (arith, count-place_all shares s.database.shares, ap waiting at)

  Step-held : {new : List (Share F)} {s t : Server F} → Step new s t → held t ≡ count p new + held s
  unfolding take_buffer
  Step-held (credits share s) = omega (arith, count-append s.share_buffer (share ∷ []))
  Step-held (takes s idle) = omega (arith, ap waiting idle)
  Step-held (writes shares s at) = omega (arith, written-held shares s at)
  Step-held (fails outages s) = omega arith

  -- In every interleaving of credits, of the goroutine that writes the buffer, and of failures of the
  -- database: the shares with any property that are in the buffer, on their way, or in the database
  -- are those that were there before and those that have been credited since.
  pub Steps-held :
      {new : List (Share F)} {s t : Server F} → Steps new s t → held t ≡ count p new + held s
  Steps-held (done s) = omega arith
  Steps-held (then_step {new = new} {later = later} step steps) =
      omega (arith, count-append new later, Step-held step, Steps-held steps)
