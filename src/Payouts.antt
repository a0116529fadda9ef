-- ===== src/Payouts.antt =====
-- payouts: what the pool pays to its miners.
pub mod Setup
pub mod Payer
pub mod Addresses
pub mod Tally
pub mod Schemes
pub mod Takes
pub mod Pages
pub mod Whole
pub mod Scores
pub mod Classify
pub mod Rewards
pub mod Payments
pub mod Rounds
pub mod Frames
pub mod Unlocked
pub mod Settled
pub mod Numbers
pub mod Steps
pub mod Audited
pub mod Grouping
pub mod Recorded
pub mod Unrecorded
