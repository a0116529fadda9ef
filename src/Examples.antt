-- ===== src/Examples.antt =====
-- Concrete runs of the theorems, one for each.
mod Toy
mod Encodings
mod Coinbases
mod Trees
mod Headers
mod Shares
mod Nodes
mod Credits
mod Logins
mod Ledger
mod Servers
mod Fetches
mod Passes
mod Pages
mod Payments
