-- ===== src/Tests.antt =====
-- Runs at concrete tables, and the theorems at them.
mod Data
mod Checkout
mod Payment
mod Ballot
mod Competitions
mod Access
mod Lifecycle
mod Queue
mod Standings
mod RoundRobin
mod Tokens
mod Scanner
