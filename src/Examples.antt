-- ===== src/Examples.antt =====
-- The theorems at concrete inputs.
mod Scopes
mod Retries
mod Buses
mod Candidates
mod Channels
mod Policies
mod Breakers
mod Contexts
mod Compositions
mod Snapshots
mod Receipts
mod Ledgers
