-- ===== src/Examples.antt =====
-- Concrete runs of the models: one for each theorem with hypotheses.
mod Data
mod Quotas
mod Cycles
mod Routes
mod Requests
mod Counters
mod Clocks
mod Keys
mod Stores
mod Accounts
mod Passthroughs
mod Sessions
