-- ===== src/Examples.antt =====
-- Runs of the model on concrete inputs, and the theorems at inputs that meet their hypotheses.
mod Market
mod Fees
mod Trading
mod Clock
mod Book
mod Checks
mod Metrics
mod Api
mod Quotes
