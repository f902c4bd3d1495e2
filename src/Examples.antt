-- ===== src/Examples.antt =====
-- Runs of the definitions at concrete inputs, where the conditions of the theorems hold.
pub mod Desk
pub mod Worker
pub mod Amounts
pub mod Rates
pub mod Statuses
pub mod Stocks
pub mod Fulfilment
pub mod Cancellations
pub mod Cash
pub mod Carts
pub mod Transfers
