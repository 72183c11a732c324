-- ===== src/Coins.antt =====
-- lib/coins: coin entries, the coins of one transaction, the coin view and its undo list.
pub mod Entry
pub mod Outputs
pub mod View
pub mod Undo
pub mod Spend
pub mod Overlay
