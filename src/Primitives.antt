-- ===== src/Primitives.antt =====
-- lib/primitives: outpoints, inputs, outputs and transactions, as far as the other parts read them.
pub mod Tx
