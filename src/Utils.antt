-- ===== src/Utils.antt =====
-- lib/utils: the algorithms that other parts share.
pub mod Binary
mod Tests
