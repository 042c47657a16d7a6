-- ===== src/Kitties/Ordering.antt =====
-- The order of calls of the kitties pallet (`pallets/kitties/src/lib.rs`): an offer for a kitty and a
-- call that is not about that kitty.
pub mod Offers
pub mod Unmoved
pub mod Writes
pub mod Calls
pub mod Alike
pub mod Swap
pub mod Moving
pub mod Shuffle
