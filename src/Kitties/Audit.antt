-- ===== src/Kitties/Audit.antt =====
-- An audit of the kitties pallet (`pallets/kitties/src/lib.rs`): what its events tell of the balances.
pub mod Payments
pub mod Rules
pub mod Calls
pub mod Histories
pub mod Conservation
