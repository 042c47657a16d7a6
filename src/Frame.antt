-- ===== src/Frame.antt =====
-- What the pallets use of FRAME and of the Substrate node, which is not code of this repository:
-- the shape of a dispatchable function here, the storage maps and the currency as interfaces below.
pub mod Dispatch
pub mod Pallets
pub mod Storage
pub mod Currency
