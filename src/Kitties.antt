-- ===== src/Kitties.antt =====
-- The kitties pallet, `pallets/kitties/src/lib.rs`: its types and storage in `Types`, its internal
-- functions in `Helpers` and its dispatchable functions in `Calls`; the other modules are about what
-- these do.
pub mod Types
pub mod Helpers
pub mod Calls
pub mod Transition
pub mod Implements
pub mod Invariant
pub mod Holdings
pub mod Deposits
pub mod History
pub mod Wealth
pub mod Authority
pub mod Sale
pub mod SelfDealing
pub mod LifeCycle
pub mod Breeding
pub mod Dna
pub mod Progress
pub mod Failure
pub mod Custody
pub mod Reasons
pub mod Prices
pub mod Adoption
pub mod Colony
pub mod Replay
pub mod Population
pub mod Ordering
pub mod Verdict
pub mod Weights
pub mod Market
pub mod Resale
pub mod Possession
pub mod Exit
pub mod Audit
mod Mock
mod Tests
mod Examples
