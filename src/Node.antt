-- ===== src/Node.antt =====
-- The node, `node/src`: the presets of its chain (`chain_spec.rs`), the choice of what to run
-- (`command.rs`, `cli.rs`) and the assembly of a full and of a light client (`service.rs`).
pub mod ChainSpec
pub mod Service
pub mod Command
pub mod Rpc
pub mod Genesis
mod Tests
