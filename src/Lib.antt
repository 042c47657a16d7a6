-- ===== src/Lib.antt =====
-- A model of a Substrate node for a chain of kitties: its two pallets, the presets of the chain and
-- the assembly of the node, with the theorems that they keep their promises.
--
-- The program's parts.
-- - `pallets/kitties/src/lib.rs` keeps the kitties of the chain: how many there are, the dna and the
--   birth time of each, its owner and the price that the owner asks. Signed accounts create, breed,
--   adopt, abandon, transfer, price and buy kitties. For each kitty that an account owns, the pallet
--   reserves a deposit of that account with the currency (`pallet_balances` in the runtime).
-- - `pallets/template/src/lib.rs` keeps one number, which a call sets and another one increments.
-- - `runtime/src/lib.rs` fixes the constants of the chain and the configuration of the pallets.
-- - `node/src/chain_spec.rs` makes the genesis state of the presets out of these constants.
-- - `node/src/service.rs` assembles a full node or a light client out of the Substrate client's parts,
--   and `node/src/command.rs`, `node/src/cli.rs` choose what to assemble from the command line.
--
-- The files.
-- - Base and its children: names of the library, lists, options and bit operations on numbers.
-- - Frame: what the pallets use of Substrate. Frame/Dispatch is the shape of a dispatchable function,
--   `S → Result × S`, with `?`, `ensure!`, `fail!` and `unwrap`. Frame/Storage and Frame/Currency are
--   the interfaces of a storage map and of a currency with reserves; the laws of `StorageMap` stand
--   in the record, those of a currency in `IsLawful`. Storage/Assoc and Currency/Ledger
--   are instances for the tests and witnesses. Frame/Dispatch/Agree relates functions
--   over two storages.
-- - Kitties/Types, Kitties/Helpers and Kitties/Calls follow `pallets/kitties/src/lib.rs` statement by
--   statement: the types and the storage (`State` has a field for each storage item, for the
--   deposited events and for the state of the currency), the second `impl` block, and the
--   dispatchable functions under their names, which `dispatch` chooses by a `Request`.
--   Kitties/Transition is the specification, a step relation on the storage that names no function of
--   the code but `get_random_value` and `breed_dna`, for the dna of a new kitty, and
--   Kitties/Implements sets the functions against it. Kitties/Invariant, Holdings, Deposits, History,
--   Wealth, Authority, Prices, LifeCycle, Progress, Failure, Replay, Population and Resale argue from
--   the specification; Possession, Exit and Audit from it and from the functions; Sale, SelfDealing,
--   Custody, Adoption, Colony, Breeding, Dna, Reasons, Ordering, Verdict, Weights and Market from the
--   functions themselves. Verdict is the table of the conditions and errors of each call; Weights
--   runs the calls over a storage map and a currency that count (Storage/Counting, Currency/Counting,
--   Dispatch/Cost in Frame); Audit sets the balances against the events. Kitties/Mock is
--   `pallets/kitties/src/mock.rs`, Kitties/Tests the unit tests of `pallets/kitties/src/tests.rs`.
-- - Template, Template/Laws and Template/Tests: `pallets/template/src`; Template/Benchmarking is its
--   `benchmarking.rs`.
-- - Runtime: the constants of `runtime/src/lib.rs`. Runtime/Calls is the runtime that it composes: the
--   configuration of both pallets, their joint state, and a call of either pallet or of one from
--   elsewhere, which may do anything to the balances; Runtime/Laws, Soundness and Ownership are about
--   sequences of such calls. Runtime/Api is the runtime API, Runtime/Benchmarks its `dispatch_benchmark`.
--   Runtime/Config, Kitties/Mock/Runtime and Template/Mock are the table of pallets and the
--   configurations in the three runtimes, in the types of Frame/Pallets.
-- - Node/ChainSpec, Node/Service, Node/Rpc and Node/Command: the files of these names under
--   `node/src`. Node/Genesis leads from a preset to the kitties of its chain. A node
--   is assembled by calls of the Substrate client; an `Effect` is such a call with the settings that
--   the code chooses and the objects that it hands on. An object is told by the number of calls made
--   before the call that returned it, so the model keeps the sequence of the calls and what goes from
--   one to the other. Service/Script has the calls of each assembly as a list written out, against
--   which Service/Carried and Command/Carried set the functions. Node/Command/Run follows the command
--   line to its end.
--
-- Parameters. A kitties `Config` holds the origin and its signer (`ensure_signed`), the currency, the
-- storage map, the deposit, the encoding and the hash of the input of `get_random_value`; a `Block`
-- holds what a call reads of its block: the random seed, the index of the extrinsic, the time. The
-- theorems that speak of balances assume that the currency is lawful, which is what
-- `ReservableCurrency` documents: a failed call changes nothing, a successful one moves the amount.
-- The derivation of keys and the wasm binary are parameters of the chain specification. Whether each
-- call of the Substrate client fails, told by the number of the call, is the parameter `outcome` of
-- the service, and the slot duration of each read its `slot_duration`; whether `sc_cli` makes a
-- runner and how the work of a subcommand ends is a `SubstrateCli`. The RPC handler and its
-- extensions, and what the runtime API forwards to, are records named `Substrate`.
--
-- Errors. With this version of FRAME (`monthly-2021-08`) a dispatchable function without
-- `#[transactional]`, and no function here has it, keeps what it wrote before it fails. So a failed
-- call returns the storage that it leaves.
--
-- Bounds. Numbers are unbounded, with the bounds of `u32` written out where the code tests or relies
-- on them: the count of kitties is below 2 ^ 32, and its increment wraps. A byte of a dna is a number.
-- Balances and moments are numbers; that they fit in their types is the
-- currency's and the clock's business. No function needs fuel: `breed_dna` recurs on the number of
-- bytes left, histories and the calls of a `vec!` on lists.
--
-- Not modelled: fees, the metadata and the macros' code; what Substrate does with the weights, the call
-- filter, the signed extensions, `pallet_sudo` and the configurations of its own pallets, which are
-- values here (`runtime/src/lib.rs`); what an object of the client holds; the work that a
-- subcommand does; the entry point and the build scripts.
pub mod Base
pub mod Frame
pub mod Kitties
pub mod Template
pub mod Runtime
pub mod Node
