-- ===== src/Node/Command.antt =====
-- What the node's command line runs, `node/src/command.rs` with `node/src/cli.rs`. The work of a
-- subcommand itself is done by the Substrate client; what the code decides is which parts of a node
-- are assembled for it, and the chain specification by its id.
pub mod Laws
pub mod Carried
pub mod Run
use Prim.Native.String.{String}
use text.Mathlib.Text.{◌==◌ as str_eq}
use my_substrate_kitties.Base.{ℕ, Bool, true, false, ◌||◌, Option, none, some, List, if◌then◌else◌}
use my_substrate_kitties.Runtime.Api.{RuntimeVersion, version}
use my_substrate_kitties.Node.ChainSpec
use my_substrate_kitties.Node.ChainSpec.{Keys, ChainSpec, development_config, local_testnet_config}
use my_substrate_kitties.Node.Service.Types.{
  Role, light, full, authority, Configuration, Effect, Assembly, pure, ◌>>=◌, ◌>>◌,
}
use my_substrate_kitties.Node.Service.Partial.{new_partial}
use my_substrate_kitties.Node.Service.Full.{new_full}
use my_substrate_kitties.Node.Service.Light.{new_light}

-- `impl SubstrateCli for Cli`. The version, the description and the author come from the build.
abbrev pub impl_name : String
impl_name = "Substrate Node"

abbrev pub support_url : String
support_url = "support.anonymous.an"

abbrev pub copyright_start_year : ℕ
copyright_start_year = 2017

abbrev pub native_runtime_version : List (String × ℕ) → RuntimeVersion
native_runtime_version runtime_api_versions = version runtime_api_versions

-- `load_spec`. Reading a specification from a file is a parameter.
unfoldable pub load_spec :
    (K : Keys)
    → Option (List ℕ)
    → (String → ChainSpec.Result (ChainSpec K))
    → String
    → ChainSpec.Result (ChainSpec K)
load_spec K wasm from_json_file id =
    if str_eq id "dev"
    then development_config K wasm
    else if str_eq id "" || str_eq id "local"
    then local_testnet_config K wasm
    else from_json_file id

-- `enum Subcommand` of `cli.rs`.
pub data Subcommand : Type 0 where
  key build_spec check_block export_blocks export_state import_blocks purge_chain revert benchmark :
      Subcommand

-- What `run` hands to a runner: a command that reads the configuration only, one over the parts of a
-- full node, or a node; or it makes no runner, for the keys and for a benchmark that was not built.
pub data Job : Type 0 where
  keys : Job
  over_config : Subcommand → Job
  over_parts : Subcommand → Job
  node : Job
  not_enabled : String → Job

-- The `match` of `run`; the first argument is `cfg!(feature = "runtime-benchmarks")`.
unfoldable pub run : Bool → Option Subcommand → Job
run benchmarks (some key) = keys
run benchmarks (some build_spec) = over_config build_spec
run benchmarks (some check_block) = over_parts check_block
run benchmarks (some export_blocks) = over_parts export_blocks
run benchmarks (some export_state) = over_parts export_state
run benchmarks (some import_blocks) = over_parts import_blocks
run benchmarks (some purge_chain) = over_config purge_chain
run benchmarks (some revert) = over_parts revert
run true (some benchmark) = over_config benchmark
run false (some benchmark) =
    not_enabled
      "Benchmarking wasn't enabled when building the node. You can enable it with `--features runtime-benchmarks`."
run benchmarks none = node

module _ (outcome : ℕ → Effect → Option ℕ) (slot_duration : ℕ → ℕ) where
  -- `run_node_until_exit`: a node by the role in the configuration.
  unfoldable pub run_node : Role → Configuration → Assembly (Unit {0})
  run_node light config = new_light outcome slot_duration config
  run_node full config = new_full outcome slot_duration config
  run_node authority config = new_full outcome slot_duration config

  -- What a job assembles before its own work.
  unfoldable pub assemble : Job → Configuration → Assembly (Unit {0})
  unfolding run_node
  assemble keys config = pure tt
  assemble (over_config command) config = pure tt
  assemble (over_parts command) config = new_partial outcome slot_duration config >> pure tt
  assemble node config = run_node config.role config
  assemble (not_enabled message) config = pure tt
