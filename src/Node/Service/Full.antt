-- ===== src/Node/Service/Full.antt =====
-- `new_full` of `node/src/service.rs`: a full node, with block authoring if it is an authority.
use Prim.Native.String.{String, ◌++◌ as ◌<>◌}
use my_substrate_kitties.Base.{ℕ, true, false, not, Option, none, some, if◌then◌else◌}
use my_substrate_kitties.Node.Service.Types.{
  Configuration, other, Effect, Object, GrandpaConfig, Assembly, is_authority, pure, throw, ◌>>=◌,
  ◌>>◌, effect, try, when, add_grandpa_peers_set, build_network, build_offchain_workers,
  spawn_tasks, full_extensions, new_proposer_factory, read_slot_duration, start_aura,
  spawn_blocking, run_grandpa_voter, start_network,
}
use my_substrate_kitties.Node.Service.Partial.{PartialComponents, new_partial}

-- `remote_keystore`: the error that it always returns.
abbrev pub remote_keystore : String → String
remote_keystore url = "Remote Keystore not supported."

-- `if let Some(url) = &config.keystore_remote { … }`
abbrev pub hook_remote_keystore : Option String → Assembly (Unit {0})
hook_remote_keystore none = pure tt
hook_remote_keystore (some url) =
    throw (other ("Error hooking up remote keystore for " <> url <> ": " <> remote_keystore url))

abbrev pub full_grandpa_config : Configuration → PartialComponents → GrandpaConfig
full_grandpa_config config components = record {
  gossip_duration = 333;
  justification_period = 512;
  name = config.node_name;
  observer_enabled = false;
  keystore = if is_authority config.role then some components.parts else none;
  local_role = config.role;
  telemetry = components.telemetry;
}

module _ (outcome : ℕ → Effect → Option ℕ) (slot_duration : ℕ → ℕ) where
  -- The block under `if role.is_authority()`.
  unfoldable pub author_blocks : Configuration → PartialComponents → Object → Assembly Object
  author_blocks config components network = do
    let parts = components.parts
    let telemetry = components.telemetry
    proposer_factory ← effect (new_proposer_factory parts components.transaction_pool telemetry)
    slot ← try outcome (read_slot_duration parts)
    aura ← try outcome (
        start_aura (slot_duration slot) config.force_authoring parts components.select_chain
          components.grandpa proposer_factory network telemetry)
    effect (spawn_blocking true "aura" parts aura)

  -- The block under `if enable_grandpa`.
  unfoldable pub vote : Configuration → PartialComponents → Object → Assembly Object
  vote config components network = do
    voter ←
        try outcome
          (run_grandpa_voter (full_grandpa_config config components) components.grandpa network)
    effect (spawn_blocking true "grandpa-voter" components.parts voter)

  -- `new_full` once `new_partial` has returned its parts.
  unfoldable pub over_components : Configuration → PartialComponents → Assembly (Unit {0})
  over_components config components = do
    let parts = components.parts
    let pool = components.transaction_pool
    hook_remote_keystore config.keystore_remote
    effect add_grandpa_peers_set
    network ← try outcome (build_network parts pool components.import_queue none)
    when config.offchain_worker_enabled (effect (build_offchain_workers parts network))
    try outcome
        (spawn_tasks (full_extensions parts pool) parts pool network none components.telemetry)
    when (is_authority config.role) (author_blocks config components network)
    when (not config.disable_grandpa) (vote config components network)
    effect (start_network network)
    pure tt

  unfoldable pub new_full : Configuration → Assembly (Unit {0})
  new_full config = do
    components ← new_partial outcome slot_duration config
    over_components config components
