-- ===== src/Node/Service/Light.antt =====
-- `new_light` of `node/src/service.rs`: a light client.
use my_substrate_kitties.Base.{ℕ, false, not, Option, none, some}
use my_substrate_kitties.Node.Service.Types.{
  Configuration, Effect, Object, GrandpaConfig, new_longest_chain, optionally, pure, ◌>>=◌,
  Assembly, ◌>>◌, effect, try, when, new_telemetry_worker, new_light_parts, new_light_pool,
  grandpa_block_import, import_queue, never, add_grandpa_peers_set, build_network,
  build_offchain_workers, spawn_tasks, no_extensions, read_slot_duration, spawn_blocking,
  run_grandpa_observer, start_network,
}
use my_substrate_kitties.Node.Service.Partial.{wants_telemetry, run_telemetry}

abbrev pub light_grandpa_config : Configuration → Option Object → GrandpaConfig
light_grandpa_config config telemetry = record {
  gossip_duration = 333;
  justification_period = 512;
  name = config.node_name;
  observer_enabled = false;
  keystore = none;
  local_role = config.role;
  telemetry = telemetry;
}

module _ (outcome : ℕ → Effect → Option ℕ) (slot_duration : ℕ → ℕ) where
  -- The block under `if enable_grandpa`.
  unfoldable pub observe :
      Configuration → Option Object → (parts grandpa network : Object) → Assembly Object
  observe config telemetry parts grandpa network = do
    observer ←
        try outcome (run_grandpa_observer (light_grandpa_config config telemetry) grandpa network)
    effect (spawn_blocking false "grandpa-observer" parts observer)

  unfoldable pub new_light : Configuration → Assembly (Unit {0})
  unfolding observe
  new_light config = do
    telemetry ←
        optionally (wants_telemetry config.telemetry_endpoints)
          (try outcome (new_telemetry_worker 16))
    parts ← try outcome (new_light_parts telemetry)
    run_telemetry telemetry parts
    effect add_grandpa_peers_set
    select_chain ← effect (new_longest_chain parts)
    pool ← effect (new_light_pool parts)
    grandpa ← try outcome (grandpa_block_import parts select_chain telemetry)
    slot ← try outcome (read_slot_duration parts)
    queue ← try outcome (import_queue never (slot_duration slot) parts grandpa telemetry)
    network ← try outcome (build_network parts pool queue (some parts))
    when config.offchain_worker_enabled (effect (build_offchain_workers parts network))
    when (not config.disable_grandpa) (observe config telemetry parts grandpa network)
    try outcome (spawn_tasks no_extensions parts pool network (some parts) telemetry)
    effect (start_network network)
    pure tt
