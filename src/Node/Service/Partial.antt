-- ===== src/Node/Service/Partial.antt =====
-- `new_partial` of `node/src/service.rs`: the parts that every command of a full node shares.
use Prim.Native.String.{String}
use my_substrate_kitties.Base.{ℕ, Bool, true, false, Option, none, some, List, [], ◌∷◌, is_some}
use my_substrate_kitties.Node.Service.Types.{
  Configuration, other, Effect, new_telemetry_worker, new_full_parts, spawn, new_full_pool,
  new_longest_chain, optionally, Object, ◌>>=◌, grandpa_block_import, read_slot_duration,
  import_queue, native_version, Assembly, is_authority, pure, throw, ◌>>◌, effect, try, when,
}

-- `telemetry_endpoints.filter(|x| !x.is_empty())`: whether telemetry is wanted.
abbrev pub wants_telemetry : Option (List String) → Bool
wants_telemetry none = false
wants_telemetry (some []) = false
wants_telemetry (some (_ ∷ _)) = true

-- `telemetry.map(|(worker, telemetry)| …)`: the worker runs as a task.
abbrev pub run_telemetry : Option Object → Object → Assembly (Unit {0})
run_telemetry none parts = pure tt
run_telemetry (some worker) parts = effect (spawn false "telemetry" parts worker) >> pure tt

-- `sc_service::PartialComponents`: the client, the backend, the task manager and the keystore container
-- of `parts`, and the rest; `grandpa` stands for the block import and the link.
pub record PartialComponents : Type 0 where
  pub parts : Object
  pub import_queue : Object
  pub select_chain : Object
  pub transaction_pool : Object
  pub grandpa : Object
  pub telemetry : Option Object

module _ (outcome : ℕ → Effect → Option ℕ) (slot_duration : ℕ → ℕ) where
  unfoldable pub new_partial : Configuration → Assembly PartialComponents
  new_partial config = do
    when (is_some config.keystore_remote)
        (throw {A = Object} (other "Remote Keystores are not supported."))
    telemetry ←
        optionally (wants_telemetry config.telemetry_endpoints)
          (try outcome (new_telemetry_worker 16))
    parts ← try outcome (new_full_parts telemetry)
    run_telemetry telemetry parts
    select_chain ← effect (new_longest_chain parts)
    transaction_pool ← effect (new_full_pool (is_authority config.role) parts)
    grandpa ← try outcome (grandpa_block_import parts select_chain telemetry)
    slot ← try outcome (read_slot_duration parts)
    queue ← try outcome (import_queue native_version (slot_duration slot) parts grandpa telemetry)
    pure (record {
      parts = parts;
      import_queue = queue;
      select_chain = select_chain;
      transaction_pool = transaction_pool;
      grandpa = grandpa;
      telemetry = telemetry;
    })
