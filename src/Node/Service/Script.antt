-- ===== src/Node/Service/Script.antt =====
-- What each assembly of `node/src/service.rs` has to do, as a list of calls written out, and how such a
-- list is carried out: until the first call that fails.
use my_substrate_kitties.Base.{
  ℕ, ◌+◌, Bool, true, false, not, Option, none, some, List, [], ◌∷◌, ◌++◌, length, if◌then◌else◌,
}
use my_substrate_kitties.Node.Service.Types.{
  Configuration, is_authority, Object, GrandpaConfig, native_version, never, full_extensions,
  no_extensions, Effect, new_telemetry_worker, new_full_parts, new_light_parts, spawn,
  spawn_blocking, new_longest_chain, new_full_pool, new_light_pool, grandpa_block_import,
  read_slot_duration, import_queue, add_grandpa_peers_set, build_network, build_offchain_workers,
  spawn_tasks, new_proposer_factory, start_aura, run_grandpa_voter, run_grandpa_observer,
  start_network, Result, ok, err, external,
}
use my_substrate_kitties.Node.Service.Partial.{wants_telemetry}

-- A call under `?`, and one that cannot fail.
pub data Step : Type 0 where
  fallible sure : Effect → Step

-- The calls are made in order, each with the number of calls before it, and none after one that fails.
abbrev pub carry_out :
    (ℕ → Effect → Option ℕ) → List Step → List Effect → Result (Unit {0}) × List Effect
carry_out outcome [] trace = (ok tt, trace)
carry_out outcome (sure e ∷ steps) trace = carry_out outcome steps (e ∷ trace)
carry_out outcome (fallible e ∷ steps) trace =
    let rest = carry_out outcome steps (e ∷ trace) in
    elim (outcome (length trace) e) [ none ↦ rest | some code ↦ (err (external code), e ∷ trace) ]

-- The calls of a list when none fails, the latest first.
abbrev pub all_made : List Step → List Effect → List Effect
all_made [] trace = trace
all_made (sure e ∷ steps) trace = all_made steps (e ∷ trace)
all_made (fallible e ∷ steps) trace = all_made steps (e ∷ trace)

abbrev only_if : Bool → List Step → List Step
only_if true steps = steps
only_if false steps = []

-- The telemetry worker is the first object, if there is one, and its task runs when the parts are there.
abbrev pub worker : Bool → Option Object
worker true = some 0
worker false = none

abbrev pub parts_at : Bool → Object
parts_at true = 1
parts_at false = 0

-- The number of calls before the one that makes the chain selection.
abbrev pub chain_at : Bool → Object
chain_at true = 3
chain_at false = 1

module _ (slot_duration : ℕ → ℕ) (config : Configuration) where
  abbrev telemetry : Bool
  telemetry = wants_telemetry config.telemetry_endpoints

  abbrev pub partial_steps : Bool → Object → Object → List Step
  partial_steps t parts chain =
      only_if t (fallible (new_telemetry_worker 16) ∷ [])
      ++ (fallible (new_full_parts (worker t)) ∷ [])
      ++ only_if t (sure (spawn false "telemetry" parts 0) ∷ [])
      ++ (sure (new_longest_chain parts)
          ∷ sure (new_full_pool (is_authority config.role) parts)
          ∷ fallible (grandpa_block_import parts chain (worker t))
          ∷ fallible (read_slot_duration parts)
          ∷ fallible
              (import_queue native_version (slot_duration (chain + 3)) parts (chain + 2) (worker t))
          ∷ [])

  -- `new_partial`
  abbrev pub partial_script : List Step
  partial_script = partial_steps telemetry (parts_at telemetry) (chain_at telemetry)

  abbrev voter_config : Bool → Object → GrandpaConfig
  voter_config t parts = record {
    gossip_duration = 333;
    justification_period = 512;
    name = config.node_name;
    observer_enabled = false;
    keystore = if is_authority config.role then some parts else none;
    local_role = config.role;
    telemetry = worker t;
  }

  -- Block authoring, whose first call has the number `n`, and voting.
  abbrev author_steps : Bool → Object → Object → Object → Object → List Step
  author_steps t parts chain network n =
      sure (new_proposer_factory parts (chain + 1) (worker t))
      ∷ fallible (read_slot_duration parts)
      ∷ fallible (
          start_aura (slot_duration (n + 1)) config.force_authoring parts chain (chain + 2) n
            network (worker t))
      ∷ sure (spawn_blocking true "aura" parts (n + 2))
      ∷ []

  abbrev vote_steps : Bool → Object → Object → Object → Object → List Step
  vote_steps t parts chain network n =
      fallible (run_grandpa_voter (voter_config t parts) (chain + 2) network)
      ∷ sure (spawn_blocking true "grandpa-voter" parts n)
      ∷ []

  -- The rest of a full node: with offchain workers or not, as an authority or not, voting or not.
  abbrev pub full_steps : Bool → Object → Object → Object → Bool → Bool → Bool → List Step
  full_steps t parts chain network offchain authority grandpa =
      let next = if offchain then network + 3 else network + 2 in
      let after = if authority then next + 4 else next in
      (sure add_grandpa_peers_set
        ∷ fallible (build_network parts (chain + 1) (chain + 4) none)
        ∷ [])
      ++ only_if offchain (sure (build_offchain_workers parts network) ∷ [])
      ++ (fallible (
            spawn_tasks (full_extensions parts (chain + 1)) parts (chain + 1) network none
              (worker t))
          ∷ [])
      ++ only_if authority (author_steps t parts chain network next)
      ++ only_if grandpa (vote_steps t parts chain network after)
      ++ (sure (start_network network) ∷ [])

  -- `new_full`
  abbrev pub full_script : List Step
  full_script =
      partial_script
      ++ full_steps telemetry (parts_at telemetry) (chain_at telemetry) (chain_at telemetry + 6)
          config.offchain_worker_enabled (is_authority config.role) (not config.disable_grandpa)

  abbrev observer_config : Bool → GrandpaConfig
  observer_config t = record {
    gossip_duration = 333;
    justification_period = 512;
    name = config.node_name;
    observer_enabled = false;
    keystore = none;
    local_role = config.role;
    telemetry = worker t;
  }

  -- A light client: with offchain workers or not, observing or not.
  abbrev light_steps : Bool → Object → Object → Object → Bool → Bool → List Step
  light_steps t parts chain network offchain grandpa =
      only_if t (fallible (new_telemetry_worker 16) ∷ [])
      ++ (fallible (new_light_parts (worker t)) ∷ [])
      ++ only_if t (sure (spawn false "telemetry" parts 0) ∷ [])
      ++ (sure add_grandpa_peers_set
          ∷ sure (new_longest_chain parts)
          ∷ sure (new_light_pool parts)
          ∷ fallible (grandpa_block_import parts chain (worker t))
          ∷ fallible (read_slot_duration parts)
          ∷ fallible (import_queue never (slot_duration (chain + 3)) parts (chain + 2) (worker t))
          ∷ fallible (build_network parts (chain + 1) (chain + 4) (some parts))
          ∷ [])
      ++ only_if offchain (sure (build_offchain_workers parts network) ∷ [])
      ++ only_if grandpa (
          fallible (run_grandpa_observer (observer_config t) (chain + 2) network)
          ∷ sure (
              spawn_blocking false "grandpa-observer" parts
                (if offchain then network + 2 else network + 1))
          ∷ [])
      ++ (fallible (spawn_tasks no_extensions parts (chain + 1) network (some parts) (worker t))
          ∷ sure (start_network network)
          ∷ [])

  -- `new_light`
  abbrev pub light_script : List Step
  light_script =
      light_steps telemetry (parts_at telemetry) (chain_at telemetry + 1) (chain_at telemetry + 6)
        config.offchain_worker_enabled (not config.disable_grandpa)
