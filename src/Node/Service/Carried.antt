-- ===== src/Node/Service/Carried.antt =====
-- The assemblies of `node/src/service.rs` carry out the lists of calls of `Script`.
use my_substrate_kitties.Base.{
  ℕ, ◌≡◌, refl, Bool, true, false, not, Bool-cases, inl, inr, Option, none, List, [], ◌+◌, ◌++◌,
  arith,
}
use my_substrate_kitties.Node.Service.Types.{
  Configuration, Effect, is_authority, Assembly, pure, ◌>>◌, ◌>>=◌,
}
use my_substrate_kitties.Node.Service.Partial.{wants_telemetry, PartialComponents, new_partial}
use my_substrate_kitties.Node.Service.Full.{new_full, over_components, author_blocks, vote}
use my_substrate_kitties.Node.Service.Light.{new_light}
use my_substrate_kitties.Node.Service.Script.{
  Step, all_made, worker, parts_at, chain_at, partial_steps, full_steps, carry_out, partial_script,
  full_script, light_script,
}

module _ (outcome : ℕ → Effect → Option ℕ) (slot_duration : ℕ → ℕ) (config : Configuration) where
  -- The parts of a full node without a remote keystore carry out their list of calls.
  pub partial_carried :
      (telemetry : Bool)
      → config.keystore_remote ≡ none
      → wants_telemetry config.telemetry_endpoints ≡ telemetry
      → (new_partial outcome slot_duration config >> pure tt) []
        ≡ carry_out outcome (partial_script slot_duration config) []
  unfolding new_partial
  partial_carried true k t = rw (k, t) (ground arith)
  partial_carried false k t = rw (k, t) (ground arith)

  -- A light client carries out its list of calls.
  pub light_carried :
      (telemetry offchain quiet : Bool)
      → wants_telemetry config.telemetry_endpoints ≡ telemetry
      → config.offchain_worker_enabled ≡ offchain
      → config.disable_grandpa ≡ quiet
      → new_light outcome slot_duration config []
        ≡ carry_out outcome (light_script slot_duration config) []
  unfolding new_light
  light_carried true true true t o q = rw (t, o, q) (ground arith)
  light_carried true true false t o q = rw (t, o, q) (ground arith)
  light_carried true false true t o q = rw (t, o, q) (ground arith)
  light_carried true false false t o q = rw (t, o, q) (ground arith)
  light_carried false true true t o q = rw (t, o, q) (ground arith)
  light_carried false true false t o q = rw (t, o, q) (ground arith)
  light_carried false false true t o q = rw (t, o, q) (ground arith)
  light_carried false false false t o q = rw (t, o, q) (ground arith)

  -- The objects that `new_partial` hands over when no call fails.
  abbrev components : Bool → PartialComponents
  components t = record {
    parts = parts_at t;
    import_queue = chain_at t + 4;
    select_chain = chain_at t;
    transaction_pool = chain_at t + 1;
    grandpa = chain_at t + 2;
    telemetry = worker t;
  }

  abbrev steps : Bool → List Step
  steps t = partial_steps slot_duration config t (parts_at t) (chain_at t)

  -- What comes after the parts comes after their calls.
  partial_then :
      (telemetry : Bool) (more : PartialComponents → Assembly (Unit {0})) (rest : List Step)
      → config.keystore_remote ≡ none
      → wants_telemetry config.telemetry_endpoints ≡ telemetry
      → more (components telemetry) (all_made (steps telemetry) [])
        ≡ carry_out outcome rest (all_made (steps telemetry) [])
      → (new_partial outcome slot_duration config >>= more) []
        ≡ carry_out outcome (steps telemetry ++ rest) []
  unfolding new_partial
  partial_then true more rest k t same = rw (k, t) (ground arith)
  partial_then false more rest k t same = rw (k, t) (ground arith)

  -- What a full node does after its parts.
  abbrev rest : Bool → List Step
  rest t =
      full_steps slot_duration config t (parts_at t) (chain_at t) (chain_at t + 6)
        config.offchain_worker_enabled (is_authority config.role) (not config.disable_grandpa)

  abbrev CarriesOn : Bool → Type 0
  CarriesOn t =
      over_components outcome slot_duration config (components t) (all_made (steps t) [])
      ≡ carry_out outcome (rest t) (all_made (steps t) [])

  watched_authority :
      config.keystore_remote ≡ none → is_authority config.role ≡ true → CarriesOn true
  unfolding over_components author_blocks vote
  watched_authority k a = rw (k, a) (ground arith)

  watched_node : config.keystore_remote ≡ none → is_authority config.role ≡ false → CarriesOn true
  unfolding over_components author_blocks vote
  watched_node k a = rw (k, a) (ground arith)

  unwatched_authority :
      config.keystore_remote ≡ none → is_authority config.role ≡ true → CarriesOn false
  unfolding over_components author_blocks vote
  unwatched_authority k a = rw (k, a) (ground arith)

  unwatched_node :
      config.keystore_remote ≡ none → is_authority config.role ≡ false → CarriesOn false
  unfolding over_components author_blocks vote
  unwatched_node k a = rw (k, a) (ground arith)

  carries_on : (telemetry : Bool) → config.keystore_remote ≡ none → CarriesOn telemetry
  carries_on true k = elim (Bool-cases (is_authority config.role)) [
    | inl a ↦ watched_authority k a
    | inr a ↦ watched_node k a
  ]
  carries_on false k = elim (Bool-cases (is_authority config.role)) [
    | inl a ↦ unwatched_authority k a
    | inr a ↦ unwatched_node k a
  ]

  full_then :
      (telemetry : Bool)
      → config.keystore_remote ≡ none
      → wants_telemetry config.telemetry_endpoints ≡ telemetry
      → new_full outcome slot_duration config []
        ≡ carry_out outcome (steps telemetry ++ rest telemetry) []
  unfolding new_full
  full_then telemetry k t =
      partial_then telemetry (over_components outcome slot_duration config) (rest telemetry) k t
        (carries_on telemetry k)

  -- A full node without a remote keystore carries out its list of calls.
  pub full_carried :
      config.keystore_remote ≡ none
      → new_full outcome slot_duration config []
        ≡ carry_out outcome (full_script slot_duration config) []
  full_carried k = full_then _ k refl
