-- ===== src/Node/Command/Laws.antt =====
-- What the node's command line (`node/src/command.rs`) guarantees.
use Prim.Native.String.{String}
use text.Mathlib.Text.{◌==◌ as str_eq}
use my_substrate_kitties.Base.{
  ℕ, ◌≡◌, ◌↔◌, refl, ap, ◌∙◌, Bool-cases, inl, inr, Bool, true, false, not, ◌&&◌, ◌||◌, Option,
  some, List, [], ◌∷◌, arith,
}
use my_substrate_kitties.Node.ChainSpec.{
  Keys, ChainSpec, GenesisConfig, AuthorityKeys, development_accounts, local_testnet_accounts,
}
use my_substrate_kitties.Node.ChainSpec
use my_substrate_kitties.Node.ChainSpec.Laws.{
  IsGoodGenesis, Derives, SeparatesSeeds, local_testnet_config-IsGoodGenesis,
  development_config-IsGoodGenesis,
}
use my_substrate_kitties.Node.Service.Types.{
  Role, light, full, authority, is_authority, Configuration, Effect, ok, err, other,
}
use my_substrate_kitties.Node.Service.Partial.{new_partial}
use my_substrate_kitties.Node.Service.Laws.{
  made, starts_network, authors_blocks, votes, extends_rpc, new_full-starts_network, new_full_tasks,
  new_light_lem,
}
use my_substrate_kitties.Node.Command.{load_spec, Subcommand, node, over_parts, run_node, assemble}

abbrev pub is_light : Role → Bool
is_light light = true
is_light full = false
is_light authority = false

module _ (outcome : ℕ → Effect → Option ℕ) (slot_duration : ℕ → ℕ) where
  node_role_iff :
      (role : Role) (config : Configuration)
      → let (r, trace) = run_node outcome slot_duration role config [] in
        (r ≡ ok tt) ↔ (made starts_network trace ≡ true)
  unfolding run_node
  node_role_iff light config = (new_light_lem outcome slot_duration config).0
  node_role_iff full config = new_full-starts_network outcome slot_duration config
  node_role_iff authority config = new_full-starts_network outcome slot_duration config

  node_role :
      (role : Role) (config : Configuration)
      → config.role ≡ role
      → (run_node outcome slot_duration role config []).0 ≡ ok tt
      → let trace = (run_node outcome slot_duration role config []).1 in
        (made authors_blocks trace ≡ is_authority role)
        × (made votes trace ≡ (not (is_light role) && not config.disable_grandpa))
        × (made extends_rpc trace ≡ not (is_light role))
  unfolding run_node
  node_role light config e h =
      let whole = new_light_lem outcome slot_duration config in (whole.1, whole.2, whole.3)
  node_role full config e h =
      let (authors, voter, rpc) = new_full_tasks outcome slot_duration config h in
      (authors ∙ ap is_authority e, voter, rpc)
  node_role authority config e h =
      let (authors, voter, rpc) = new_full_tasks outcome slot_duration config h in
      (authors ∙ ap is_authority e, voter, rpc)

  -- The assembly of a node, in any role, starts the network exactly when it succeeds.
  pub assemble_node_iff :
      (config : Configuration)
      → let (r, trace) = assemble outcome slot_duration node config [] in
        (r ≡ ok tt) ↔ (made starts_network trace ≡ true)
  unfolding assemble
  assemble_node_iff config = node_role_iff config.role config

  -- A node whose assembly succeeds has started the network; it authors blocks exactly in the role of
  -- an authority, votes exactly if it is not a light client and GRANDPA is not disabled, and has the
  -- RPC extensions of `node/src/rpc.rs` exactly if it is not a light client.
  pub assemble_node :
      (config : Configuration)
      → (assemble outcome slot_duration node config []).0 ≡ ok tt
      → let trace = (assemble outcome slot_duration node config []).1 in
        (made starts_network trace ≡ true)
        × (made authors_blocks trace ≡ is_authority config.role)
        × (made votes trace ≡ (not (is_light config.role) && not config.disable_grandpa))
        × (made extends_rpc trace ≡ not (is_light config.role))
  unfolding assemble
  assemble_node config h =
      let tasks = node_role config.role config refl h in
      ((node_role_iff config.role config).0 h, tasks.0, tasks.1, tasks.2)

  -- A subcommand over the parts of a node is refused before any call is made if the configuration
  -- names a remote keystore.
  pub over_parts_keystore :
      (c : Subcommand) (config : Configuration) {url : String} (trace : List Effect)
      → config.keystore_remote ≡ some url
      → assemble outcome slot_duration (over_parts c) config trace
        ≡ (err (other "Remote Keystores are not supported."), trace)
  unfolding assemble new_partial
  over_parts_keystore c config trace h = ground arith

-- The ids of the presets: all that name no file.
abbrev pub is_preset : String → Bool
is_preset id = str_eq id "dev" || (str_eq id "" || str_eq id "local")

module _ (K : Keys) (account : String → K.AccountId) (authority : String → AuthorityKeys K)
    (wasm_binary : List ℕ) (from_json_file : String → ChainSpec.Result (ChainSpec K)) where
  -- With a built runtime, keys that can be derived and different accounts for different seeds,
  -- every id of a preset loads a specification with a good genesis state, whose sudo key is
  -- Alice's.
  pub load_spec-IsGoodGenesis :
      (id : String)
      → is_preset id ≡ true
      → Derives K account authority ("Alice" ∷ "Bob" ∷ []) local_testnet_accounts
      → SeparatesSeeds account local_testnet_accounts
      → (spec : ChainSpec K) × (load_spec K (some wasm_binary) from_json_file id
          ≡ ChainSpec.ok spec)
        × (g : GenesisConfig K) × (spec.genesis ≡ some g)
        × IsGoodGenesis K g
        × (g.sudo ≡ account "Alice")
  unfolding load_spec
  load_spec-IsGoodGenesis id h derived sep = elim (Bool-cases (str_eq id "dev")) [
    | inl dev ↦
        let ids = derived.2 in
        let stashes = ids.1.1.1.1.1.1 in
        rw dev (
          development_config-IsGoodGenesis K account authority wasm_binary
            ((derived.0.0, tt), derived.1, (ids.0, (ids.1.0, (stashes.0, (stashes.1.0, tt)))))
            (λ a b la lb same. sep a b (ground arith) (ground arith) same))
    | inr differs ↦
        let preset : (str_eq id "" || str_eq id "local") ≡ true = ground arith in
        rw (differs, preset)
          (local_testnet_config-IsGoodGenesis K account authority wasm_binary derived sep)
  ]
