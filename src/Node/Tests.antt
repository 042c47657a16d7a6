-- ===== src/Node/Tests.antt =====
-- The theorems about the node (`node/src`) at concrete configurations, over keys that are the secret
-- uris themselves.
use Prim.Native.String.{String, ◌++◌ as ◌<>◌}
use Prim.Native.String.append
use my_substrate_kitties.Base.{
  ap, ◌∙◌, ℕ, ◌≡◌, ◌↔◌, refl, true, false, Option, none, some, [], ◌∷◌, arith,
}
use text.Mathlib.Text.{◌==◌ as str_eq}
use my_substrate_kitties.Base.{◌++◌, ◌^◌, All, if◌then◌else◌}
use my_substrate_kitties.Frame.Storage.Assoc.{assoc_map}
use my_substrate_kitties.Frame.Currency.Ledger.{Accounts, ledger, ledger-IsLawful}
use my_substrate_kitties.Kitties.Types.{Block, genesis}
use my_substrate_kitties.Kitties.Calls.{run as run_calls}
use my_substrate_kitties.Kitties.Transition.{Owns}
use my_substrate_kitties.Kitties.Adoption.{adoptions}
use my_substrate_kitties.Kitties.Colony.{countdown, creations}
use my_substrate_kitties.Runtime.Calls.{Host, kitties_config}
use my_substrate_kitties.Node.Genesis.{preset-colony}
use my_substrate_kitties.Node.ChainSpec.{preset_genesis, development_accounts}
use my_substrate_kitties.Node.ChainSpec
use my_substrate_kitties.Node.ChainSpec.{
  Scheme, Keys, GenesisConfig, ChainSpec, AuthorityKeys, local_testnet_config,
  local_testnet_accounts, get_account_id_from_seed, authority_keys_from_seed,
}
use my_substrate_kitties.Node.ChainSpec.Laws.{Derives, SeparatesSeeds, IsGoodGenesis}
use my_substrate_kitties.Node.Service.Types.{authority, Configuration, Effect, start_aura}
use my_substrate_kitties.Node.Service.Full.{new_full, over_components, author_blocks, vote}
use my_substrate_kitties.Node.Service.Types as Service
use my_substrate_kitties.Node.Service.Partial.{new_partial}
use my_substrate_kitties.Node.Command.Carried.{carries_out, assemble_carried}
use my_substrate_kitties.Node.Service.Laws.{
  made, starts_network, authors_blocks, votes, extends_rpc,
}
use my_substrate_kitties.Node.Command.{check_block, run, run_node, node, assemble, load_spec}
use my_substrate_kitties.Node.Command.Run.{SubstrateCli, perform, Needs, run-perform_iff}
use my_substrate_kitties.Node.Command.Laws.{assemble_node, load_spec-IsGoodGenesis}

abbrev uri : Scheme
uri = record { Pair = String; Public = String; from_string = λ s. some s; public = λ k. k }

abbrev uris : Keys
uris = record {
  aura = uri;
  grandpa = uri;
  sr25519 = uri;
  AccountId = String;
  into_account = λ k. k;
}

abbrev account : String → String
account seed = "//" <> seed

abbrev authority_of : String → AuthorityKeys uris
authority_of seed = ("//" <> seed, "//" <> seed)

derives : Derives uris account authority_of ("Alice" ∷ "Bob" ∷ []) local_testnet_accounts
unfolding get_account_id_from_seed authority_keys_from_seed
derives = ((refl, (refl, tt)), refl, ground arith)

slashes : (a : String) → account a ≡ String.◌∷◌ "/" (String.◌∷◌ "/" a)
slashes a =
    append.cons "/" "/" a
    ∙ ap (String.◌∷◌ "/") (append.cons "/" "" a ∙ ap (String.◌∷◌ "/") (append.nil a))

separates : SeparatesSeeds account local_testnet_accounts
separates a b la lb same = cc (slashes a, slashes b)

load_spec-IsGoodGenesis_example :
    (spec : ChainSpec uris) × (load_spec uris (some (0 ∷ [])) (λ path. ChainSpec.err path) "dev"
      ≡ ChainSpec.ok spec)
    × (g : GenesisConfig uris) × (spec.genesis ≡ some g)
    × IsGoodGenesis uris g
    × (g.sudo ≡ "//Alice")
load_spec-IsGoodGenesis_example =
    load_spec-IsGoodGenesis uris account authority_of (0 ∷ []) (λ path. ChainSpec.err path) "dev"
      refl derives separates

abbrev alice : Configuration
alice = record {
  keystore_remote = none;
  telemetry_endpoints = some ("wss://telemetry" ∷ []);
  role = authority;
  offchain_worker_enabled = true;
  force_authoring = false;
  disable_grandpa = false;
  node_name = "alice";
}

abbrev no_error : ℕ → Effect → Option ℕ
no_error n e = none

abbrev every_six_seconds : ℕ → ℕ
every_six_seconds n = 6000

-- Starting Aura fails with 7.
abbrev aura_fails : ℕ → Effect → Option ℕ
aura_fails n (start_aura _ _ _ _ _ _ _ _) = some 7
aura_fails n _ = none

-- A client whose runner and whose work end well.
abbrev steady : SubstrateCli
steady = record { create_runner = none; work = λ job. none }

run-perform_iff_example :
    (perform steady aura_fails every_six_seconds alice (run false (some check_block)) ≡ none)
    ↔ Needs steady aura_fails every_six_seconds alice false (some check_block)
run-perform_iff_example =
    run-perform_iff steady aura_fails every_six_seconds alice false (some check_block)

assemble_carried_example :
    assemble aura_fails every_six_seconds node alice []
    ≡ carries_out aura_fails every_six_seconds alice node
assemble_carried_example = assemble_carried aura_fails every_six_seconds alice node

-- The calls of a node that end with the failure of Aura.
carries_out_test :
    (carries_out aura_fails every_six_seconds alice node).0 ≡ Service.err (Service.external 7)
carries_out_test = refl

assemble_node_example :
    let trace = (assemble no_error every_six_seconds node alice []).1 in
    (made starts_network trace ≡ true)
    × (made authors_blocks trace ≡ true)
    × (made votes trace ≡ true)
    × (made extends_rpc trace ≡ true)
unfolding assemble run_node new_full new_partial over_components author_blocks vote
assemble_node_example = assemble_node no_error every_six_seconds alice refl

-- Alice's account is 1, Bob's 2.
abbrev number : String → ℕ
number s = if str_eq s "//Alice" then 1 else if str_eq s "//Bob" then 2 else 3

abbrev chain : Host
chain = record {
  Origin = Option ℕ;
  ensure_signed = λ origin. origin;
  balances = ledger;
  storage = assoc_map;
  encode = λ (seed, sender, index). seed.0 ∷ sender ∷ [];
  blake2_128 = λ bytes. bytes;
}

abbrev funds : Accounts
funds = record { free = λ a. 2 ^ 60; reserved = λ a. 0 }

abbrev first : Block
first = record { random_seed = (1, 0); extrinsic_index = some 0; now = 1 }

preset-colony_example :
    let C = kitties_config chain in
    let t =
      run_calls C
        (creations C first (some 2) 3 ++ adoptions C first (some 2) (countdown 3))
        (genesis C funds) in
    All (Owns C t 2) (countdown 3)
unfolding preset_genesis
preset-colony_example =
    preset-colony chain uris number ledger-IsLawful (λ a v b h. ground arith) funds (0 ∷ [])
      ("Alice" ∷ []) development_accounts _ "Bob" "//Bob" refl (refl, (refl, (refl, (refl, tt))))
      refl refl first (some 2) 3 refl (omega arith)
