-- ===== src/Node/ChainSpec.antt =====
-- The presets of the chain, `node/src/chain_spec.rs`. Key derivation and the built runtime are not
-- code of this repository: they are the section's parameters.
pub mod Laws
use Prim.Native.String.{String, ◌++◌ as ◌<>◌}
use my_substrate_kitties.Base.{ℕ, ◌^◌, Option, none, some, List, [], ◌∷◌, map}

-- `Result<A, String>`
pub data Result (A : Type 0) : Type 0 where
  ok : A → Result A
  err : String → Result A

infixl 5 ◌>>=◌
-- An `expect` that fails is `none`; so is what comes after it.
abbrev ◌>>=◌ : {A B : Type 0} → Option A → (A → Option B) → Option B
none >>= f = none
some a >>= f = f a

pub data ChainType : Type 0 where
  development local : ChainType

-- A kind of key pair: derivation from a secret uri, and the public half.
pub record Scheme : Type 1 where
  pub Pair : Type 0
  pub Public : Type 0
  pub from_string : String → Option Pair
  pub public : Pair → Public

-- The schemes of Aura, of GRANDPA and of accounts, and the ids of accounts.
pub record Keys : Type 1 where
  pub aura : Scheme
  pub grandpa : Scheme
  pub sr25519 : Scheme
  pub AccountId : Type 0
  pub into_account : sr25519.Public → AccountId

-- `get_from_seed`; `none` is the panic of `expect`.
unfoldable pub get_from_seed : (K : Scheme) → String → Option K.Public
get_from_seed K seed = do pair ← K.from_string ("//" <> seed); some (K.public pair)

-- A `vec!` of calls, from the left.
unfoldable pub collect : {A : Type 0} → (String → Option A) → List String → Option (List A)
collect f [] = some []
collect f (seed ∷ seeds) = do a ← f seed; rest ← collect f seeds; some (a ∷ rest)

abbrev pub development_accounts : List String
development_accounts = "Alice" ∷ "Bob" ∷ "Alice//stash" ∷ "Bob//stash" ∷ []

abbrev pub local_testnet_accounts : List String
local_testnet_accounts =
    "Alice" ∷ "Bob" ∷ "Charlie" ∷ "Dave" ∷ "Eve" ∷ "Ferdie" ∷ "Alice//stash" ∷ "Bob//stash"
    ∷ "Charlie//stash" ∷ "Dave//stash" ∷ "Eve//stash" ∷ "Ferdie//stash" ∷ []

module _ (K : Keys) where
  unfoldable pub get_account_id_from_seed : String → Option K.AccountId
  unfolding get_from_seed
  get_account_id_from_seed seed = do key ← get_from_seed K.sr25519 seed; some (K.into_account key)

  abbrev pub AuthorityKeys : Type 0
  AuthorityKeys = K.aura.Public × K.grandpa.Public

  unfoldable pub authority_keys_from_seed : String → Option AuthorityKeys
  unfolding get_from_seed
  authority_keys_from_seed seed = do
    aura ← get_from_seed K.aura seed
    grandpa ← get_from_seed K.grandpa seed
    some (aura, grandpa)

  -- `GenesisConfig`, by pallet: the code, the balances, the authorities with their weights, the key.
  pub record GenesisConfig : Type 0 where
    pub code : List ℕ
    pub balances : List (K.AccountId × ℕ)
    pub aura : List K.aura.Public
    pub grandpa : List (K.grandpa.Public × ℕ)
    pub sudo : K.AccountId

  unfoldable pub testnet_genesis :
      List ℕ → List AuthorityKeys → K.AccountId → List K.AccountId → GenesisConfig
  testnet_genesis wasm_binary initial_authorities root_key endowed_accounts = record {
    code = wasm_binary;
    balances = map (λ k. (k, 2 ^ 60)) endowed_accounts;
    aura = map (λ x. x.0) initial_authorities;
    grandpa = map (λ x. (x.1, 1)) initial_authorities;
    sudo = root_key;
  }

  -- The arguments of `ChainSpec::from_genesis` that are not empty; `genesis` is the closure's result.
  pub record ChainSpec : Type 0 where
    pub name : String
    pub id : String
    pub chain_type : ChainType
    pub genesis : Option GenesisConfig

  -- The closures of both presets, by the seeds of the authorities and of the endowed accounts.
  unfoldable pub preset_genesis : List ℕ → List String → List String → Option GenesisConfig
  unfolding collect authority_keys_from_seed get_account_id_from_seed testnet_genesis
  preset_genesis wasm_binary authorities accounts = do
    initial_authorities ← collect authority_keys_from_seed authorities
    root_key ← get_account_id_from_seed "Alice"
    endowed_accounts ← collect get_account_id_from_seed accounts
    some (testnet_genesis wasm_binary initial_authorities root_key endowed_accounts)

  unfoldable pub development_config : Option (List ℕ) → Result ChainSpec
  unfolding preset_genesis
  development_config none = err "Development wasm not available"
  development_config (some wasm_binary) = ok (record {
    name = "Development";
    id = "dev";
    chain_type = development;
    genesis = preset_genesis wasm_binary ("Alice" ∷ []) development_accounts;
  })

  unfoldable pub local_testnet_config : Option (List ℕ) → Result ChainSpec
  unfolding preset_genesis
  local_testnet_config none = err "Development wasm not available"
  local_testnet_config (some wasm_binary) = ok (record {
    name = "Local Testnet";
    id = "local_testnet";
    chain_type = local;
    genesis = preset_genesis wasm_binary ("Alice" ∷ "Bob" ∷ []) local_testnet_accounts;
  })
