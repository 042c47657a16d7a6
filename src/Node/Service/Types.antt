-- ===== src/Node/Service/Types.antt =====
-- The configuration, the effects and the errors of `node/src/service.rs`.
use Prim.Native.String.{String}
use my_substrate_kitties.Base.{ℕ, Bool, true, false, Option, none, some, List, ◌∷◌, length}

-- `sc_service::Role`.
pub data Role : Type 0 where
  full light authority : Role

abbrev pub is_authority : Role → Bool
is_authority authority = true
is_authority full = false
is_authority light = false

-- What the code reads of `sc_service::Configuration`. A telemetry endpoint is its url.
pub record Configuration : Type 0 where
  pub keystore_remote : Option String
  pub telemetry_endpoints : Option (List String)
  pub role : Role
  pub offchain_worker_enabled : Bool
  pub force_authoring : Bool
  pub disable_grandpa : Bool
  pub node_name : String

-- `ServiceError::Other`, or an error of the call that failed.
pub data ServiceError : Type 0 where
  other : String → ServiceError
  external : ℕ → ServiceError

-- An object that a call returned, by the number of calls made before that call. The task manager, the
-- client, the backend, the keystore container and, in a light client, the fetcher come from one call,
-- and so do the block import and the link of GRANDPA, and the network, its RPC channel and its starter.
abbrev pub Object : Type 0
Object = ℕ

-- `sc_finality_grandpa::Config`; the keystore is that of a keystore container.
pub record GrandpaConfig : Type 0 where
  pub gossip_duration : ℕ
  pub justification_period : ℕ
  pub name : String
  pub observer_enabled : Bool
  pub keystore : Option Object
  pub local_role : Role
  pub telemetry : Option Object

-- The proof that a block author is allowed to build with this runtime: by its version, or never.
pub data CanAuthor : Type 0 where
  native_version never : CanAuthor

-- What `rpc_extensions_builder` makes: the handler of `crate::rpc::create_full` over a client and a
-- pool, or nothing.
pub data RpcExtensions : Type 0 where
  full_extensions : Object → Object → RpcExtensions
  no_extensions : RpcExtensions

-- A call of the Substrate client, with the settings that the code chooses and the objects that it hands
-- on: `parts` stands for what it takes of the objects of one call, and the telemetry may be off.
pub data Effect : Type 0 where
  -- the size of the worker's buffer
  new_telemetry_worker : ℕ → Effect
  new_full_parts new_light_parts : (telemetry : Option Object) → Effect
  -- whether the task is essential, its name, the task manager, and what the task runs
  spawn spawn_blocking : Bool → String → (parts task : Object) → Effect
  -- from the backend
  new_longest_chain : (parts : Object) → Effect
  -- whether the node is an authority; the task manager and the client
  new_full_pool : Bool → (parts : Object) → Effect
  -- the task manager, the client and the fetcher
  new_light_pool : (parts : Object) → Effect
  -- the client
  grandpa_block_import : (parts select_chain : Object) (telemetry : Option Object) → Effect
  read_slot_duration : (parts : Object) → Effect
  -- how blocks are checked, and the slot duration; the client and the task manager
  import_queue : CanAuthor → ℕ → (parts block_import : Object) (telemetry : Option Object) → Effect
  add_grandpa_peers_set : Effect
  -- the client and the task manager; the fetcher, if blocks are fetched on demand
  build_network :
      (parts transaction_pool import_queue : Object) (on_demand : Option Object) → Effect
  build_offchain_workers : (parts network : Object) → Effect
  -- the client, the keystore, the task manager and the backend; the fetcher and the blockchain of the
  -- backend, if blocks are fetched on demand; the RPC channel of the network
  spawn_tasks :
      RpcExtensions
      → (parts transaction_pool network : Object) (on_demand telemetry : Option Object) → Effect
  -- the task manager and the client
  new_proposer_factory : (parts transaction_pool : Object) (telemetry : Option Object) → Effect
  -- the slot duration, and whether authoring is forced; the client and the keystore
  start_aura :
      ℕ
      → Bool
      → (parts select_chain block_import proposer_factory network : Object)
        (telemetry : Option Object)
      → Effect
  run_grandpa_voter run_grandpa_observer : GrandpaConfig → (link network : Object) → Effect
  start_network : (network : Object) → Effect

-- A step of the assembly: the calls so far, the latest first, and a result or an error.
pub data Result (A : Type 0) : Type 0 where
  ok : A → Result A
  err : ServiceError → Result A

abbrev pub Assembly : Type 0 → Type 0
Assembly A = List Effect → Result A × List Effect

abbrev pub pure : {A : Type 0} → A → Assembly A
pure a trace = (ok a, trace)

abbrev pub throw : {A : Type 0} → ServiceError → Assembly A
throw e trace = (err e, trace)

infixl 5 ◌>>=◌ ◌>>◌
abbrev pub ◌>>=◌ : {A B : Type 0} → Assembly A → (A → Assembly B) → Assembly B
◌>>=◌ m f trace =
    let (r, trace') = m trace in elim r [ ok a ↦ f a trace' | err e ↦ (err e, trace') ]

abbrev pub ◌>>◌ : {A B : Type 0} → Assembly A → Assembly B → Assembly B
m >> k = m >>= λ _. k

-- A call that cannot fail, and one that fails if `outcome` gives an error for it.
abbrev pub effect : Effect → Assembly Object
effect e trace = (ok (length trace), e ∷ trace)

abbrev pub returned : Option ℕ → Object → Result Object
returned none object = ok object
returned (some code) object = err (external code)

abbrev pub try : (ℕ → Effect → Option ℕ) → Effect → Assembly Object
try outcome e trace = (returned (outcome (length trace) e) (length trace), e ∷ trace)

-- `if test { … }`, whose value is dropped.
abbrev pub when : {A : Type 0} → Bool → Assembly A → Assembly (Unit {0})
when true m = m >> pure tt
when false m = pure tt

-- The object that an action makes, if it is done.
abbrev pub optionally : Bool → Assembly Object → Assembly (Option Object)
optionally true m = m >>= λ object. pure (some object)
optionally false m = pure none
