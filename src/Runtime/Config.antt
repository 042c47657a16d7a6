-- ===== src/Runtime/Config.antt =====
-- What `runtime/src/lib.rs` is made of: the table of its pallets, the configuration of those that come
-- from Substrate, the keys of a session, and the checks that an extrinsic goes through.
use my_substrate_kitties.Base.{◌≡◌, refl, some, List, [], ◌∷◌}
use my_substrate_kitties.Frame.Pallets.{
  Entry, pallet, call, config, storage, event, inherent, is_call, is_config, with_part, index_of,
  SystemConfig, allow_all, BalancesConfig, TimestampConfig, PaymentConfig, GrandpaConfig,
}
use my_substrate_kitties.Runtime

-- `construct_runtime!`
abbrev pub pallets : List Entry
pallets =
    record {
      name = "System";
      source = "frame_system";
      parts = pallet ∷ call ∷ config ∷ storage ∷ event ∷ [];
    }
    ∷ record {
      name = "RandomnessCollectiveFlip";
      source = "pallet_randomness_collective_flip";
      parts = pallet ∷ storage ∷ [];
    }
    ∷ record {
      name = "Timestamp";
      source = "pallet_timestamp";
      parts = pallet ∷ call ∷ storage ∷ inherent ∷ [];
    }
    ∷ record { name = "Aura"; source = "pallet_aura"; parts = pallet ∷ config ∷ [] }
    ∷ record {
      name = "Grandpa";
      source = "pallet_grandpa";
      parts = pallet ∷ call ∷ storage ∷ config ∷ event ∷ [];
    }
    ∷ record {
      name = "Balances";
      source = "pallet_balances";
      parts = pallet ∷ call ∷ storage ∷ config ∷ event ∷ [];
    }
    ∷ record {
      name = "TransactionPayment";
      source = "pallet_transaction_payment";
      parts = pallet ∷ storage ∷ [];
    }
    ∷ record {
      name = "Sudo";
      source = "pallet_sudo";
      parts = pallet ∷ call ∷ config ∷ storage ∷ event ∷ [];
    }
    ∷ record {
      name = "TemplateModule";
      source = "pallet_template";
      parts = pallet ∷ call ∷ storage ∷ event ∷ [];
    }
    ∷ record {
      name = "KittiesModule";
      source = "pallet_kitties";
      parts = pallet ∷ call ∷ storage ∷ event ∷ [];
    }
    ∷ []

-- `impl frame_system::Config for Runtime`
abbrev pub system_config : {Call : Type 0} → SystemConfig Call
system_config = record {
  base_call_filter = allow_all;
  block_weight_seconds = some 2;
  block_length = some Runtime.block_length;
  block_hash_count = Runtime.block_hash_count;
  ss58_prefix = Runtime.ss58_prefix;
  index_bits = 32;
  block_number_bits = 32;
  account_id = "AccountId";
  lookup = "AccountIdLookup<AccountId, ()>";
  hash = "Hash";
  hashing = "BlakeTwo256";
  header = "generic::Header<BlockNumber, BlakeTwo256>";
  db_weight = "RocksDbWeight";
  version = "Version";
  account_data = "pallet_balances::AccountData<Balance>";
  on_new_account = "()";
  on_killed_account = "()";
  system_weight_info = "()";
  on_set_code = "()";
}

-- `impl pallet_timestamp::Config for Runtime`
abbrev pub timestamp_config : TimestampConfig
timestamp_config = record {
  moment_bits = 64;
  on_timestamp_set = "Aura";
  minimum_period = Runtime.minimum_period;
  weight_info = "()";
}

-- `impl pallet_balances::Config for Runtime`
abbrev pub balances_config : BalancesConfig
balances_config = record {
  max_locks = Runtime.max_locks;
  max_reserves = "()";
  reserve_identifier_bytes = 8;
  balance_bits = 128;
  dust_removal = "()";
  existential_deposit = Runtime.existential_deposit;
  account_store = "System";
  weight_info = "pallet_balances::weights::SubstrateWeight<Runtime>";
}

-- `impl pallet_transaction_payment::Config for Runtime`, with `IdentityFee`.
abbrev pub payment_config : PaymentConfig
payment_config = record {
  on_charge_transaction = "CurrencyAdapter<Balances, ()>";
  transaction_byte_fee = Runtime.transaction_byte_fee;
  weight_to_fee = λ weight. weight;
  fee_multiplier_update = "()";
}

-- `impl pallet_grandpa::Config for Runtime`: no equivocation is handled, and no key can be proved.
abbrev pub grandpa_config : GrandpaConfig
grandpa_config = record {
  key_owner_proof_system = "()";
  key_owner_proof =
      "<Self::KeyOwnerProofSystem as KeyOwnerProofSystem<(KeyTypeId, GrandpaId)>>::Proof";
  key_owner_identification =
      "<Self::KeyOwnerProofSystem as KeyOwnerProofSystem<(KeyTypeId, GrandpaId)>>::IdentificationTuple";
  handle_equivocation = "()";
  weight_info = "()";
}

-- `opaque::SessionKeys`, in the order in which they are encoded.
pub record SessionKeys (AuraId GrandpaId : Type 0) : Type 0 where
  pub aura : AuraId
  pub grandpa : GrandpaId

-- `SignedExtra`, in order.
pub data SignedExtension : Type 0 where
  check_spec_version check_tx_version check_genesis check_era check_nonce : SignedExtension
  check_weight charge_transaction_payment : SignedExtension

abbrev pub signed_extra : List SignedExtension
signed_extra =
    check_spec_version ∷ check_tx_version ∷ check_genesis ∷ check_era ∷ check_nonce ∷ check_weight
    ∷ charge_transaction_payment ∷ []

-- The pallets with a genesis state are those that `testnet_genesis` of `node/src/chain_spec.rs` fills.
genesis_pallets :
    with_part is_config pallets ≡ "System" ∷ "Aura" ∷ "Grandpa" ∷ "Balances" ∷ "Sudo" ∷ []
genesis_pallets = refl

callable_pallets :
    with_part is_call pallets
    ≡ "System" ∷ "Timestamp" ∷ "Grandpa" ∷ "Balances" ∷ "Sudo" ∷ "TemplateModule" ∷ "KittiesModule"
      ∷ []
callable_pallets = refl

kitties_index : index_of "KittiesModule" pallets ≡ some 9
kitties_index = refl
