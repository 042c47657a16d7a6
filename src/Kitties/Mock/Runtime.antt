-- ===== src/Kitties/Mock/Runtime.antt =====
-- What the mock runtime of the kitties pallet, `pallets/kitties/src/mock.rs`, is made of: its pallets and
-- the configuration of those that come from Substrate.
use my_substrate_kitties.Base.{ℕ, ◌≡◌, ◌*◌, ◌/◌, refl, none, some, List, [], ◌∷◌}
use my_substrate_kitties.Frame.Pallets.{
  Entry, pallet, call, config, storage, event, inherent, index_of, SystemConfig, allow_all,
  BalancesConfig, TimestampConfig,
}

abbrev millisecs_per_block : ℕ
millisecs_per_block = 6000

abbrev slot_duration : ℕ
slot_duration = millisecs_per_block

-- `construct_runtime!`
abbrev pallets : List Entry
pallets =
    record {
      name = "System";
      source = "frame_system";
      parts = pallet ∷ call ∷ config ∷ storage ∷ event ∷ [];
    }
    ∷ record {
      name = "RandomnessCollectiveFlip";
      source = "pallet_randomness_collective_flip";
      parts = pallet ∷ storage ∷ [];
    }
    ∷ record { name = "Aura"; source = "pallet_aura"; parts = pallet ∷ config ∷ [] }
    ∷ record {
      name = "Timestamp";
      source = "pallet_timestamp";
      parts = pallet ∷ call ∷ storage ∷ inherent ∷ [];
    }
    ∷ record {
      name = "Balances";
      source = "pallet_balances";
      parts = pallet ∷ call ∷ storage ∷ config ∷ event ∷ [];
    }
    ∷ record {
      name = "Kitties";
      source = "pallet_kitties";
      parts = pallet ∷ call ∷ storage ∷ event ∷ [];
    }
    ∷ []

-- `impl system::Config for Test`
abbrev system_config : {Call : Type 0} → SystemConfig Call
system_config = record {
  base_call_filter = allow_all;
  block_weight_seconds = none;
  block_length = none;
  block_hash_count = 250;
  ss58_prefix = 42;
  index_bits = 64;
  block_number_bits = 64;
  account_id = "u64";
  lookup = "IdentityLookup<Self::AccountId>";
  hash = "H256";
  hashing = "BlakeTwo256";
  header = "Header";
  db_weight = "()";
  version = "()";
  account_data = "pallet_balances::AccountData<Balance>";
  on_new_account = "()";
  on_killed_account = "()";
  system_weight_info = "()";
  on_set_code = "()";
}

-- `impl pallet_timestamp::Config for Test`
abbrev timestamp_config : TimestampConfig
timestamp_config = record {
  moment_bits = 64;
  on_timestamp_set = "Aura";
  minimum_period = slot_duration / 2;
  weight_info = "()";
}

-- `impl pallet_balances::Config for Test`
abbrev balances_config : BalancesConfig
balances_config = record {
  max_locks = 50;
  max_reserves = "()";
  reserve_identifier_bytes = 8;
  balance_bits = 128;
  dust_removal = "()";
  existential_deposit = 500;
  account_store = "System";
  weight_info = "pallet_balances::weights::SubstrateWeight<Test>";
}

kitties_index : index_of "Kitties" pallets ≡ some 5
kitties_index = refl

-- The time between two blocks is what the clock demands at least, twice over.
blocks_apart : timestamp_config.minimum_period * 2 ≡ slot_duration
blocks_apart = refl
