-- ===== src/Template/Mock.antt =====
-- What the mock runtime of the template pallet, `pallets/template/src/mock.rs`, is made of.
use my_substrate_kitties.Base.{◌≡◌, refl, none, some, List, [], ◌∷◌}
use my_substrate_kitties.Frame.Pallets.{
  Entry, pallet, call, config, storage, event, index_of, SystemConfig, allow_all,
}

-- `construct_runtime!`
abbrev pallets : List Entry
pallets =
    record {
      name = "System";
      source = "frame_system";
      parts = pallet ∷ call ∷ config ∷ storage ∷ event ∷ [];
    }
    ∷ record {
      name = "TemplateModule";
      source = "pallet_template";
      parts = pallet ∷ call ∷ storage ∷ event ∷ [];
    }
    ∷ []

-- `impl system::Config for Test`
abbrev system_config : {Call : Type 0} → SystemConfig Call
system_config = record {
  base_call_filter = allow_all;
  block_weight_seconds = none;
  block_length = none;
  block_hash_count = 250;
  ss58_prefix = 42;
  index_bits = 64;
  block_number_bits = 64;
  account_id = "u64";
  lookup = "IdentityLookup<Self::AccountId>";
  hash = "H256";
  hashing = "BlakeTwo256";
  header = "Header";
  db_weight = "()";
  version = "()";
  account_data = "()";
  on_new_account = "()";
  on_killed_account = "()";
  system_weight_info = "()";
  on_set_code = "()";
}

template_index : index_of "TemplateModule" pallets ≡ some 1
template_index = refl
