-- ===== src/Runtime/Api.antt =====
-- The runtime API of `runtime/src/lib.rs` (`impl_runtime_apis!`). Most of its functions forward to
-- Substrate, whose part in them is the record `Substrate`; the runtime itself decides what the version
-- is, that blocks are executed by `Executive`, and that no equivocation of GRANDPA can be reported.
use Prim.Native.String.{String}
use my_substrate_kitties.Base.{ℕ, Option, none, List, []}

pub record RuntimeVersion : Type 0 where
  pub spec_name : String
  pub impl_name : String
  pub authoring_version : ℕ
  pub spec_version : ℕ
  pub impl_version : ℕ
  -- `RUNTIME_API_VERSIONS`, which `impl_runtime_apis!` collects: the id and the version of each API
  pub apis : List (String × ℕ)
  pub transaction_version : ℕ

-- `VERSION`
abbrev pub version : List (String × ℕ) → RuntimeVersion
version runtime_api_versions = record {
  spec_name = "node-template";
  impl_name = "node-template";
  authoring_version = 1;
  spec_version = 100;
  impl_version = 1;
  apis = runtime_api_versions;
  transaction_version = 1;
}

-- `NativeVersion`; `can_author_with` is the set of other authoring versions.
pub record NativeVersion : Type 0 where
  pub runtime_version : RuntimeVersion
  pub can_author_with : List ℕ

abbrev pub native_version : List (String × ℕ) → NativeVersion
native_version runtime_api_versions = record {
  runtime_version = version runtime_api_versions;
  can_author_with = [];
}

-- The types and the functions of Substrate that the API forwards to. A function that reads the storage
-- takes it, and one that writes returns it; `none` is a panic, which a block that is not valid causes.
pub record Substrate : Type 1 where
  pub Storage : Type 0
  pub Block : Type 0
  pub Header : Type 0
  pub Hash : Type 0
  pub Extrinsic : Type 0
  pub Applied : Type 0
  pub Inherents : Type 0
  pub Checked : Type 0
  pub Source : Type 0
  pub Validity : Type 0
  pub AccountId : Type 0
  pub AuraId : Type 0
  pub GrandpaId : Type 0
  pub EquivocationProof : Type 0
  pub OwnershipProof : Type 0
  pub Metadata : Type 0
  pub Info : Type 0
  pub Fees : Type 0
  pub runtime_api_versions : List (String × ℕ)
  pub executive_execute_block : Block → Storage → Option Storage
  pub executive_initialize_block : Header → Storage → Storage
  pub executive_apply_extrinsic : Extrinsic → Storage → Applied × Storage
  pub executive_finalize_block : Storage → Header × Storage
  pub executive_validate_transaction : Source → Extrinsic → Hash → Storage → Validity
  pub executive_offchain_worker : Header → Storage → Storage
  pub runtime_metadata : Metadata
  pub create_extrinsics : Inherents → Storage → List Extrinsic
  pub check_extrinsics : Inherents → Block → Storage → Checked
  pub aura_slot_duration : Storage → ℕ
  pub aura_authorities : Storage → List AuraId
  pub session_keys_generate : Option (List ℕ) → List ℕ
  pub session_keys_decode_into_raw_public_keys : List ℕ → Option (List (List ℕ × ℕ))
  pub grandpa_grandpa_authorities : Storage → List (GrandpaId × ℕ)
  pub system_account_nonce : AccountId → Storage → ℕ
  pub transaction_payment_query_info : Extrinsic → ℕ → Storage → Info
  pub transaction_payment_query_fee_details : Extrinsic → ℕ → Storage → Fees

-- The functions of the API, under their names.
module _ (S : Substrate) where
  abbrev pub runtime_version : RuntimeVersion
  runtime_version = version S.runtime_api_versions

  abbrev pub execute_block : S.Block → S.Storage → Option S.Storage
  execute_block block = S.executive_execute_block block

  abbrev pub initialize_block : S.Header → S.Storage → S.Storage
  initialize_block header = S.executive_initialize_block header

  abbrev pub metadata : S.Metadata
  metadata = S.runtime_metadata

  abbrev pub apply_extrinsic : S.Extrinsic → S.Storage → S.Applied × S.Storage
  apply_extrinsic extrinsic = S.executive_apply_extrinsic extrinsic

  abbrev pub finalize_block : S.Storage → S.Header × S.Storage
  finalize_block = S.executive_finalize_block

  abbrev pub inherent_extrinsics : S.Inherents → S.Storage → List S.Extrinsic
  inherent_extrinsics inherents = S.create_extrinsics inherents

  abbrev pub check_inherents : S.Block → S.Inherents → S.Storage → S.Checked
  check_inherents block inherents = S.check_extrinsics inherents block

  abbrev pub validate_transaction : S.Source → S.Extrinsic → S.Hash → S.Storage → S.Validity
  validate_transaction source tx block_hash = S.executive_validate_transaction source tx block_hash

  abbrev pub offchain_worker : S.Header → S.Storage → S.Storage
  offchain_worker header = S.executive_offchain_worker header

  -- In milliseconds.
  abbrev pub api_slot_duration : S.Storage → ℕ
  api_slot_duration = S.aura_slot_duration

  abbrev pub authorities : S.Storage → List S.AuraId
  authorities = S.aura_authorities

  abbrev pub generate_session_keys : Option (List ℕ) → List ℕ
  generate_session_keys seed = S.session_keys_generate seed

  abbrev pub decode_session_keys : List ℕ → Option (List (List ℕ × ℕ))
  decode_session_keys encoded = S.session_keys_decode_into_raw_public_keys encoded

  abbrev pub grandpa_authorities : S.Storage → List (S.GrandpaId × ℕ)
  grandpa_authorities = S.grandpa_grandpa_authorities

  abbrev pub submit_report_equivocation_unsigned_extrinsic :
      S.EquivocationProof → S.OwnershipProof → Option (Unit {0})
  submit_report_equivocation_unsigned_extrinsic equivocation_proof key_owner_proof = none

  abbrev pub generate_key_ownership_proof : ℕ → S.GrandpaId → Option S.OwnershipProof
  generate_key_ownership_proof set_id authority_id = none

  abbrev pub account_nonce : S.AccountId → S.Storage → ℕ
  account_nonce account = S.system_account_nonce account

  abbrev pub query_info : S.Extrinsic → ℕ → S.Storage → S.Info
  query_info uxt len = S.transaction_payment_query_info uxt len

  abbrev pub query_fee_details : S.Extrinsic → ℕ → S.Storage → S.Fees
  query_fee_details uxt len = S.transaction_payment_query_fee_details uxt len
