-- ===== src/Frame/Pallets.antt =====
-- What a runtime says of the pallets that it is made of, in `runtime/src/lib.rs` and in the mock runtimes
-- of both pallets: the table in `construct_runtime!`, and the values that the configurations of the
-- pallets from Substrate choose. A number
-- type is its width in bits, and any other type the text that names it.
use Prim.Native.String.{String}
use text.Mathlib.Text.{◌==◌ as str_eq}
use my_substrate_kitties.Base.{
  ℕ, ◌+◌, Bool, true, false, Option, none, some, List, [], ◌∷◌, if◌then◌else◌,
}

-- The parts that a pallet exports.
pub data Part : Type 0 where
  pallet call config storage event inherent : Part

-- A line of `construct_runtime!`: the name in the runtime, the crate, and the parts.
pub record Entry : Type 0 where
  pub name : String
  pub source : String
  pub parts : List Part

abbrev pub is_call : Part → Bool
is_call call = true
is_call _ = false

abbrev pub is_config : Part → Bool
is_config config = true
is_config _ = false

abbrev pub is_event : Part → Bool
is_event event = true
is_event _ = false

abbrev pub exports : (Part → Bool) → List Part → Bool
exports kind [] = false
exports kind (part ∷ parts) = if kind part then true else exports kind parts

-- The pallets that export a part of a kind.
abbrev pub with_part : (Part → Bool) → List Entry → List String
with_part kind [] = []
with_part kind (entry ∷ entries) =
    let rest = with_part kind entries in
    if exports kind entry.parts then entry.name ∷ rest else rest

-- The index of a pallet, its place in the table, which begins the encoding of its calls and events.
abbrev pub index_of : String → List Entry → Option ℕ
index_of name [] = none
index_of name (entry ∷ entries) =
    let rest = index_of name entries in
    if str_eq entry.name name then some 0 else elim rest [ none ↦ none | some i ↦ some (i + 1) ]

-- `frame_support::traits::AllowAll`
abbrev pub allow_all : {Call : Type 0} → Call → Bool
allow_all request = true

-- `frame_system::Config`. Which calls are let through; of a block, the seconds of weight and the bytes,
-- where they are chosen; the number of block hashes kept; the prefix of addresses; and the types.
pub record SystemConfig (Call : Type 0) : Type 0 where
  pub base_call_filter : Call → Bool
  pub block_weight_seconds : Option ℕ
  pub block_length : Option ℕ
  pub block_hash_count : ℕ
  pub ss58_prefix : ℕ
  pub index_bits : ℕ
  pub block_number_bits : ℕ
  pub account_id : String
  pub lookup : String
  pub hash : String
  pub hashing : String
  pub header : String
  pub db_weight : String
  pub version : String
  pub account_data : String
  pub on_new_account : String
  pub on_killed_account : String
  pub system_weight_info : String
  pub on_set_code : String

-- `pallet_balances::Config`
pub record BalancesConfig : Type 0 where
  pub max_locks : ℕ
  pub max_reserves : String
  pub reserve_identifier_bytes : ℕ
  pub balance_bits : ℕ
  pub dust_removal : String
  pub existential_deposit : ℕ
  pub account_store : String
  pub weight_info : String

-- `pallet_timestamp::Config`
pub record TimestampConfig : Type 0 where
  pub moment_bits : ℕ
  pub on_timestamp_set : String
  pub minimum_period : ℕ
  pub weight_info : String

-- `pallet_transaction_payment::Config`: the fee for a byte and for a weight, and the types.
pub record PaymentConfig : Type 0 where
  pub on_charge_transaction : String
  pub transaction_byte_fee : ℕ
  pub weight_to_fee : ℕ → ℕ
  pub fee_multiplier_update : String

-- `pallet_grandpa::Config`
pub record GrandpaConfig : Type 0 where
  pub key_owner_proof_system : String
  pub key_owner_proof : String
  pub key_owner_identification : String
  pub handle_equivocation : String
  pub weight_info : String
