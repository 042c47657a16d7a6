-- ===== src/Kitties/Types.antt =====
-- The types, the configuration and the storage of the kitties pallet (`pallets/kitties/src/lib.rs`).
-- Account ids, kitty ids (`u32`), balances, moments and bytes are numbers.
use my_substrate_kitties.Base.{ℕ, ◌%◌, Option, none, List, [], get_or, ◌==◌, if◌then◌else◌}
use my_substrate_kitties.Frame.Storage.{StorageMap}
use my_substrate_kitties.Frame.Currency.{Currency}

pub record Kitty : Type 0 where
  pub dna : List ℕ
  pub birth_time : ℕ

pub data Gender : Type 0 where
  male female : Gender

-- `gender`. A `dna` has 16 bytes, so the first is there.
unfoldable pub gender : Kitty → Gender
gender k = if get_or k.dna 0 0 % 2 == 0 then male else female

pub data Event : Type 0 where
  kitty_created : ℕ → Event
  kitty_transfered : ℕ → ℕ → ℕ → Event
  kitty_born : ℕ → ℕ → ℕ → Event
  kitty_abandoned : ℕ → Event
  kitty_adopted : ℕ → ℕ → Event
  kitty_price_set : ℕ → ℕ → Event
  kitty_price_cleared : ℕ → Event
  kitty_sold : ℕ → ℕ → ℕ → ℕ → Event

pub data Error : Type 0 where
  kitties_count_overflow : Error
  kitty_not_exists : Error
  not_owner_of_kitty : Error
  can_not_adopt_kitty_with_an_owner : Error
  can_not_breed_with_same_gender : Error
  kitty_not_for_sell : Error
  no_need_to_buy_kitty_without_an_owner : Error

-- `trait Config`: what the runtime supplies, with the host's hash and the encoding of its input.
-- A random seed comes with a block number; the index of the extrinsic may be missing.
pub record Config : Type 1 where
  pub Origin : Type 0
  pub ensure_signed : Origin → Option ℕ
  pub currency : Currency
  pub storage : StorageMap
  pub holding_deposit_for_one_kitty : ℕ
  pub encode : (ℕ × ℕ) × ℕ × Option ℕ → List ℕ
  pub blake2_128 : List ℕ → List ℕ

-- What a call reads of the block that it stands in: `random_seed()`, `extrinsic_index()`, `now()`.
pub record Block : Type 0 where
  pub random_seed : ℕ × ℕ
  pub extrinsic_index : Option ℕ
  pub now : ℕ

-- The storage items of the pallet, the events deposited so far and the state of the currency.
pub record State (C : Config) : Type 0 where
  pub kitties_count : Option ℕ
  pub kitties : C.storage.Map Kitty
  pub kitties_owner : C.storage.Map ℕ
  pub kitties_price : C.storage.Map ℕ
  pub events : List Event
  pub balances : C.currency.Balances

-- The storage before the first call.
abbrev pub genesis : (C : Config) → C.currency.Balances → State C
genesis C b = record {
  kitties_count = none;
  kitties = C.storage.empty;
  kitties_owner = C.storage.empty;
  kitties_price = C.storage.empty;
  events = [];
  balances = b;
}
