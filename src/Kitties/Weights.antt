-- ===== src/Kitties/Weights.antt =====
-- The weights that the calls of the kitties pallet (`pallets/kitties/src/lib.rs`) declare, and how often
-- the calls write: the pallet over a storage map and a currency that count.
pub mod Steps
pub mod Calls
use my_substrate_kitties.Base.{
  ℕ, Bool, Option, ◌==◌, refl, ◌+◌, ◌≡◌, ◌≢◌, ◌≤◌, ◌<◌, arith, Option-cases, inl, inr, none, some,
}
use my_substrate_kitties.Frame.Dispatch.{
  Result, ok, gets, some_or_fail, signed_by, modify, ensure, pure, throw, ◌>>=◌,
}
use my_substrate_kitties.Frame.Currency.{Outcome, Outcome-cases, done, failed, keep_alive}
use my_substrate_kitties.Frame.Storage.Counting as Storage
use my_substrate_kitties.Frame.Currency.Counting as Currency
use my_substrate_kitties.Frame.Dispatch.Cost.{
  Spends, Pays, Pays-Spends, pure-Pays, modify-Pays, bind-Pays, ensure-Spends, some_or_fail-Spends,
  signed_by-Spends, unwrap-Spends, gets-Spends, then_Spends, test_Spends, then_Pays,
}
use my_substrate_kitties.Kitties.Types.{
  Config, Block, State, Error, kitty_not_exists, not_owner_of_kitty, Event, Kitty,
}
use my_substrate_kitties.Kitties.Helpers.{
  Call, ensure_owner, try_currency, unreserve, transfer_kitty, next_count, get_next_kitty_id,
  create_kitty, breed_kitty, currency_result,
}
use my_substrate_kitties.Kitties.Calls.{
  Request, create_request, transfer_request, breed_request, abandon_request, adopt_request,
  clear_price_request, buy_request, set_price_request, create, transfer, breed, abandon, adopt,
  set_price, clear_price, buy, dispatch, ensure_exists, deposit_event,
}

-- The argument of `writes` in `#[pallet::weight(10_000 + T::DbWeight::get().writes(1))]`.
abbrev pub declared_writes : Request → ℕ
declared_writes create_request = 1
declared_writes (transfer_request id new_owner) = 1
declared_writes (breed_request id1 id2) = 1
declared_writes (abandon_request id) = 1
declared_writes (adopt_request id) = 1
declared_writes (set_price_request id price) = 1
declared_writes (clear_price_request id) = 1
declared_writes (buy_request id) = 1

-- The weight of a call; `writes` is that of the `DbWeight` of the runtime.
abbrev pub weight : (ℕ → ℕ) → Request → ℕ
weight writes q = 10_000 + writes (declared_writes q)

-- The configuration over the same storage map and the same currency, which count.
abbrev pub metered : Config → Config
metered C = record C {
  storage = Storage.counting C.storage;
  currency = Currency.counting C.currency;
}

module _ (C : Config) where
  -- The writes to the three maps.
  abbrev pub map_writes : State (metered C) → ℕ
  map_writes s = s.kitties.0 + s.kitties_owner.0 + s.kitties_price.0

  -- The calls of the currency.
  abbrev pub moves : State (metered C) → ℕ
  moves s = s.balances.0

-- What a call that succeeds writes to the maps, and how often it calls the currency.
abbrev pub cost : Request → ℕ × ℕ
cost create_request = (1, 0)
cost (transfer_request id new_owner) = (1, 2)
cost (breed_request id1 id2) = (1, 0)
cost (abandon_request id) = (2, 1)
cost (adopt_request id) = (1, 1)
cost (set_price_request id price) = (1, 0)
cost (clear_price_request id) = (1, 0)
cost (buy_request id) = (2, 3)
