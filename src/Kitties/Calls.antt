-- ===== src/Kitties/Calls.antt =====
-- The dispatchable functions of the kitties pallet (`pallets/kitties/src/lib.rs`), statement by
-- statement, and the choice between them.
use my_substrate_kitties.Base.{ℕ, not, List, [], ◌∷◌, ◌++◌}
use my_substrate_kitties.Frame.Dispatch.{gets, some_or_fail, signed_by, modify, ensure, ◌>>=◌, ◌>>◌}
use my_substrate_kitties.Frame.Currency.{keep_alive}
use my_substrate_kitties.Kitties.Types.{
  Event, kitty_created, kitty_transfered, kitty_born, kitty_abandoned, kitty_adopted,
  kitty_price_set, kitty_price_cleared, kitty_sold, kitty_not_exists,
  can_not_adopt_kitty_with_an_owner, kitty_not_for_sell, no_need_to_buy_kitty_without_an_owner,
  Config, Block, State,
}
use my_substrate_kitties.Kitties.Helpers.{
  Call, get_random_value, create_kitty, breed_kitty, ensure_owner, try_currency, unreserve,
  transfer_kitty,
}

module _ (C : Config) where
  abbrev pub ensure_exists : ℕ → Call C (Unit {0})
  ensure_exists id = do ensure (← gets (λ s. C.storage.contains_key s.kitties id)) kitty_not_exists

  abbrev pub deposit_event : Event → Call C (Unit {0})
  deposit_event e = modify λ s. record s { events = s.events ++ (e ∷ []) }

  unfoldable pub create : Block → C.Origin → Call C (Unit {0})
  unfolding create_kitty get_random_value
  create block origin = do
    who ← signed_by (C.ensure_signed origin)
    id ← create_kitty C block (get_random_value C block who)
    deposit_event (kitty_created id)

  unfoldable pub transfer : C.Origin → ℕ → ℕ → Call C (Unit {0})
  unfolding ensure_owner transfer_kitty
  transfer origin id new_owner = do
    who ← signed_by (C.ensure_signed origin)
    ensure_exists id
    ensure_owner C id who
    transfer_kitty C id who new_owner
    deposit_event (kitty_transfered id who new_owner)

  unfoldable pub breed : Block → C.Origin → ℕ → ℕ → Call C (Unit {0})
  unfolding breed_kitty
  breed block origin id1 id2 = do
    who ← signed_by (C.ensure_signed origin)
    ensure_exists id1
    ensure_exists id2
    id ← breed_kitty C block id1 id2 who
    deposit_event (kitty_born id id1 id2)

  unfoldable pub abandon : C.Origin → ℕ → Call C (Unit {0})
  unfolding ensure_owner
  abandon origin id = do
    who ← signed_by (C.ensure_signed origin)
    ensure_exists id
    ensure_owner C id who
    unreserve C who
    modify λ s. record s { kitties_owner = C.storage.remove id s.kitties_owner }
    modify λ s. record s { kitties_price = C.storage.remove id s.kitties_price }
    deposit_event (kitty_abandoned id)

  unfoldable pub adopt : C.Origin → ℕ → Call C (Unit {0})
  adopt origin id = do
    who ← signed_by (C.ensure_signed origin)
    ensure_exists id
    ensure (not (← gets (λ s. C.storage.contains_key s.kitties_owner id)))
        can_not_adopt_kitty_with_an_owner
    try_currency C (C.currency.reserve who C.holding_deposit_for_one_kitty)
    modify λ s. record s { kitties_owner = C.storage.insert id who s.kitties_owner }
    deposit_event (kitty_adopted id who)

  unfoldable pub set_price : C.Origin → ℕ → ℕ → Call C (Unit {0})
  unfolding ensure_owner
  set_price origin id price = do
    who ← signed_by (C.ensure_signed origin)
    ensure_exists id
    ensure_owner C id who
    modify λ s. record s { kitties_price = C.storage.insert id price s.kitties_price }
    deposit_event (kitty_price_set id price)

  unfoldable pub clear_price : C.Origin → ℕ → Call C (Unit {0})
  unfolding ensure_owner
  clear_price origin id = do
    who ← signed_by (C.ensure_signed origin)
    ensure_exists id
    ensure_owner C id who
    modify λ s. record s { kitties_price = C.storage.remove id s.kitties_price }
    deposit_event (kitty_price_cleared id)

  unfoldable pub buy : C.Origin → ℕ → Call C (Unit {0})
  unfolding transfer_kitty
  buy origin id = do
    buyer ← signed_by (C.ensure_signed origin)
    ensure_exists id
    owner ←
        some_or_fail (← gets (λ s. C.storage.get s.kitties_owner id))
          no_need_to_buy_kitty_without_an_owner
    price ← some_or_fail (← gets (λ s. C.storage.get s.kitties_price id)) kitty_not_for_sell
    try_currency C (C.currency.transfer buyer owner price keep_alive)
    transfer_kitty C id owner buyer
    modify λ s. record s { kitties_price = C.storage.remove id s.kitties_price }
    deposit_event (kitty_sold id owner buyer price)

-- A call of the pallet, with its arguments, and the function that it runs.
pub data Request : Type 0 where
  create_request : Request
  transfer_request : ℕ → ℕ → Request
  breed_request : ℕ → ℕ → Request
  abandon_request adopt_request clear_price_request buy_request : ℕ → Request
  set_price_request : ℕ → ℕ → Request

module _ (C : Config) where
  unfoldable pub dispatch : Block → C.Origin → Request → Call C (Unit {0})
  dispatch block origin create_request = create C block origin
  dispatch block origin (transfer_request id new_owner) = transfer C origin id new_owner
  dispatch block origin (breed_request id1 id2) = breed C block origin id1 id2
  dispatch block origin (abandon_request id) = abandon C origin id
  dispatch block origin (adopt_request id) = adopt C origin id
  dispatch block origin (set_price_request id price) = set_price C origin id price
  dispatch block origin (clear_price_request id) = clear_price C origin id
  dispatch block origin (buy_request id) = buy C origin id

  -- The state after calls that come one after the other; what a failed call wrote stays written.
  unfoldable pub run : List (Block × C.Origin × Request) → State C → State C
  run [] s = s
  run ((block, origin, request) ∷ requests) s = run requests (dispatch block origin request s).1
