-- ===== src/Kitties/Transition.antt =====
-- What a call of the kitties pallet may do to the storage, as a step relation: the contract that the
-- functions of `pallets/kitties/src/lib.rs` are held to. Of the
-- functions it mentions only `get_random_value` and `breed_dna`, for the dna of a new kitty.
use my_substrate_kitties.Base.{ℕ, ◌+◌, ◌<◌, ◌^◌, ◌≡◌, ◌≢◌, true, Option, none, some, [], ◌∷◌, ◌++◌}
use my_substrate_kitties.Frame.Dispatch.{DispatchError, Result, ok, err, currency_error}
use my_substrate_kitties.Frame.Currency.{done, failed, keep_alive}
use my_substrate_kitties.Kitties.Types.{
  Kitty, gender, Event, kitty_created, kitty_transfered, kitty_born, kitty_abandoned, kitty_adopted,
  kitty_price_set, kitty_price_cleared, kitty_sold, Error, Config, Block, State,
}
use my_substrate_kitties.Kitties.Helpers.{breed_dna, get_random_value}
use my_substrate_kitties.Kitties.Calls.{
  Request, create_request, transfer_request, breed_request, abandon_request, adopt_request,
  clear_price_request, buy_request, set_price_request,
}

-- The number of kitties: the stored count, or 0 before the first kitty.
abbrev pub count_of : Option ℕ → ℕ
count_of none = 0
count_of (some count) = count

module _ (C : Config) where
  -- The stored count is a `u32`.
  abbrev pub HasCountU32 : State C → Type 0
  HasCountU32 s = count_of s.kitties_count < 2 ^ 32

  -- The next id is the count plus one, and still a `u32`.
  abbrev pub IsNext : State C → ℕ → Type 0
  IsNext s id = (id ≡ count_of s.kitties_count + 1) × (id < 2 ^ 32)

  -- The storage with a new kitty and its event.
  abbrev pub with_kitty : State C → ℕ → Kitty → Event → State C
  with_kitty s id kitty event = record s {
    kitties_count = some id;
    kitties = C.storage.insert id kitty s.kitties;
    events = s.events ++ (event ∷ []);
  }

  -- The currency after the deposit for a kitty was reserved, or given back.
  abbrev pub deposited : ℕ → C.currency.Balances → C.currency.Balances
  deposited who b = (C.currency.reserve who C.holding_deposit_for_one_kitty b).1

  abbrev pub released : ℕ → C.currency.Balances → C.currency.Balances
  released who b = (C.currency.unreserve who C.holding_deposit_for_one_kitty b).1

  abbrev pub CanDeposit : ℕ → C.currency.Balances → Type 0
  CanDeposit who b = (C.currency.reserve who C.holding_deposit_for_one_kitty b).0 ≡ done

  -- The currency after a price was paid.
  abbrev pub paid : ℕ → ℕ → ℕ → C.currency.Balances → C.currency.Balances
  paid buyer seller price b = (C.currency.transfer buyer seller price keep_alive b).1

  abbrev pub CanPay : ℕ → ℕ → ℕ → C.currency.Balances → Type 0
  CanPay buyer seller price b = (C.currency.transfer buyer seller price keep_alive b).0 ≡ done

  abbrev pub Exists : State C → ℕ → Type 0
  Exists s id = C.storage.contains_key s.kitties id ≡ true

  abbrev pub Owns : State C → ℕ → ℕ → Type 0
  Owns s who id = C.storage.get s.kitties_owner id ≡ some who

-- A call `q` by `origin` in a block takes the storage `s` to `t` with a result.
pub data Transition (C : Config) (block : Block) (origin : C.Origin) (s t : State C)
    : Request → Result Error (Unit {0}) → Type 0 where
  refused :
      {q : Request} (e : DispatchError Error) → t ≡ s → Transition C block origin s t q (err e)
  payment_kept :
      (id buyer seller price e : ℕ)
      → C.ensure_signed origin ≡ some buyer
      → Owns C s seller id
      → C.storage.get s.kitties_price id ≡ some price
      → CanPay C buyer seller price s.balances
      → (C.currency.reserve buyer C.holding_deposit_for_one_kitty
          (paid C buyer seller price s.balances)).0
        ≡ failed e
      → t ≡ record s { balances = paid C buyer seller price s.balances }
      → Transition C block origin s t (buy_request id) (err (currency_error e))
  created :
      (who id : ℕ) (kitty : Kitty)
      → C.ensure_signed origin ≡ some who
      → IsNext C s id
      → kitty ≡ record { dna = get_random_value C block who; birth_time = block.now }
      → t ≡ with_kitty C s id kitty (kitty_created id)
      → Transition C block origin s t create_request (ok tt)
  bred :
      (who id id1 id2 : ℕ) (kitty kitty1 kitty2 : Kitty)
      → C.ensure_signed origin ≡ some who
      → C.storage.get s.kitties id1 ≡ some kitty1
      → C.storage.get s.kitties id2 ≡ some kitty2
      → gender kitty1 ≢ gender kitty2
      → IsNext C s id
      → kitty ≡ record {
        dna = breed_dna 16 0 (get_random_value C block who) kitty1.dna kitty2.dna;
        birth_time = block.now;
      }
      → t ≡ with_kitty C s id kitty (kitty_born id id1 id2)
      → Transition C block origin s t (breed_request id1 id2) (ok tt)
  transfered :
      (who id new_owner : ℕ)
      → C.ensure_signed origin ≡ some who
      → Exists C s id
      → Owns C s who id
      → CanDeposit C new_owner s.balances
      → t ≡ record s {
        kitties_owner = C.storage.insert id new_owner s.kitties_owner;
        events = s.events ++ (kitty_transfered id who new_owner ∷ []);
        balances = released C who (deposited C new_owner s.balances);
      }
      → Transition C block origin s t (transfer_request id new_owner) (ok tt)
  abandoned :
      (who id : ℕ)
      → C.ensure_signed origin ≡ some who
      → Exists C s id
      → Owns C s who id
      → t ≡ record s {
        kitties_owner = C.storage.remove id s.kitties_owner;
        kitties_price = C.storage.remove id s.kitties_price;
        events = s.events ++ (kitty_abandoned id ∷ []);
        balances = released C who s.balances;
      }
      → Transition C block origin s t (abandon_request id) (ok tt)
  adopted :
      (who id : ℕ)
      → C.ensure_signed origin ≡ some who
      → Exists C s id
      → C.storage.get s.kitties_owner id ≡ none
      → CanDeposit C who s.balances
      → t ≡ record s {
        kitties_owner = C.storage.insert id who s.kitties_owner;
        events = s.events ++ (kitty_adopted id who ∷ []);
        balances = deposited C who s.balances;
      }
      → Transition C block origin s t (adopt_request id) (ok tt)
  priced :
      (who id price : ℕ)
      → C.ensure_signed origin ≡ some who
      → Exists C s id
      → Owns C s who id
      → t ≡ record s {
        kitties_price = C.storage.insert id price s.kitties_price;
        events = s.events ++ (kitty_price_set id price ∷ []);
      }
      → Transition C block origin s t (set_price_request id price) (ok tt)
  unpriced :
      (who id : ℕ)
      → C.ensure_signed origin ≡ some who
      → Exists C s id
      → Owns C s who id
      → t ≡ record s {
        kitties_price = C.storage.remove id s.kitties_price;
        events = s.events ++ (kitty_price_cleared id ∷ []);
      }
      → Transition C block origin s t (clear_price_request id) (ok tt)
  sold :
      (id buyer seller price : ℕ)
      → C.ensure_signed origin ≡ some buyer
      → Exists C s id
      → Owns C s seller id
      → C.storage.get s.kitties_price id ≡ some price
      → CanPay C buyer seller price s.balances
      → CanDeposit C buyer (paid C buyer seller price s.balances)
      → t ≡ record s {
        kitties_owner = C.storage.insert id buyer s.kitties_owner;
        kitties_price = C.storage.remove id s.kitties_price;
        events = s.events ++ (kitty_sold id seller buyer price ∷ []);
        balances = released C seller (deposited C buyer (paid C buyer seller price s.balances));
      }
      → Transition C block origin s t (buy_request id) (ok tt)
