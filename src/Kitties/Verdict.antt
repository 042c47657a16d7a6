-- ===== src/Kitties/Verdict.antt =====
-- How a call of the kitties pallet (`pallets/kitties/src/lib.rs`) ends, as a table: for each call the
-- conditions that it needs, in the order in which a failure counts, each with its error.
use my_substrate_kitties.Base.{
  ℕ, ◌≡◌, Bool, true, false, not, Option, none, some, List, [], ◌∷◌, arith, ◌==◌, is_some,
  Option-cases, inl, inr,
}
use my_substrate_kitties.Frame.Dispatch.{
  DispatchError, module_error, bad_origin, currency_error, Result, ok, err,
}
use my_substrate_kitties.Frame.Currency.{Outcome, done, failed, keep_alive}
use my_substrate_kitties.Kitties.Types.{
  Kitty, Config, Block, State, gender, Error, kitties_count_overflow, kitty_not_exists,
  not_owner_of_kitty, can_not_adopt_kitty_with_an_owner, can_not_breed_with_same_gender,
  kitty_not_for_sell, no_need_to_buy_kitty_without_an_owner,
}
use my_substrate_kitties.Kitties.Helpers.{u32_max, same_gender, create_kitty}
use my_substrate_kitties.Kitties.Calls.{
  Request, create_request, transfer_request, breed_request, abandon_request, adopt_request,
  clear_price_request, buy_request, set_price_request, create, transfer, breed, abandon, adopt,
  set_price, clear_price, buy, dispatch,
}

-- The error of a condition that does not hold.
abbrev Check : Type 0
Check = Option (DispatchError Error)

abbrev needs : Bool → Error → Check
needs true e = none
needs false e = some (module_error e)

abbrev goes_through : Outcome → Check
goes_through done = none
goes_through (failed e) = some (currency_error e)

-- The first error counts.
abbrev first_error : List Check → Result Error (Unit {0})
first_error [] = ok tt
first_error (none ∷ checks) = first_error checks
first_error (some e ∷ checks) = err e

abbrev has_room : Option ℕ → Bool
has_room none = true
has_room (some count) = not (count == u32_max)

abbrev belongs_to : Option ℕ → ℕ → Bool
belongs_to none who = false
belongs_to (some owner) who = who == owner

abbrev differ : Option Kitty → Option Kitty → Bool
differ (some kitty1) (some kitty2) = not (same_gender (gender kitty1) (gender kitty2))
differ _ _ = false

module _ (C : Config) (s : State C) where
  abbrev exists : ℕ → Check
  exists id = needs (is_some (C.storage.get s.kitties id)) kitty_not_exists

  abbrev owned_by : ℕ → ℕ → Check
  owned_by id who = needs (belongs_to (C.storage.get s.kitties_owner id) who) not_owner_of_kitty

  abbrev deposit_of : ℕ → C.currency.Balances → Check
  deposit_of who b = goes_through (C.currency.reserve who C.holding_deposit_for_one_kitty b).0

  -- The payment, and the deposit out of what is left, where there are a seller and a price.
  abbrev purchase : ℕ → Option ℕ → Option ℕ → List Check
  purchase buyer (some seller) (some price) =
      let (r, b) = C.currency.transfer buyer seller price keep_alive s.balances in
      goes_through r ∷ deposit_of buyer b ∷ []
  purchase buyer _ _ = []

  abbrev pub checks : ℕ → Request → List Check
  checks who create_request = needs (has_room s.kitties_count) kitties_count_overflow ∷ []
  checks who (transfer_request id new_owner) =
      exists id ∷ owned_by id who ∷ deposit_of new_owner s.balances ∷ []
  checks who (breed_request id1 id2) =
      exists id1
      ∷ exists id2
      ∷ needs (differ (C.storage.get s.kitties id1) (C.storage.get s.kitties id2))
          can_not_breed_with_same_gender
      ∷ needs (has_room s.kitties_count) kitties_count_overflow
      ∷ []
  checks who (abandon_request id) = exists id ∷ owned_by id who ∷ []
  checks who (adopt_request id) =
      exists id
      ∷ needs (not (is_some (C.storage.get s.kitties_owner id))) can_not_adopt_kitty_with_an_owner
      ∷ deposit_of who s.balances
      ∷ []
  checks who (clear_price_request id) = exists id ∷ owned_by id who ∷ []
  checks who (set_price_request id price) = exists id ∷ owned_by id who ∷ []
  checks who (buy_request id) =
      let owner = C.storage.get s.kitties_owner id in
      let price = C.storage.get s.kitties_price id in
      exists id
      ∷ needs (is_some owner) no_need_to_buy_kitty_without_an_owner
      ∷ needs (is_some price) kitty_not_for_sell
      ∷ purchase who owner price

  abbrev pub verdict : Option ℕ → Request → Result Error (Unit {0})
  verdict none q = err bad_origin
  verdict (some who) q = first_error (checks who q)

module _ (C : Config) (block : Block) (origin : C.Origin) (s : State C) where
  unsigned :
      (q : Request)
      → C.ensure_signed origin ≡ none
      → (dispatch C block origin q s).0 ≡ err bad_origin
  unfolding dispatch create transfer breed abandon adopt set_price clear_price buy
  unsigned create_request o = ground arith
  unsigned (transfer_request id new_owner) o = ground arith
  unsigned (breed_request id1 id2) o = ground arith
  unsigned (abandon_request id) o = ground arith
  unsigned (adopt_request id) o = ground arith
  unsigned (clear_price_request id) o = ground arith
  unsigned (buy_request id) o = ground arith
  unsigned (set_price_request id price) o = ground arith

  module _ (who : ℕ) (o : C.ensure_signed origin ≡ some who) where
    created : (create C block origin s).0 ≡ first_error (checks C s who create_request)
    unfolding create create_kitty
    created = ground arith

    bred :
        (id1 id2 : ℕ)
        → (breed C block origin id1 id2 s).0 ≡ first_error (checks C s who (breed_request id1 id2))
    unfolding breed create_kitty
    bred id1 id2 =
        ground (
          arith,
          C.storage.contains_key_lem s.kitties id1,
          C.storage.contains_key_lem s.kitties id2,
        )

    signed : (q : Request) → (dispatch C block origin q s).0 ≡ first_error (checks C s who q)
    unfolding dispatch transfer abandon adopt set_price clear_price buy
    signed create_request = created
    signed (transfer_request id new_owner) = ground (arith, C.storage.contains_key_lem s.kitties id)
    signed (breed_request id1 id2) = bred id1 id2
    signed (abandon_request id) = ground (arith, C.storage.contains_key_lem s.kitties id)
    signed (adopt_request id) = ground (
      arith,
      C.storage.contains_key_lem s.kitties id,
      C.storage.contains_key_lem s.kitties_owner id,
    )
    signed (clear_price_request id) = ground (arith, C.storage.contains_key_lem s.kitties id)
    signed (buy_request id) = ground (arith, C.storage.contains_key_lem s.kitties id)
    signed (set_price_request id price) = ground (arith, C.storage.contains_key_lem s.kitties id)

  -- A call, in any storage, ends with success or with the very error that the table gives: that of the
  -- first of its conditions that does not hold, and the refusal of the origin before all of them.
  pub dispatch-verdict :
      (q : Request) → (dispatch C block origin q s).0 ≡ verdict C s (C.ensure_signed origin) q
  dispatch-verdict q = elim (Option-cases (C.ensure_signed origin)) [
    | inl o ↦ rw o (unsigned q o)
    | inr (who, o) ↦ rw o (signed who o q)
  ]
