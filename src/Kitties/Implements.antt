-- ===== src/Kitties/Implements.antt =====
-- The dispatchable functions of the kitties pallet (`pallets/kitties/src/lib.rs`) make only the steps
-- of `Transition`.
mod Rules
pub mod Birth
mod Custody
mod Sale
use my_substrate_kitties.Base.{
  ℕ, ◌+◌, ◌==◌, List, ◌≡◌, ◌≢◌, refl, ◌⊎◌, inl, inr, true, false, some, none, arith, Option-cases,
  Bool-cases,
}
use my_substrate_kitties.Frame.Dispatch.{
  DispatchError, Result, ok, err, panic, module_error, bad_origin, currency_error,
}
use my_substrate_kitties.Frame.Currency.{Outcome, Outcome-cases, keep_alive, done, failed, IsLawful}
use my_substrate_kitties.Kitties.Types.{Config, Block, State, Error, Kitty, kitties_count_overflow}
use my_substrate_kitties.Kitties.Helpers.{u32_max, create_kitty, breed_dna, get_random_value}
use my_substrate_kitties.Kitties.Calls.{
  Request, create, transfer, breed, abandon, adopt, set_price, clear_price, buy, dispatch,
  create_request, transfer_request, breed_request, abandon_request, adopt_request,
  clear_price_request, buy_request, set_price_request,
}
use my_substrate_kitties.Kitties.Transition.{
  Transition, refused, payment_kept, created, bred, transfered, abandoned, adopted, priced,
  unpriced, sold, HasCountU32, IsNext, Owns, paid, count_of,
}
use Birth.{create-Transition, breed-Transition}
use Custody.{
  transfer-Transition, abandon-Transition, adopt-Transition, set_price-Transition,
  clear_price-Transition,
}
use Sale.{buy-Transition}

module _ (C : Config) (L : IsLawful C.currency) (block : Block) (origin : C.Origin)
    (s : State C) where
  -- Over a lawful currency and with a count that is a `u32`, every call of the pallet makes a step of
  -- `Transition` from the storage that it finds to the storage that it leaves, with its result.
  pub dispatch-Transition :
      HasCountU32 C s
      → (q : Request)
      → let (r, t) = dispatch C block origin q s in Transition C block origin s t q r
  unfolding dispatch
  dispatch-Transition fits create_request = create-Transition C block origin s fits
  dispatch-Transition fits (transfer_request id new_owner) =
      transfer-Transition C L block origin s id new_owner
  dispatch-Transition fits (breed_request id1 id2) = breed-Transition C block origin s fits id1 id2
  dispatch-Transition fits (abandon_request id) = abandon-Transition C L block origin s id
  dispatch-Transition fits (adopt_request id) = adopt-Transition C L block origin s id
  dispatch-Transition fits (clear_price_request id) = clear_price-Transition C L block origin s id
  dispatch-Transition fits (buy_request id) = buy-Transition C L block origin s id
  dispatch-Transition fits (set_price_request id price) =
      set_price-Transition C L block origin s id price
