-- ===== src/Kitties/Resale.antt =====
-- No kitty of the pallet (`pallets/kitties/src/lib.rs`) is sold twice for one offer.
use my_substrate_kitties.Base.{
  ℕ, ◌≡◌, refl, Bool, false, Option, none, some, List, [], ◌∷◌, arith, ◌==◌,
}
use my_substrate_kitties.Frame.Dispatch.{Result, DispatchError, bad_origin, module_error, ok, err}
use my_substrate_kitties.Frame.Currency.{IsLawful}
use my_substrate_kitties.Kitties.Types.{
  Config, Block, State, Error, kitty_not_for_sell, no_need_to_buy_kitty_without_an_owner,
}
use my_substrate_kitties.Kitties.Calls.{Request, set_price_request, buy_request, buy, dispatch, run}
use my_substrate_kitties.Kitties.Transition.{
  Transition, refused, payment_kept, created, bred, transfered, abandoned, adopted, priced,
  unpriced, sold, Exists, HasCountU32,
}
use my_substrate_kitties.Kitties.Implements.{dispatch-Transition}
use my_substrate_kitties.Kitties.Invariant.{counted_step}
use my_substrate_kitties.Kitties.Ordering.Swap.{step-Exists}

-- The call asks a price for the kitty.
abbrev pub asks : Request → ℕ → Bool
asks (set_price_request i price) id = id == i
asks _ id = false

-- The error of a purchase that finds no offer, by the signer and by the owner of the kitty.
abbrev pub no_offer : Option ℕ → Option ℕ → DispatchError Error
no_offer none owner = bad_origin
no_offer (some who) none = module_error no_need_to_buy_kitty_without_an_owner
no_offer (some who) (some owner) = module_error kitty_not_for_sell

module _ (C : Config) (id : ℕ) where
  abbrev pub AskNothing : List (Block × C.Origin × Request) → Type 0
  AskNothing [] = Unit {0}
  AskNothing ((block, origin, q) ∷ requests) = (asks q id ≡ false) × AskNothing requests

  abbrev IsOffMarket : State C → Type 0
  IsOffMarket s = Exists C s id × (C.storage.get s.kitties_price id ≡ none)

  module _ {block : Block} {origin : C.Origin} {s t : State C} where
    step_unpriced :
        {q : Request} {r : Result Error (Unit {0})}
        → Transition C block origin s t q r
        → asks q id ≡ false
        → C.storage.get s.kitties_price id ≡ none
        → C.storage.get t.kitties_price id ≡ none
    step_unpriced (refused e h) other n = rw h n
    step_unpriced (payment_kept i buyer seller p e o w x c f h) other n = rw h n
    step_unpriced (created who i kitty o k g h) other n = rw h n
    step_unpriced (bred who i id1 id2 kitty k1 k2 o e1 e2 x k g h) other n = rw h n
    step_unpriced (transfered who i new_owner o x w c h) other n = rw h n
    step_unpriced (abandoned who i o x w h) other n =
        ground (arith, C.storage.get-remove s.kitties_price i id)
    step_unpriced (adopted who i o x w c h) other n = rw h n
    step_unpriced (priced who i p o x w h) other n =
        ground (arith, C.storage.get-insert s.kitties_price i p id)
    step_unpriced (unpriced who i o x w h) other n =
        ground (arith, C.storage.get-remove s.kitties_price i id)
    step_unpriced (sold i buyer seller p o x w y c f h) other n =
        ground (arith, C.storage.get-remove s.kitties_price i id)

    sale_unpriced :
        (q : Request) (r : Result Error (Unit {0}))
        → Transition C block origin s t q r
        → q ≡ buy_request id
        → r ≡ ok tt
        → IsOffMarket t
    sale_unpriced q r (refused e h) same good = cc
    sale_unpriced q r (payment_kept i buyer seller p e o w x c f h) same good = cc
    sale_unpriced q r (created who i kitty o k g h) same good = cc
    sale_unpriced q r (bred who i id1 id2 kitty k1 k2 o e1 e2 x k g h) same good = cc
    sale_unpriced q r (transfered who i new_owner o x w c h) same good = cc
    sale_unpriced q r (abandoned who i o x w h) same good = cc
    sale_unpriced q r (adopted who i o x w c h) same good = cc
    sale_unpriced q r (priced who i p o x w h) same good = cc
    sale_unpriced q r (unpriced who i o x w h) same good = cc
    sale_unpriced q r (sold i buyer seller p o x w y c f h) same good =
        (ground arith, ground (arith, C.storage.get-remove s.kitties_price i id))

  module _ (L : IsLawful C.currency) where
    run-IsOffMarket :
        (requests : List (Block × C.Origin × Request)) (s : State C)
        → HasCountU32 C s
        → AskNothing requests
        → IsOffMarket s
        → IsOffMarket (run C requests s)
    unfolding run
    run-IsOffMarket [] s counted quiet off = off
    run-IsOffMarket ((block, origin, q) ∷ requests) s counted (other, quiet) (x, n) =
        let step = dispatch-Transition C L block origin s counted q in
        run-IsOffMarket requests _ (counted_step C step counted) quiet
          (step-Exists C id step x, step_unpriced step other n)

    -- Over a lawful currency, with a count that is a u32: once a kitty was sold, a further purchase of it
    -- is refused and changes nothing, whatever calls came between, unless one of them asks a price
    -- for that kitty. The error tells that the call is not signed, that the kitty has no owner any
    -- more, or that it is not for sale.
    pub buy_then_buy :
        (block block' : Block) (first next : C.Origin)
        (requests : List (Block × C.Origin × Request)) (s : State C)
        → HasCountU32 C s
        → (dispatch C block first (buy_request id) s).0 ≡ ok tt
        → AskNothing requests
        → let u = run C requests (dispatch C block first (buy_request id) s).1 in
          dispatch C block' next (buy_request id) u
          ≡ (err (no_offer (C.ensure_signed next) (C.storage.get u.kitties_owner id)), u)
    unfolding dispatch buy
    buy_then_buy block block' first next requests s counted good quiet =
        let step = dispatch-Transition C L block first s counted (buy_request id) in
        let t = (dispatch C block first (buy_request id) s).1 in
        let off = sale_unpriced _ _ step refl good in
        let (x, n) = run-IsOffMarket requests t (counted_step C step counted) quiet off in
        ground arith
