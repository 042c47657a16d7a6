-- ===== src/Kitties/Examples/Trade.antt =====
-- The theorems about the order of offers and purchases in the kitties pallet
-- (`pallets/kitties/src/lib.rs`) at concrete histories in the mock runtime.
use my_substrate_kitties.Base.{◌≡◌, refl, none, some, List, [], ◌∷◌, ◌++◌, map}
use my_substrate_kitties.Frame.Dispatch.{err}
use my_substrate_kitties.Frame.Currency.Ledger.{ledger-IsLawful}
use my_substrate_kitties.Kitties.Types.{Block}
use my_substrate_kitties.Kitties.Calls.{
  Request, create_request, transfer_request, buy_request, dispatch, run,
}
use my_substrate_kitties.Kitties.Ordering.Offers.{SameUpToOrder}
use my_substrate_kitties.Kitties.Ordering.Shuffle.{done, left, right, Offer, made, run-Shuffle}
use my_substrate_kitties.Kitties.Resale.{no_offer, buy_then_buy}
use my_substrate_kitties.Kitties.Mock.{test, block, play}
use my_substrate_kitties.Kitties.Examples.{for_sale, play-IsSound}

-- Account 2 buys the kitty and gives it to account 3, and then account 4 would buy it.
abbrev given_away : List (Block × test.Origin × Request)
given_away = (block 10, some 2, transfer_request 1 3) ∷ []

buy_then_buy_example :
    let u =
      run test given_away (dispatch test (block 9) (some 2) (buy_request 1) (play for_sale)).1 in
    dispatch test (block 11) (some 4) (buy_request 1) u
    ≡ (err (no_offer (some 4) (test.storage.get u.kitties_owner 1)), u)
unfolding play
buy_then_buy_example =
    buy_then_buy test 1 ledger-IsLawful (block 9) (block 11) (some 2) (some 4) given_away
      (play for_sale) (play-IsSound for_sale).valid.counted refl (refl, tt)

-- Account 1 takes its kitty off the market and asks another price, and account 3 creates a kitty in
-- between; then account 2 buys.
abbrev taken_off : Offer test
taken_off = record { block = block 9; origin = some 1; kitty = 1; price = none }

abbrev cheaper : Offer test
cheaper = record { block = block 11; origin = some 1; kitty = 1; price = some 5 }

abbrev birth : Block × test.Origin × Request
birth = (block 10, some 3, create_request)

abbrev bought : List (Block × test.Origin × Request)
bought = (block 12, some 2, buy_request 1) ∷ []

run-Shuffle_example :
    SameUpToOrder test
      (run test ((made test taken_off ∷ birth ∷ made test cheaper ∷ []) ++ bought) (play for_sale))
      (run test
        (map (made test) (taken_off ∷ cheaper ∷ []) ++ (birth ∷ []) ++ bought)
        (play for_sale))
unfolding play
run-Shuffle_example =
    run-Shuffle test ledger-IsLawful (taken_off ∷ cheaper ∷ []) (birth ∷ [])
      (made test taken_off ∷ birth ∷ made test cheaper ∷ []) bought (play for_sale)
      (play-IsSound for_sale).valid.counted ((refl, (refl, tt)), ((refl, (refl, tt)), tt))
      (left taken_off (right birth (left cheaper done)))
