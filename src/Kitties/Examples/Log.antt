-- ===== src/Kitties/Examples/Log.antt =====
-- The theorems about the events, the prices and many adoptions in the kitties pallet
-- (`pallets/kitties/src/lib.rs`) at concrete calls in the mock runtime.
use my_substrate_kitties.Base.{
  ◌+◌, ◌*◌, ◌≡◌, ◌<◌, ◌^◌, refl, some, List, [], ◌∷◌, arith, length, All,
}
use my_substrate_kitties.Frame.Currency.Ledger.{ledger, ledger-IsLawful}
use my_substrate_kitties.Kitties.Calls.{
  Request, create_request, adopt_request, breed_request, buy_request, set_price_request,
  clear_price_request, dispatch, run,
}
use my_substrate_kitties.Kitties.Types.{Block}
use my_substrate_kitties.Kitties.Transition.{Owns, count_of}
use my_substrate_kitties.Kitties.Replay.{Shows, replay, run-Shows}
use my_substrate_kitties.Kitties.Population.{births, numbers_upto, run-births}
use my_substrate_kitties.Kitties.Prices.{MayChangePrice, dispatch-MayChangePrice}
use my_substrate_kitties.Kitties.Adoption.{ReservesFree, adoptions, adopt_many}
use my_substrate_kitties.Kitties.Mock.{test, block, new_test_ext, play}
use my_substrate_kitties.Kitties.Examples.{couple, for_sale, play-IsSound}

abbrev trade : List (Block × test.Origin × Request)
trade =
    (block 1, some 1, create_request)
    ∷ (block 2, some 1, create_request)
    ∷ (block 3, some 1, adopt_request 1)
    ∷ (block 4, some 1, set_price_request 1 200_000)
    ∷ (block 5, some 3, breed_request 1 2)
    ∷ (block 6, some 2, buy_request 1)
    ∷ []

run-Shows_example : let t = run test trade new_test_ext in Shows test (replay t.events) t
run-Shows_example = run-Shows test ledger-IsLawful trade new_test_ext.balances

run-births_example :
    let t = run test trade new_test_ext in
    (births t.events ≡ numbers_upto (count_of t.kitties_count))
    × (length (births t.events) < 2 ^ 32)
run-births_example = run-births test ledger-IsLawful trade new_test_ext.balances

dispatch-MayChangePrice_example :
    MayChangePrice test
      (some 1)
      (clear_price_request 1)
      (play for_sale)
      (dispatch test (block 9) (some 1) (clear_price_request 1) (play for_sale)).1
      1
unfolding play
dispatch-MayChangePrice_example =
    dispatch-MayChangePrice test ledger-IsLawful (block 9) (some 1) (clear_price_request 1)
      (play for_sale) 1 (play-IsSound for_sale).valid (λ e. cc)

-- The ledger reserves what is free.
ledger-ReservesFree : ReservesFree ledger
ledger-ReservesFree a v b h = ground arith

adopt_many_example :
    let t = run test (adoptions test (block 9) (some 3) (2 ∷ 1 ∷ [])) (play couple) in
    All (Owns test t 3) (2 ∷ 1 ∷ [])
    × (test.currency.free_balance t.balances 3 + 2 * 10_000
        ≡ test.currency.free_balance (play couple).balances 3)
unfolding play
adopt_many_example =
    adopt_many test ledger-IsLawful ledger-ReservesFree (block 9) (some 3) 3 refl (2 ∷ 1 ∷ [])
      (play couple) ((λ e. omega arith, tt), (tt, tt)) ((refl, refl), ((refl, refl), tt))
      (omega arith)
