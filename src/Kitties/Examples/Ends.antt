-- ===== src/Kitties/Examples/Ends.antt =====
-- The theorems about how calls of the kitties pallet (`pallets/kitties/src/lib.rs`) end, and about what
-- they cost, at concrete calls in the mock runtime.
use my_substrate_kitties.Base.{
  ℕ, ◌*◌, ◌≡◌, ◌≤◌, ◌+◌, refl, Option, none, some, List, [], ◌∷◌, arith,
}
use my_substrate_kitties.Frame.Dispatch.{ok}
use my_substrate_kitties.Frame.Currency.Ledger.{ledger-IsLawful}
use my_substrate_kitties.Kitties.Transition.{Owns}
use my_substrate_kitties.Kitties.Deposits.{reserved}
use my_substrate_kitties.Kitties.Sale.{free}
use my_substrate_kitties.Kitties.Market.{set_price_then_buy}
use my_substrate_kitties.Kitties.Types.{Block, State, genesis}
use my_substrate_kitties.Kitties.Calls.{
  Request, create_request, adopt_request, set_price_request, buy_request, transfer_request,
  dispatch, run,
}
use my_substrate_kitties.Frame.Dispatch.Cost.{Spent}
use my_substrate_kitties.Kitties.Verdict.{verdict, dispatch-verdict}
use my_substrate_kitties.Kitties.Weights.{metered, map_writes, moves, weight}
use my_substrate_kitties.Kitties.Weights.Calls.{dispatch_costs}
use my_substrate_kitties.Kitties.Mock.{test, block, new_test_ext, play}
use my_substrate_kitties.Kitties.Examples.{for_sale, play-IsSound}

dispatch-verdict_example :
    (dispatch test (block 9) (some 2) (transfer_request 1 3) (play for_sale)).0
    ≡ verdict test (play for_sale) (some 2) (transfer_request 1 3)
dispatch-verdict_example =
    dispatch-verdict test (block 9) (some 2) (play for_sale) (transfer_request 1 3)

-- A kitty for sale, in storage that counts.
abbrev offered : State (metered test)
offered =
    run (metered test)
      ((block 1, some 1, create_request)
        ∷ (block 2, some 1, adopt_request 1)
        ∷ (block 3, some 1, set_price_request 1 200_000)
        ∷ [])
      (genesis (metered test) (0, new_test_ext.balances))

dispatch_costs_example :
    Spent
      (map_writes test)
      (moves test)
      2
      3
      2
      offered
      (dispatch (metered test) (block 9) (some 2) (buy_request 1) offered)
    × (weight (λ k. 100 * k) (buy_request 1) ≤ 10_000 + 100 * 2)
dispatch_costs_example =
    dispatch_costs test (λ k. 100 * k) (block 9) (some 2) (buy_request 1) offered
      (λ m n h. omega arith)

-- Account 1 asks a price, account 3 creates a kitty, and account 2 buys.
abbrev born_between : List (Block × Option ℕ × Request)
born_between = (block 10, some 3, create_request) ∷ []

abbrev before_sale : List (ℕ × Request)
before_sale = (1, create_request) ∷ (1, adopt_request 1) ∷ []

set_price_then_buy_example :
    let u =
      run test ((block 9, some 1, set_price_request 1 200_000) ∷ born_between) (play before_sale) in
    let (r, t) = dispatch test (block 11) (some 2) (buy_request 1) u in
    (r ≡ ok tt)
    × Owns test t 2 1
    × (test.storage.get t.kitties_price 1 ≡ none)
    × (free test t 2 + 200_000 + 10_000 ≡ free test u 2)
    × (free test t 1 ≡ free test u 1 + 200_000 + 10_000)
    × (reserved test t 2 ≡ reserved test u 2 + 10_000)
    × (reserved test t 1 + 10_000 ≡ reserved test u 1)
unfolding play
set_price_then_buy_example =
    set_price_then_buy test 1 1 200_000 ledger-IsLawful (block 9) (block 11) (some 1) (some 2) 2
      born_between (play before_sale) (play-IsSound before_sale) refl refl refl (refl, tt) refl
      (omega arith) refl refl
