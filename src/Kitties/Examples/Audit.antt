-- ===== src/Kitties/Examples/Audit.antt =====
-- The theorems about what the events of the kitties pallet (`pallets/kitties/src/lib.rs`) tell of the
-- balances, at a concrete history in the mock runtime.
use my_substrate_kitties.Base.{ℕ, ◌≢◌, ◌+◌, ◌*◌, ◌≡◌, refl, some, List, [], ◌∷◌}
use my_substrate_kitties.Frame.Currency.Ledger.{ledger-IsLawful}
use my_substrate_kitties.Kitties.Types.{Block}
use my_substrate_kitties.Kitties.Calls.{
  Request, create_request, adopt_request, set_price_request, buy_request, create, adopt, set_price,
  buy, dispatch, run,
}
use my_substrate_kitties.Kitties.Holdings.{holdings}
use my_substrate_kitties.Kitties.Sale.{free}
use my_substrate_kitties.Kitties.Wealth.{wealth}
use my_substrate_kitties.Kitties.Audit.Payments.{paid_by, paid_to, sales}
use my_substrate_kitties.Kitties.Audit.Histories.{lost, run_free}
use my_substrate_kitties.Kitties.Audit.Conservation.{total, run_conserves}
use my_substrate_kitties.Kitties.Transition.{count_of}
use my_substrate_kitties.Kitties.Colony.{countdown}
use my_substrate_kitties.Kitties.Deposits.{reserved}
use my_substrate_kitties.Kitties.Exit.{abandonments, abandon_all}
use my_substrate_kitties.Kitties.Mock.{test, block, new_test_ext}

-- Account 2 buys a kitty from account 1, and account 3 pays account 2 for it, but then cannot pay the
-- deposit.
abbrev trades : List (Block × test.Origin × Request)
trades =
    (block 1, some 1, create_request)
    ∷ (block 2, some 1, adopt_request 1)
    ∷ (block 3, some 1, set_price_request 1 200_000)
    ∷ (block 4, some 2, buy_request 1)
    ∷ (block 5, some 2, set_price_request 1 9_999_999_995_000)
    ∷ (block 6, some 3, buy_request 1)
    ∷ []

-- The failed purchase moved the price.
paid_for_nothing : paid_by 3 (lost test trades new_test_ext) ≡ 9_999_999_995_000
unfolding lost paid_by dispatch create adopt set_price buy
paid_for_nothing = refl

run_free_example :
    let t = run test trades new_test_ext in
    let quiet = lost test trades new_test_ext in
    free test t 2 + 10_000 * holdings test t 2 + paid_by 2 (sales t.events) + paid_by 2 quiet
    ≡ test.currency.free_balance new_test_ext.balances 2
      + paid_to 2 (sales t.events)
      + paid_to 2 quiet
run_free_example = run_free test ledger-IsLawful trades new_test_ext.balances 2

run_conserves_example :
    total (wealth test (run test trades new_test_ext)) (1 ∷ 2 ∷ 3 ∷ [])
    ≡ total (wealth test new_test_ext) (1 ∷ 2 ∷ 3 ∷ [])
unfolding run sales lost dispatch create adopt set_price buy
run_conserves_example =
    run_conserves test ledger-IsLawful trades new_test_ext.balances (1 ∷ 2 ∷ 3 ∷ [])
      ((refl, refl), tt) ((refl, refl), tt)

-- Account 2 leaves.
abandon_all_example :
    let t = run test trades new_test_ext in
    let u =
      run test (abandonments test (block 9) (some 2) (countdown (count_of t.kitties_count))) t in
    ((j : ℕ) → test.storage.get u.kitties_owner j ≢ some 2)
    × (reserved test u 2 ≡ 0)
    × (free test u 2 ≡ free test t 2 + 10_000 * holdings test t 2)
abandon_all_example =
    abandon_all test ledger-IsLawful (block 9) (some 2) 2 refl trades new_test_ext.balances
