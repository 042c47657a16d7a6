-- ===== src/Kitties/Examples.antt =====
-- The theorems about the kitties pallet (`pallets/kitties/src/lib.rs`) at concrete calls in the mock
-- runtime (`pallets/kitties/src/mock.rs`).
mod Log
mod Ends
mod Dna
mod Audit
mod Trade
mod Own
use my_substrate_kitties.Base.{
  ℕ, ◌+◌, ◌*◌, ◌≡◌, ◌≢◌, ◌↔◌, refl, some, none, List, [], ◌∷◌, ◌++◌, arith, get_or, ◌⊎◌,
}
use Prim.Native.Nat.{bit_and, bit_or}
use my_substrate_kitties.Frame.Dispatch.{ok, err, panic, currency_error}
use my_substrate_kitties.Frame.Currency.Ledger.{ledger-IsLawful}
use my_substrate_kitties.Kitties.Types.{kitty_not_exists, Event}
use my_substrate_kitties.Kitties.Helpers.{breed_dna}
use my_substrate_kitties.Kitties.Calls.{
  Request, create_request, breed_request, abandon_request, adopt_request, buy_request,
  set_price_request, transfer, breed, abandon, adopt, buy, dispatch, run,
}
use my_substrate_kitties.Kitties.Transition.{Transition, Owns}
use my_substrate_kitties.Kitties.Implements.{dispatch-Transition}
use my_substrate_kitties.Kitties.Holdings.{holdings}
use my_substrate_kitties.Kitties.Deposits.{reserved}
use my_substrate_kitties.Kitties.History.{
  IsSound, genesis-IsSound, run-IsSound, run_deposits, run_keeps_kitty, dispatch-ne-panic,
}
use my_substrate_kitties.Kitties.LifeCycle.States.{LifePath, status}
use my_substrate_kitties.Kitties.LifeCycle.{run-LifePath}
use my_substrate_kitties.Kitties.Progress.{IsReady, dispatch_ok_iff}
use my_substrate_kitties.Kitties.Reasons.{Reason, dispatch-Reason}
use my_substrate_kitties.Kitties.Sale.{free, buy_lem, buy_keeps_payment, transfer_then_buy}
use my_substrate_kitties.Kitties.Authority.{MayChangeHands, dispatch-MayChangeHands}
use my_substrate_kitties.Kitties.Wealth.{MovesWealth, dispatch-MovesWealth}
use my_substrate_kitties.Kitties.Failure.{dispatch_failed, dispatch_events}
use my_substrate_kitties.Kitties.Custody.{abandon-adopt}
use my_substrate_kitties.Kitties.Breeding.{IsDna, get_or-breed_dna}
use my_substrate_kitties.Kitties.Dna.{IsAlike, breed_comm}
use my_substrate_kitties.Kitties.Mock.{test, block, new_test_ext, play, in_blocks}

abbrev pub couple : List (ℕ × Request)
couple = (1, create_request) ∷ (1, create_request) ∷ []

abbrev pub for_sale : List (ℕ × Request)
for_sale = (1, create_request) ∷ (1, adopt_request 1) ∷ (1, set_price_request 1 200_000) ∷ []

-- Account 2 can pay this price, but then no deposit.
abbrev too_dear : List (ℕ × Request)
too_dear =
    (1, create_request) ∷ (1, adopt_request 1) ∷ (1, set_price_request 1 9_999_999_995_000) ∷ []

pub play-IsSound : (calls : List (ℕ × Request)) → IsSound test (play calls)
unfolding play
play-IsSound calls =
    run-IsSound test ledger-IsLawful (in_blocks 1 calls) new_test_ext
      (genesis-IsSound test new_test_ext.balances)

dispatch-Transition_example :
    let (r, t) = dispatch test (block 9) (some 2) (buy_request 1) (play for_sale) in
    Transition test (block 9) (some 2) (play for_sale) t (buy_request 1) r
dispatch-Transition_example =
    dispatch-Transition test ledger-IsLawful (block 9) (some 2) (play for_sale)
      (play-IsSound for_sale).valid.counted (buy_request 1)

run_deposits_example :
    let t =
      run test
        ((block 1, some 1, create_request) ∷ (block 2, some 1, adopt_request 1) ∷ [])
        new_test_ext in
    test.currency.reserved_balance t.balances 1 ≡ 0 + 10_000 * holdings test t 1
run_deposits_example =
    run_deposits test ledger-IsLawful
      ((block 1, some 1, create_request) ∷ (block 2, some 1, adopt_request 1) ∷ [])
      new_test_ext.balances 1

run-IsSound_example :
    IsSound test (run test ((block 9, some 2, buy_request 1) ∷ []) (play for_sale))
run-IsSound_example =
    run-IsSound test ledger-IsLawful ((block 9, some 2, buy_request 1) ∷ []) (play for_sale)
      (play-IsSound for_sale)

run_keeps_kitty_example :
    let t = run test ((block 9, some 1, abandon_request 1) ∷ []) (play for_sale) in
    test.storage.get t.kitties 1 ≡ test.storage.get (play for_sale).kitties 1
unfolding play
run_keeps_kitty_example =
    run_keeps_kitty test ledger-IsLawful ((block 9, some 1, abandon_request 1) ∷ []) (play for_sale)
      1 _ (play-IsSound for_sale) refl

run-LifePath_example :
    LifePath test 1
      ((some 2, buy_request 1, ok tt) ∷ [])
      (status test (play for_sale) 1)
      (status test (run test ((block 9, some 2, buy_request 1) ∷ []) (play for_sale)) 1)
unfolding play dispatch buy
run-LifePath_example =
    run-LifePath test ledger-IsLawful ((block 9, some 2, buy_request 1) ∷ []) (play for_sale) 1
      (play-IsSound for_sale)

dispatch_ok_iff_example :
    ((dispatch test (block 9) (some 1) (breed_request 1 2) (play couple)).0 ≡ ok tt)
    ↔ ((who : ℕ) × (some 1 ≡ some who) × IsReady test (play couple) who (breed_request 1 2))
dispatch_ok_iff_example =
    dispatch_ok_iff test ledger-IsLawful (block 9) (some 1) (play couple)
      (play-IsSound couple).valid.counted (breed_request 1 2)

buy_lem_example :
    let (r, t) = buy test (some 2) 1 (play for_sale) in
    (r ≡ ok tt)
    × Owns test t 2 1
    × (test.storage.get t.kitties_price 1 ≡ none)
    × (free test t 2 + 200_000 + 10_000 ≡ free test (play for_sale) 2)
    × (free test t 1 ≡ free test (play for_sale) 1 + 200_000 + 10_000)
    × (reserved test t 2 ≡ reserved test (play for_sale) 2 + 10_000)
    × (reserved test t 1 + 10_000 ≡ reserved test (play for_sale) 1)
unfolding play
buy_lem_example =
    buy_lem test ledger-IsLawful (some 2) (play for_sale) 1 2 1 200_000 refl refl refl refl
      (omega arith) refl refl (omega arith)

buy_keeps_payment_example :
    let (r, t) = buy test (some 2) 1 (play too_dear) in
    (r ≡ err (currency_error 1))
    × Owns test t 1 1
    × (test.storage.get t.kitties_price 1 ≡ some 9_999_999_995_000)
    × (free test t 2 + 9_999_999_995_000 ≡ free test (play too_dear) 2)
    × (free test t 1 ≡ free test (play too_dear) 1 + 9_999_999_995_000)
unfolding play
buy_keeps_payment_example =
    buy_keeps_payment test ledger-IsLawful (some 2) (play too_dear) 1 2 1 9_999_999_995_000 refl
      refl refl refl (omega arith) refl refl

-- Account 1 gives the kitty that it offers to account 3, and account 2 buys it from there.
transfer_then_buy_example :
    let t = (transfer test (some 1) 1 3 (play for_sale)).1 in
    let (r, u) = buy test (some 2) 1 t in (r ≡ ok tt) × Owns test u 2 1
unfolding play
transfer_then_buy_example =
    transfer_then_buy test (some 1) (some 2) 1 3 2 200_000 (play for_sale) refl refl refl refl refl

dispatch-MayChangeHands_example :
    MayChangeHands test
      (some 1)
      (abandon_request 1)
      (play for_sale)
      (dispatch test (block 9) (some 1) (abandon_request 1) (play for_sale)).1
      1
unfolding play
dispatch-MayChangeHands_example =
    dispatch-MayChangeHands test ledger-IsLawful (block 9) (some 1) (abandon_request 1)
      (play for_sale) 1 (play-IsSound for_sale).valid (λ e. cc)

dispatch-MovesWealth_example :
    MovesWealth test
      (some 2)
      (buy_request 1)
      (play for_sale)
      (dispatch test (block 9) (some 2) (buy_request 1) (play for_sale)).1
dispatch-MovesWealth_example =
    dispatch-MovesWealth test ledger-IsLawful (block 9) (some 2) (buy_request 1) (play for_sale)
      (play-IsSound for_sale).valid

dispatch_failed_example :
    let t = (dispatch test (block 9) (some 2) (abandon_request 1) (play for_sale)).1 in
    (t ≡ record (play for_sale) { balances = t.balances })
    × ((t ≡ play for_sale) ⊎ ((id : ℕ) × (abandon_request 1 ≡ buy_request id)))
unfolding play
dispatch_failed_example =
    dispatch_failed test ledger-IsLawful (block 9) (some 2) (abandon_request 1) (play for_sale)
      (play-IsSound for_sale).valid.counted (λ e. cc)

abandon-adopt_example :
    let s = play couple in
    let (r, t) = abandon test (some 3) 2 (adopt test (some 3) 2 s).1 in
    (r ≡ ok tt)
    × ((j : ℕ) → test.storage.get t.kitties_owner j ≡ test.storage.get s.kitties_owner j)
    × ((j : ℕ) → test.storage.get t.kitties_price j ≡ test.storage.get s.kitties_price j)
    × ((a : ℕ) → test.currency.free_balance t.balances a ≡ test.currency.free_balance s.balances a)
    × ((a : ℕ)
        → test.currency.reserved_balance t.balances a ≡ test.currency.reserved_balance s.balances a)
unfolding play
abandon-adopt_example = abandon-adopt test ledger-IsLawful (some 3) 2 3 (play couple) refl refl refl
