-- ===== src/Kitties/Examples/Own.antt =====
-- The theorems about calls of the kitties pallet (`pallets/kitties/src/lib.rs`) that exchange the
-- parents or have one account on both sides, at concrete calls in the mock runtime.
use my_substrate_kitties.Base.{◌≡◌, ◌↔◌, refl, none, some}
use my_substrate_kitties.Frame.Dispatch.{ok}
use my_substrate_kitties.Frame.Currency.Ledger.{ledger-IsLawful}
use my_substrate_kitties.Kitties.Calls.{breed, transfer, buy}
use my_substrate_kitties.Kitties.Transition.{CanDeposit}
use my_substrate_kitties.Kitties.Dna.{IsAlike, breed_comm}
use my_substrate_kitties.Kitties.SelfDealing.{IsUnmoved, transfer_to_oneself, buy_from_oneself}
use my_substrate_kitties.Kitties.Mock.{test, block, play}
use my_substrate_kitties.Kitties.Examples.{couple, for_sale}

breed_comm_example :
    IsAlike test
      (breed test (block 9) (some 1) 1 2 (play couple))
      (breed test (block 9) (some 1) 2 1 (play couple))
breed_comm_example = breed_comm test (block 9) (some 1) 1 2 (play couple)

transfer_to_oneself_example :
    let (r, t) = transfer test (some 1) 1 1 (play for_sale) in
    ((r ≡ ok tt) ↔ CanDeposit test 1 (play for_sale).balances) × IsUnmoved test (play for_sale) t
unfolding play
transfer_to_oneself_example =
    transfer_to_oneself test ledger-IsLawful (some 1) (play for_sale) 1 1 refl refl refl

buy_from_oneself_example :
    let (r, t) = buy test (some 1) 1 (play for_sale) in
    (r ≡ ok tt) × (test.storage.get t.kitties_price 1 ≡ none) × IsUnmoved test (play for_sale) t
unfolding play
buy_from_oneself_example =
    buy_from_oneself test ledger-IsLawful (some 1) (play for_sale) 1 1 refl refl refl 200_000 refl
      refl refl
