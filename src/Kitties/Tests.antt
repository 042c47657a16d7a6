-- ===== src/Kitties/Tests.antt =====
-- The unit tests of the kitties pallet (`pallets/kitties/src/tests.rs`) as evaluations over the mock
-- runtime: each history runs the calls of one test, and the equations are its assertions.
use my_substrate_kitties.Base.{ℕ, ◌+◌, some, none, refl, ◌≡◌, List, [], ◌∷◌}
use my_substrate_kitties.Frame.Dispatch.{Result, ok, err, module_error, bad_origin}
use my_substrate_kitties.Kitties.Types.{
  Error, kitty_not_exists, can_not_adopt_kitty_with_an_owner, not_owner_of_kitty,
  can_not_breed_with_same_gender, no_need_to_buy_kitty_without_an_owner, kitty_not_for_sell,
  kitty_created, kitty_born,
}
use my_substrate_kitties.Kitties.Calls.{
  Request, create_request, transfer_request, breed_request, abandon_request, adopt_request,
  clear_price_request, buy_request, set_price_request, create, dispatch,
}
use my_substrate_kitties.Kitties.Mock.{test, block, default_balance, new_test_ext, play}

-- A call after a history.
after : List (ℕ × Request) → ℕ → Request → Result Error (Unit {0})
unfolding play
after calls who q = (dispatch test (block 100) (some who) q (play calls)).0

free_after : List (ℕ × Request) → ℕ → ℕ
unfolding play
free_after calls a = test.currency.free_balance (play calls).balances a

create_works :
    ((play ((1, create_request) ∷ [])).kitties_count ≡ some 1)
    × ((play ((1, create_request) ∷ [])).events ≡ kitty_created 1 ∷ [])
unfolding play
create_works = (refl, refl)

abbrev adopted_one : List (ℕ × Request)
adopted_one = (1, create_request) ∷ (1, adopt_request 1) ∷ []

adopt_works :
    (free_after adopted_one 1 + 10_000 ≡ default_balance)
    × (after adopted_one 1 (adopt_request 2) ≡ err (module_error kitty_not_exists))
    × (after adopted_one 2 (adopt_request 1) ≡ err (module_error can_not_adopt_kitty_with_an_owner))
unfolding after free_after
adopt_works = (refl, refl, refl)

abandon_works :
    let abandoned_one : List (ℕ × Request) =
      (1, create_request) ∷ (1, adopt_request 1) ∷ (1, abandon_request 1) ∷ [] in
    (after adopted_one 1 (abandon_request 2) ≡ err (module_error kitty_not_exists))
    × (after adopted_one 2 (abandon_request 1) ≡ err (module_error not_owner_of_kitty))
    × (free_after abandoned_one 1 ≡ default_balance)
    × (after abandoned_one 2 (adopt_request 1) ≡ ok tt)
unfolding after free_after
abandon_works = (refl, refl, refl, refl)

transfer_works :
    let given : List (ℕ × Request) =
      (1, create_request) ∷ (1, adopt_request 1) ∷ (1, transfer_request 1 2) ∷ [] in
    (after adopted_one 1 (transfer_request 2 2) ≡ err (module_error kitty_not_exists))
    × (after adopted_one 2 (transfer_request 1 3) ≡ err (module_error not_owner_of_kitty))
    × (test.storage.get (play given).kitties_owner 1 ≡ some 2)
    × (free_after given 1 ≡ default_balance)
    × (free_after given 2 + 10_000 ≡ default_balance)
unfolding after free_after
transfer_works = (refl, refl, refl, refl, refl)

-- The seed of block 1 makes a female, that of block 2 a male.
abbrev couple : List (ℕ × Request)
couple = (1, create_request) ∷ (1, create_request) ∷ []

breed_works :
    let family : List (ℕ × Request) =
      (1, create_request) ∷ (1, create_request) ∷ (1, breed_request 1 2) ∷ [] in
    (after couple 1 (breed_request 1 1) ≡ err (module_error can_not_breed_with_same_gender))
    × ((play family).events ≡ kitty_created 1 ∷ kitty_created 2 ∷ kitty_born 3 1 2 ∷ [])
    × (test.storage.get (play family).kitties_owner 3 ≡ none)
unfolding after
breed_works = (refl, refl, refl)

set_and_clear_price_works :
    let priced : List (ℕ × Request) =
      (1, create_request) ∷ (1, adopt_request 1) ∷ (1, set_price_request 1 200) ∷ [] in
    let cleared : List (ℕ × Request) =
      (1, create_request)
      ∷ (1, adopt_request 1)
      ∷ (1, set_price_request 1 200)
      ∷ (1, clear_price_request 1)
      ∷ [] in
    (after adopted_one 1 (set_price_request 2 200) ≡ err (module_error kitty_not_exists))
    × (after adopted_one 2 (set_price_request 1 200) ≡ err (module_error not_owner_of_kitty))
    × (test.storage.get (play priced).kitties_price 1 ≡ some 200)
    × (after priced 2 (clear_price_request 1) ≡ err (module_error not_owner_of_kitty))
    × (test.storage.get (play cleared).kitties_price 1 ≡ none)
unfolding after
set_and_clear_price_works = (refl, refl, refl, refl, refl)

abbrev for_sale : List (ℕ × Request)
for_sale =
    (1, create_request)
    ∷ (1, create_request)
    ∷ (1, adopt_request 1)
    ∷ (1, set_price_request 1 200_000)
    ∷ []

abbrev bought : List (ℕ × Request)
bought =
    (1, create_request)
    ∷ (1, create_request)
    ∷ (1, adopt_request 1)
    ∷ (1, set_price_request 1 200_000)
    ∷ (2, buy_request 1)
    ∷ []

buy_works :
    (after for_sale 1 (buy_request 3) ≡ err (module_error kitty_not_exists))
    × (after for_sale 1 (buy_request 2) ≡ err (module_error no_need_to_buy_kitty_without_an_owner))
    × (after adopted_one 1 (buy_request 1) ≡ err (module_error kitty_not_for_sell))
    × (test.storage.get (play bought).kitties_owner 1 ≡ some 2)
    × (test.storage.get (play bought).kitties_price 1 ≡ none)
    × (free_after bought 1 ≡ free_after for_sale 1 + 210_000)
    × (free_after bought 2 + 210_000 ≡ free_after for_sale 2)
unfolding after free_after
buy_works = (refl, refl, refl, refl, refl, refl, refl)

-- A call that is not signed is refused.
unsigned_fails : (dispatch test (block 1) none create_request new_test_ext).0 ≡ err bad_origin
unfolding dispatch create
unsigned_fails = refl
