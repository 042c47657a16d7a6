-- ===== src/Kitties/Progress.antt =====
-- When the calls of the kitties pallet (`pallets/kitties/src/lib.rs`) succeed.
use my_substrate_kitties.Base.{ℕ, ◌+◌, ◌<◌, ◌^◌, ◌≡◌, ◌≢◌, ◌↔◌, some, none, arith}
use my_substrate_kitties.Frame.Dispatch.{Result, ok}
use my_substrate_kitties.Frame.Currency.{IsLawful}
use my_substrate_kitties.Kitties.Types.{Kitty, Config, Block, State, Error, gender}
use my_substrate_kitties.Kitties.Helpers.{breed_dna, get_random_value}
use my_substrate_kitties.Kitties.Calls.{
  Request, create_request, transfer_request, breed_request, abandon_request, adopt_request,
  clear_price_request, buy_request, set_price_request, create, transfer, breed, abandon, adopt,
  set_price, clear_price, buy, dispatch,
}
use my_substrate_kitties.Kitties.Implements.{dispatch-Transition}
use my_substrate_kitties.Kitties.Implements.Birth.{create_kitty-cases}
use my_substrate_kitties.Kitties.Transition.{
  Transition, refused, payment_kept, created, bred, transfered, abandoned, adopted, priced,
  unpriced, sold, count_of, HasCountU32, Exists, Owns, CanPay, CanDeposit, paid,
}

module _ (C : Config) (s : State C) where
  abbrev IsReadyToBreed : ℕ → ℕ → Type 0
  IsReadyToBreed id1 id2 =
      (kitty1 : Kitty) × (C.storage.get s.kitties id1 ≡ some kitty1)
      × (kitty2 : Kitty) × (C.storage.get s.kitties id2 ≡ some kitty2)
      × (gender kitty1 ≢ gender kitty2)

  abbrev IsReadyToSell : ℕ → ℕ → Type 0
  IsReadyToSell buyer id =
      (seller : ℕ) × Owns C s seller id
      × (price : ℕ) × (C.storage.get s.kitties_price id ≡ some price)
      × CanPay C buyer seller price s.balances
      × CanDeposit C buyer (paid C buyer seller price s.balances)

  -- What a signer needs for a call.
  abbrev pub IsReady : ℕ → Request → Type 0
  IsReady who create_request = count_of s.kitties_count + 1 < 2 ^ 32
  IsReady who (transfer_request id new_owner) =
      Exists C s id × Owns C s who id × CanDeposit C new_owner s.balances
  IsReady who (breed_request id1 id2) =
      (count_of s.kitties_count + 1 < 2 ^ 32) × IsReadyToBreed id1 id2
  IsReady who (abandon_request id) = Exists C s id × Owns C s who id
  IsReady who (adopt_request id) =
      Exists C s id × (C.storage.get s.kitties_owner id ≡ none) × CanDeposit C who s.balances
  IsReady who (clear_price_request id) = Exists C s id × Owns C s who id
  IsReady who (buy_request id) = Exists C s id × IsReadyToSell who id
  IsReady who (set_price_request id price) = Exists C s id × Owns C s who id

module _ (C : Config) (block : Block) (origin : C.Origin) {s t : State C} where
  step-IsReady :
      {q : Request} (r : Result Error (Unit {0}))
      → Transition C block origin s t q r
      → r ≡ ok tt
      → (who : ℕ) × (C.ensure_signed origin ≡ some who) × IsReady C s who q
  step-IsReady r (refused e h) done = cc
  step-IsReady r (payment_kept id buyer seller price e o w p c f h) done = cc
  step-IsReady r (created who id kitty o n k h) done = (who, o, omega (arith, n.0, n.1))
  step-IsReady r (bred who id id1 id2 kitty k1 k2 o e1 e2 x n k h) done =
      (who, o, (omega (arith, n.0, n.1), (k1, e1, k2, e2, x)))
  step-IsReady r (transfered who id new_owner o x w c h) done = (who, o, (x, w, c))
  step-IsReady r (abandoned who id o x w h) done = (who, o, (x, w))
  step-IsReady r (adopted who id o x w c h) done = (who, o, (x, w, c))
  step-IsReady r (priced who id price o x w h) done = (who, o, (x, w))
  step-IsReady r (unpriced who id o x w h) done = (who, o, (x, w))
  step-IsReady r (sold id buyer seller price o x w p c f h) done =
      (buyer, o, (x, (seller, w, price, p, c, f)))

module _ (C : Config) (L : IsLawful C.currency) (block : Block) (origin : C.Origin) (s : State C)
    (fits : HasCountU32 C s) where
  breed_succeeds :
      (who id1 id2 : ℕ)
      → C.ensure_signed origin ≡ some who
      → IsReady C s who (breed_request id1 id2)
      → (breed C block origin id1 id2 s).0 ≡ ok tt
  unfolding breed
  breed_succeeds who id1 id2 o (room, (k1, e1, k2, e2, x)) = ground (
    arith,
    C.storage.contains_key_lem s.kitties id1,
    C.storage.contains_key_lem s.kitties id2,
    create_kitty-cases C block origin s fits
        (breed_dna 16 0 (get_random_value C block who) k1.dna k2.dna),
  )

  succeeds :
      (q : Request) (who : ℕ)
      → C.ensure_signed origin ≡ some who
      → IsReady C s who q
      → (dispatch C block origin q s).0 ≡ ok tt
  unfolding dispatch create transfer abandon adopt set_price clear_price buy
  succeeds create_request who o ready = ground arith
  succeeds (transfer_request id new_owner) who o ready = ground arith
  succeeds (breed_request id1 id2) who o ready = breed_succeeds who id1 id2 o ready
  succeeds (abandon_request id) who o ready = ground arith
  succeeds (adopt_request id) who o ready =
      ground (arith, C.storage.contains_key_lem s.kitties_owner id)
  succeeds (clear_price_request id) who o ready = ground arith
  succeeds (buy_request id) who o (x, (seller, w, price, p, c, f)) = ground arith
  succeeds (set_price_request id price) who o ready = ground arith

  -- Over a lawful currency and with a count that is a `u32`, a call succeeds exactly when it is
  -- signed and its signer is ready for it.
  pub dispatch_ok_iff :
      (q : Request)
      → ((dispatch C block origin q s).0 ≡ ok tt)
        ↔ ((who : ℕ) × (C.ensure_signed origin ≡ some who) × IsReady C s who q)
  dispatch_ok_iff q = (
    step-IsReady C block origin _ (dispatch-Transition C L block origin s fits q),
    λ (who, o, ready). succeeds q who o ready,
  )
