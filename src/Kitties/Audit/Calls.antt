-- ===== src/Kitties/Audit/Calls.antt =====
-- The payments that a call of the kitties pallet (`pallets/kitties/src/lib.rs`) makes, and what its
-- events tell of them.
use my_substrate_kitties.Base.{
  ℕ, ◌≡◌, ◌≢◌, refl, ◌⊎◌, none, some, [], ◌∷◌, arith, inl, inr, Option-cases, Bool-cases,
}
use my_substrate_kitties.Frame.Dispatch.{Result, currency_error}
use my_substrate_kitties.Frame.Currency.{Outcome-cases, keep_alive, IsLawful}
use my_substrate_kitties.Kitties.Types.{Config, Block, State, Error}
use my_substrate_kitties.Kitties.Calls.{
  Request, create_request, transfer_request, breed_request, abandon_request, adopt_request,
  clear_price_request, buy_request, set_price_request, buy, dispatch,
}
use my_substrate_kitties.Kitties.Transition.{
  Transition, refused, payment_kept, created, bred, transfered, abandoned, adopted, priced,
  unpriced, sold, Owns, paid, deposited,
}
use my_substrate_kitties.Kitties.Implements.{dispatch-Transition}
use my_substrate_kitties.Kitties.Invariant.{IsValid}
use my_substrate_kitties.Kitties.Wealth.{wealth_released, wealth_deposited, dispatch-keeps-wealth}
use my_substrate_kitties.Kitties.Audit.Rules.{
  payments, IsAudited, told_nothing, told_sale, silent_event, idle, settled,
}
use my_substrate_kitties.Kitties.Audit.Payments.{Payment, sales}

module _ (C : Config) (L : IsLawful C.currency) (origin : C.Origin) (s : State C) where
  buy_refused :
      (id : ℕ)
      → ((C.ensure_signed origin ≡ none)
          ⊎ ((C.storage.get s.kitties_owner id ≡ none) ⊎ (C.storage.get s.kitties_price id ≡ none)))
      → let (r, t) = buy C origin id s in IsAudited C (payments C s origin (buy_request id)) r s t
  unfolding buy
  buy_refused id missing = idle C L s _ _ _ (ground arith) (λ a. ground arith) (ground arith)

  buy_known :
      (id buyer seller price : ℕ)
      → C.ensure_signed origin ≡ some buyer
      → Owns C s seller id
      → C.storage.get s.kitties_price id ≡ some price
      → let (r, t) = buy C origin id s in IsAudited C (payments C s origin (buy_request id)) r s t
  unfolding buy
  buy_known id buyer seller price o w p = elim (Bool-cases (C.storage.contains_key s.kitties id)) [
    | inr unknown ↦ idle C L s _ _ _ (ground arith) (λ a. ground arith) (ground arith)
    | inl exists ↦
        let (r, t) = buy C origin id s in
        let payment : Payment = record { payer = buyer; payee = seller; amount = price } in
        let after = paid C buyer seller price s.balances in
        let d = C.holding_deposit_for_one_kitty in
        elim (Outcome-cases (C.currency.transfer buyer seller price keep_alive s.balances).0) [
          | inr (code, poor) ↦
              let same = L.transfer_failed buyer seller price keep_alive s.balances code poor in
              idle C L s _ _ _ (ground arith) (λ a. ground (arith, same)) (ground arith)
          | inl pays ↦
              let made : payments C s origin (buy_request id) ≡ payment ∷ [] = ground arith in
              rw made (elim (Outcome-cases (C.currency.reserve buyer d after).0) [
                | inr (code, short) ↦
                    let same = L.reserve_failed buyer d after code short in
                    settled C L s _ buyer seller price r pays (λ a. ground (arith, same))
                      (told_nothing C L s t _ r (currency_error code) (ground arith) (ground arith))
                | inl deposits ↦
                    settled C L s _ buyer seller price r pays
                      (λ a. ground (
                        arith,
                        wealth_released C L seller (deposited C buyer after) a,
                        wealth_deposited C L buyer after a deposits,
                      ))
                      (told_sale C L s t id buyer seller price r (ground arith) (ground arith))
              ])
        ]
  ]

  buy-IsAudited :
      (id : ℕ)
      → let (r, t) = buy C origin id s in IsAudited C (payments C s origin (buy_request id)) r s t
  buy-IsAudited id = elim (Option-cases (C.ensure_signed origin)) [
    | inl unsigned ↦ buy_refused id (inl unsigned)
    | inr (buyer, o) ↦ elim (Option-cases (C.storage.get s.kitties_owner id)) [
      | inl ownerless ↦ buy_refused id (inr (inl ownerless))
      | inr (seller, w) ↦ elim (Option-cases (C.storage.get s.kitties_price id)) [
        | inl not_wanted ↦ buy_refused id (inr (inr not_wanted))
        | inr (price, p) ↦ buy_known id buyer seller price o w p
      ]
    ]
  ]

module _ (C : Config) (L : IsLawful C.currency) (block : Block) (origin : C.Origin) (s : State C)
    (v : IsValid C s) where
  -- A call other than `buy` announces no purchase.
  step_sales :
      {t : State C} {q : Request} {r : Result Error (Unit {0})}
      → Transition C block origin s t q r
      → ((id : ℕ) → q ≢ buy_request id)
      → sales t.events ≡ sales s.events
  unfolding sales
  step_sales (refused e h) other = rw h refl
  step_sales (payment_kept id buyer seller price e o w p c f h) other = absurd (other id refl)
  step_sales (created who id kitty o n k h) other = rw h (silent_event C L s s _ refl)
  step_sales (bred who id id1 id2 kitty k1 k2 o e1 e2 x n k h) other =
      rw h (silent_event C L s s _ refl)
  step_sales (transfered who id new_owner o x w c h) other = rw h (silent_event C L s s _ refl)
  step_sales (abandoned who id o x w h) other = rw h (silent_event C L s s _ refl)
  step_sales (adopted who id o x w c h) other = rw h (silent_event C L s s _ refl)
  step_sales (priced who id price o x w h) other = rw h (silent_event C L s s _ refl)
  step_sales (unpriced who id o x w h) other = rw h (silent_event C L s s _ refl)
  step_sales (sold id buyer seller price o x w p c f h) other = absurd (other id refl)

  other-IsAudited :
      (q : Request)
      → ((id : ℕ) → q ≢ buy_request id)
      → let (r, t) = dispatch C block origin q s in IsAudited C [] r s t
  other-IsAudited q other =
      idle C L s _ [] _ refl (λ a. dispatch-keeps-wealth C L block origin q s a v other)
        (step_sales (dispatch-Transition C L block origin s v.counted q) other)

  pub dispatch-IsAudited :
      (q : Request)
      → let (r, t) = dispatch C block origin q s in IsAudited C (payments C s origin q) r s t
  unfolding dispatch
  dispatch-IsAudited (buy_request id) = buy-IsAudited C L origin s id
  dispatch-IsAudited create_request = other-IsAudited create_request (λ id e. cc)
  dispatch-IsAudited (transfer_request id to) = other-IsAudited (transfer_request id to) (λ i e. cc)
  dispatch-IsAudited (breed_request a b) = other-IsAudited (breed_request a b) (λ id e. cc)
  dispatch-IsAudited (abandon_request id) = other-IsAudited (abandon_request id) (λ i e. cc)
  dispatch-IsAudited (adopt_request id) = other-IsAudited (adopt_request id) (λ i e. cc)
  dispatch-IsAudited (clear_price_request id) = other-IsAudited (clear_price_request id) (λ i e. cc)
  dispatch-IsAudited (set_price_request id p) = other-IsAudited (set_price_request id p) (λ i e. cc)
