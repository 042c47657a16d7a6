-- ===== src/Kitties/Implements/Sale.antt =====
-- `buy` of the kitties pallet (`pallets/kitties/src/lib.rs`) makes steps of `Transition`.
use my_substrate_kitties.Base.{ℕ, ◌≡◌, ◌⊎◌, inl, inr, some, none, arith, Option-cases, Bool-cases}
use my_substrate_kitties.Frame.Dispatch.{ok, err, currency_error}
use my_substrate_kitties.Frame.Currency.{Outcome-cases, keep_alive, IsLawful}
use my_substrate_kitties.Kitties.Types.{Config, Block, State}
use my_substrate_kitties.Kitties.Calls.{buy, buy_request}
use my_substrate_kitties.Kitties.Transition.{Transition, payment_kept, sold, Owns, paid}
use my_substrate_kitties.Kitties.Implements.Rules.{atomic, resulting}

module _ (C : Config) (L : IsLawful C.currency) (block : Block) (origin : C.Origin)
    (s : State C) where
  -- Without a signature, an owner or a price, nothing happens.
  buy_refused :
      (id : ℕ)
      → ((C.ensure_signed origin ≡ none)
          ⊎ ((C.storage.get s.kitties_owner id ≡ none) ⊎ (C.storage.get s.kitties_price id ≡ none)))
      → let (r, t) = buy C origin id s in Transition C block origin s t (buy_request id) r
  unfolding buy
  buy_refused id missing =
      atomic C block origin s _ _ _ (λ h. ground arith) (λ h. ground arith) (λ h. ground arith)

  buy_known :
      (id buyer seller price : ℕ)
      → C.ensure_signed origin ≡ some buyer
      → Owns C s seller id
      → C.storage.get s.kitties_price id ≡ some price
      → let (r, t) = buy C origin id s in Transition C block origin s t (buy_request id) r
  unfolding buy
  buy_known id buyer seller price e owned wanted =
      elim (Bool-cases (C.storage.contains_key s.kitties id)) [
        | inl exists ↦
            elim (Outcome-cases (C.currency.transfer buyer seller price keep_alive s.balances).0) [
              | inl pays ↦
                  elim (Outcome-cases
                    (C.currency.reserve buyer C.holding_deposit_for_one_kitty
                      (paid C buyer seller price s.balances)).0) [
                        | inl deposits ↦ resulting C block origin s _ (ok tt) (ground arith) (
                            sold id buyer seller price e exists owned wanted pays deposits
                              (ground arith))
                        | inr (code, short) ↦
                            resulting C block origin s _ (err (currency_error code)) (ground arith)
                              (payment_kept id buyer seller price code e owned wanted pays short (
                                ground (
                                  arith,
                                  L.reserve_failed buyer C.holding_deposit_for_one_kitty
                                      (paid C buyer seller price s.balances) code,
                                )))
                      ]
              | inr (code, poor) ↦
                  atomic C block origin s _ _ _ (λ h. ground arith)
                    (λ h. grind (arith, L.transfer_failed)) (λ h. ground arith)
            ]
        | inr unknown ↦
            atomic C block origin s _ _ _ (λ h. ground arith) (λ h. ground arith)
              (λ h. ground arith)
      ]

  pub buy-Transition :
      (id : ℕ) → let (r, t) = buy C origin id s in Transition C block origin s t (buy_request id) r
  buy-Transition id = elim (Option-cases (C.ensure_signed origin)) [
    | inl e ↦ buy_refused id (inl e)
    | inr (buyer, e) ↦ elim (Option-cases (C.storage.get s.kitties_owner id)) [
      | inl ownerless ↦ buy_refused id (inr (inl ownerless))
      | inr (seller, owned) ↦ elim (Option-cases (C.storage.get s.kitties_price id)) [
        | inl not_wanted ↦ buy_refused id (inr (inr not_wanted))
        | inr (price, wanted) ↦ buy_known id buyer seller price e owned wanted
      ]
    ]
  ]
