-- ===== src/Kitties/Implements/Custody.antt =====
-- `transfer`, `abandon`, `adopt`, `set_price` and `clear_price` of the kitties pallet
-- (`pallets/kitties/src/lib.rs`) make steps of `Transition`.
use my_substrate_kitties.Base.{ℕ, inl, inr, arith, Option-cases}
use my_substrate_kitties.Frame.Currency.{IsLawful}
use my_substrate_kitties.Kitties.Types.{Config, Block, State}
use my_substrate_kitties.Kitties.Calls.{
  transfer, abandon, adopt, set_price, clear_price, transfer_request, abandon_request,
  adopt_request, clear_price_request, set_price_request,
}
use my_substrate_kitties.Kitties.Transition.{
  Transition, transfered, abandoned, adopted, priced, unpriced,
}
use my_substrate_kitties.Kitties.Implements.Rules.{atomic}

module _ (C : Config) (L : IsLawful C.currency) (block : Block) (origin : C.Origin)
    (s : State C) where
  pub transfer-Transition :
      (id new_owner : ℕ)
      → let (r, t) = transfer C origin id new_owner s in
        Transition C block origin s t (transfer_request id new_owner) r
  unfolding transfer
  transfer-Transition id new_owner = elim (Option-cases (C.ensure_signed origin)) [
    | inl e ↦
        atomic C block origin s _ _ _ (λ h. ground arith) (λ h. ground arith) (λ h. ground arith)
    | inr (who, e) ↦
        atomic C block origin s _ _ _
          (λ h.
            transfered who id new_owner e (ground arith) (ground arith) (ground arith)
              (ground arith))
          (λ h. grind (arith, L.reserve_failed)) (λ h. ground arith)
  ]

  pub abandon-Transition :
      (id : ℕ)
      → let (r, t) = abandon C origin id s in Transition C block origin s t (abandon_request id) r
  unfolding abandon
  abandon-Transition id = elim (Option-cases (C.ensure_signed origin)) [
    | inl e ↦
        atomic C block origin s _ _ _ (λ h. ground arith) (λ h. ground arith) (λ h. ground arith)
    | inr (who, e) ↦
        atomic C block origin s _ _ _
          (λ h. abandoned who id e (ground arith) (ground arith) (ground arith)) (λ h. ground arith)
          (λ h. ground arith)
  ]

  pub adopt-Transition :
      (id : ℕ)
      → let (r, t) = adopt C origin id s in Transition C block origin s t (adopt_request id) r
  unfolding adopt
  adopt-Transition id = elim (Option-cases (C.ensure_signed origin)) [
    | inl e ↦
        atomic C block origin s _ _ _ (λ h. ground arith) (λ h. ground arith) (λ h. ground arith)
    | inr (who, e) ↦
        atomic C block origin s _ _ _
          (λ h.
            adopted who id e (ground arith)
              (ground (arith, C.storage.contains_key_lem s.kitties_owner id)) (ground arith)
              (ground arith))
          (λ h. grind (arith, L.reserve_failed)) (λ h. ground arith)
  ]

  pub set_price-Transition :
      (id price : ℕ)
      → let (r, t) = set_price C origin id price s in
        Transition C block origin s t (set_price_request id price) r
  unfolding set_price
  set_price-Transition id price = elim (Option-cases (C.ensure_signed origin)) [
    | inl e ↦
        atomic C block origin s _ _ _ (λ h. ground arith) (λ h. ground arith) (λ h. ground arith)
    | inr (who, e) ↦
        atomic C block origin s _ _ _
          (λ h. priced who id price e (ground arith) (ground arith) (ground arith))
          (λ h. ground arith) (λ h. ground arith)
  ]

  pub clear_price-Transition :
      (id : ℕ)
      → let (r, t) = clear_price C origin id s in
        Transition C block origin s t (clear_price_request id) r
  unfolding clear_price
  clear_price-Transition id = elim (Option-cases (C.ensure_signed origin)) [
    | inl e ↦
        atomic C block origin s _ _ _ (λ h. ground arith) (λ h. ground arith) (λ h. ground arith)
    | inr (who, e) ↦
        atomic C block origin s _ _ _
          (λ h. unpriced who id e (ground arith) (ground arith) (ground arith)) (λ h. ground arith)
          (λ h. ground arith)
  ]
