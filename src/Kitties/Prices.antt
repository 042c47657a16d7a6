-- ===== src/Kitties/Prices.antt =====
-- Who may change the price of a kitty of the pallet (`pallets/kitties/src/lib.rs`).
use my_substrate_kitties.Base.{ℕ, ◌≡◌, ◌≢◌, some, none, inl, inr, arith, ◌==◌, Bool-cases}
use my_substrate_kitties.Frame.Dispatch.{Result}
use my_substrate_kitties.Frame.Currency.{IsLawful}
use my_substrate_kitties.Kitties.Types.{Config, Block, State, Error}
use my_substrate_kitties.Kitties.Calls.{
  Request, buy_request, abandon_request, set_price_request, clear_price_request, dispatch,
}
use my_substrate_kitties.Kitties.Implements.{dispatch-Transition}
use my_substrate_kitties.Kitties.Invariant.{IsValid}
use my_substrate_kitties.Kitties.Wealth.{Pays, wealth_sold}
use my_substrate_kitties.Kitties.Transition.{
  Transition, refused, payment_kept, created, bred, transfered, abandoned, adopted, priced,
  unpriced, sold, Owns,
}

-- The reasons for which the price of a kitty may change in a call: its owner sets it, clears it or
-- abandons the kitty, or a buyer pays it to its owner.
pub data MayChangePrice (C : Config) (origin : C.Origin) (q : Request) (s t : State C) (id : ℕ)
    : Type 0 where
  put_up :
      (who price : ℕ)
      → C.ensure_signed origin ≡ some who
      → Owns C s who id
      → q ≡ set_price_request id price
      → C.storage.get t.kitties_price id ≡ some price
      → MayChangePrice C origin q s t id
  taken_down :
      (who : ℕ)
      → C.ensure_signed origin ≡ some who
      → Owns C s who id
      → q ≡ clear_price_request id
      → C.storage.get t.kitties_price id ≡ none
      → MayChangePrice C origin q s t id
  let_go :
      (who : ℕ)
      → C.ensure_signed origin ≡ some who
      → Owns C s who id
      → q ≡ abandon_request id
      → C.storage.get t.kitties_price id ≡ none
      → MayChangePrice C origin q s t id
  settled :
      (buyer seller price : ℕ)
      → C.ensure_signed origin ≡ some buyer
      → Owns C s seller id
      → C.storage.get s.kitties_price id ≡ some price
      → q ≡ buy_request id
      → Pays C s t buyer seller price
      → C.storage.get t.kitties_price id ≡ none
      → MayChangePrice C origin q s t id

module _ (C : Config) (L : IsLawful C.currency) {block : Block} {origin : C.Origin} {s t : State C}
    (id : ℕ) where
  price_step :
      {q : Request} {r : Result Error (Unit {0})}
      → Transition C block origin s t q r
      → C.storage.get t.kitties_price id ≢ C.storage.get s.kitties_price id
      → MayChangePrice C origin q s t id
  price_step (refused e h) moved = absurd (moved (rw h))
  price_step (payment_kept i buyer seller price e o w p c f h) moved = absurd (moved (rw h))
  price_step (created who i kitty o n k h) moved = absurd (moved (rw h))
  price_step (bred who i id1 id2 kitty k1 k2 o e1 e2 x n k h) moved = absurd (moved (rw h))
  price_step (transfered who i new_owner o x w c h) moved = absurd (moved (rw h))
  price_step (adopted who i o x w c h) moved = absurd (moved (rw h))
  price_step (priced who i price o x w h) moved = elim (Bool-cases (id == i)) [
    | inl same ↦
        put_up who price o (ground arith) (ground arith)
          (ground (arith, C.storage.get-insert s.kitties_price i price id))
    | inr other ↦ absurd (moved (ground (arith, C.storage.get-insert s.kitties_price i price id)))
  ]
  price_step (unpriced who i o x w h) moved = elim (Bool-cases (id == i)) [
    | inl same ↦
        taken_down who o (ground arith) (ground arith)
          (ground (arith, C.storage.get-remove s.kitties_price i id))
    | inr other ↦ absurd (moved (ground (arith, C.storage.get-remove s.kitties_price i id)))
  ]
  price_step (abandoned who i o x w h) moved = elim (Bool-cases (id == i)) [
    | inl same ↦
        let_go who o (ground arith) (ground arith)
          (ground (arith, C.storage.get-remove s.kitties_price i id))
    | inr other ↦ absurd (moved (ground (arith, C.storage.get-remove s.kitties_price i id)))
  ]
  price_step (sold i buyer seller price o x w p c f h) moved = elim (Bool-cases (id == i)) [
    | inl same ↦
        settled buyer seller price o (ground arith) (ground arith) (ground arith)
          (λ a. rw h (wealth_sold C L buyer seller price s.balances a c f))
          (ground (arith, C.storage.get-remove s.kitties_price i id))
    | inr other ↦ absurd (moved (ground (arith, C.storage.get-remove s.kitties_price i id)))
  ]

module _ (C : Config) (L : IsLawful C.currency) where
  -- Over a lawful currency and in a well-formed storage: if a call changes the price of a kitty,
  -- whether it succeeds or not, then for one of the four reasons of `MayChangePrice`: its owner has
  -- signed that it be set, cleared or abandoned, and it is so; or the signer has bought the kitty,
  -- exactly the price that was asked has moved from the signer to its former owner, and there is
  -- no price any more.
  pub dispatch-MayChangePrice :
      (block : Block) (origin : C.Origin) (q : Request) (s : State C) (id : ℕ)
      → IsValid C s
      → C.storage.get (dispatch C block origin q s).1.kitties_price id
        ≢ C.storage.get s.kitties_price id
      → MayChangePrice C origin q s (dispatch C block origin q s).1 id
  dispatch-MayChangePrice block origin q s id v moved =
      price_step C L id (dispatch-Transition C L block origin s v.counted q) moved
