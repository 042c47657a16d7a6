-- ===== src/Kitties/Authority.antt =====
-- Who may do what to a kitty of the pallet (`pallets/kitties/src/lib.rs`).
use my_substrate_kitties.Base.{ℕ, ◌≡◌, ◌≢◌, some, none, inl, inr, arith, ◌==◌, Bool-cases}
use my_substrate_kitties.Frame.Dispatch.{Result}
use my_substrate_kitties.Frame.Currency.{IsLawful}
use my_substrate_kitties.Kitties.Types.{Config, Block, State, Error}
use my_substrate_kitties.Kitties.Calls.{
  Request, buy_request, transfer_request, abandon_request, adopt_request, dispatch,
}
use my_substrate_kitties.Kitties.Implements.{dispatch-Transition}
use my_substrate_kitties.Kitties.Invariant.{IsValid}
use my_substrate_kitties.Kitties.Wealth.{Pays, wealth_sold}
use my_substrate_kitties.Kitties.Transition.{
  Transition, refused, payment_kept, created, bred, transfered, abandoned, adopted, priced,
  unpriced, sold, Owns,
}

-- The reasons for which a kitty may change hands in a call: its owner gives it away or abandons it, a
-- signer adopts a kitty that has no owner, or a buyer pays the price
-- that its owner has set, which moves from the buyer to the owner.
pub data MayChangeHands (C : Config) (origin : C.Origin) (q : Request) (s t : State C) (id : ℕ)
    : Type 0 where
  given :
      (who new_owner : ℕ)
      → C.ensure_signed origin ≡ some who
      → Owns C s who id
      → q ≡ transfer_request id new_owner
      → Owns C t new_owner id
      → MayChangeHands C origin q s t id
  let_go :
      (who : ℕ)
      → C.ensure_signed origin ≡ some who
      → Owns C s who id
      → q ≡ abandon_request id
      → C.storage.get t.kitties_owner id ≡ none
      → MayChangeHands C origin q s t id
  taken_in :
      (who : ℕ)
      → C.ensure_signed origin ≡ some who
      → C.storage.get s.kitties_owner id ≡ none
      → q ≡ adopt_request id
      → Owns C t who id
      → MayChangeHands C origin q s t id
  bought :
      (buyer seller price : ℕ)
      → C.ensure_signed origin ≡ some buyer
      → Owns C s seller id
      → C.storage.get s.kitties_price id ≡ some price
      → q ≡ buy_request id
      → Pays C s t buyer seller price
      → Owns C t buyer id
      → MayChangeHands C origin q s t id

module _ (C : Config) (L : IsLawful C.currency) {block : Block} {origin : C.Origin} {s t : State C}
    (id : ℕ) where
  hands_step :
      {q : Request} {r : Result Error (Unit {0})}
      → Transition C block origin s t q r
      → C.storage.get t.kitties_owner id ≢ C.storage.get s.kitties_owner id
      → MayChangeHands C origin q s t id
  hands_step (refused e h) moved = absurd (moved (rw h))
  hands_step (payment_kept i buyer seller price e o w p c f h) moved = absurd (moved (rw h))
  hands_step (created who i kitty o n k h) moved = absurd (moved (rw h))
  hands_step (bred who i id1 id2 kitty k1 k2 o e1 e2 x n k h) moved = absurd (moved (rw h))
  hands_step (transfered who i new_owner o x w c h) moved = elim (Bool-cases (id == i)) [
    | inl same ↦
        given who new_owner o (ground arith) (ground arith)
          (ground (arith, C.storage.get-insert s.kitties_owner i new_owner id))
    | inr other ↦
        absurd (moved (ground (arith, C.storage.get-insert s.kitties_owner i new_owner id)))
  ]
  hands_step (abandoned who i o x w h) moved = elim (Bool-cases (id == i)) [
    | inl same ↦
        let_go who o (ground arith) (ground arith)
          (ground (arith, C.storage.get-remove s.kitties_owner i id))
    | inr other ↦ absurd (moved (ground (arith, C.storage.get-remove s.kitties_owner i id)))
  ]
  hands_step (adopted who i o x w c h) moved = elim (Bool-cases (id == i)) [
    | inl same ↦
        taken_in who o (ground arith) (ground arith)
          (ground (arith, C.storage.get-insert s.kitties_owner i who id))
    | inr other ↦ absurd (moved (ground (arith, C.storage.get-insert s.kitties_owner i who id)))
  ]
  hands_step (priced who i price o x w h) moved = absurd (moved (rw h))
  hands_step (unpriced who i o x w h) moved = absurd (moved (rw h))
  hands_step (sold i buyer seller price o x w p c f h) moved = elim (Bool-cases (id == i)) [
    | inl same ↦
        bought buyer seller price o (ground arith) (ground arith) (ground arith)
          (λ a. rw h (wealth_sold C L buyer seller price s.balances a c f))
          (ground (arith, C.storage.get-insert s.kitties_owner i buyer id))
    | inr other ↦ absurd (moved (ground (arith, C.storage.get-insert s.kitties_owner i buyer id)))
  ]

module _ (C : Config) (L : IsLawful C.currency) where
  -- Over a lawful currency and in a well-formed storage: if a call changes the owner of a kitty,
  -- whether it succeeds or not, then for one of the four reasons of `MayChangeHands`: its owner has
  -- signed a transfer and the new owner has it, or has signed `abandon` and it has none; it had none
  -- and the signer has adopted it; or the signer has bought it, and exactly the price that was asked
  -- has moved from the signer to its former owner.
  pub dispatch-MayChangeHands :
      (block : Block) (origin : C.Origin) (q : Request) (s : State C) (id : ℕ)
      → IsValid C s
      → C.storage.get (dispatch C block origin q s).1.kitties_owner id
        ≢ C.storage.get s.kitties_owner id
      → MayChangeHands C origin q s (dispatch C block origin q s).1 id
  dispatch-MayChangeHands block origin q s id v moved =
      hands_step C L id (dispatch-Transition C L block origin s v.counted q) moved
