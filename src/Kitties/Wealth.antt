-- ===== src/Kitties/Wealth.antt =====
-- What the calls of the kitties pallet (`pallets/kitties/src/lib.rs`) do to the balances.
use my_substrate_kitties.Base.{
  ℕ, ◌+◌, ◌-◌, ◌≡◌, ◌≢◌, refl, ◌∙◌, arith, some, ◌⊎◌, inl, inr, ◌==◌, Bool-cases, if◌then◌else◌,
}
use my_substrate_kitties.Frame.Dispatch.{Result}
use my_substrate_kitties.Frame.Currency.{IsLawful, keep_alive}
use my_substrate_kitties.Kitties.Types.{Config, Block, State, Error}
use my_substrate_kitties.Kitties.Calls.{Request, buy_request, dispatch}
use my_substrate_kitties.Kitties.Implements.{dispatch-Transition}
use my_substrate_kitties.Kitties.Invariant.{IsValid}
use my_substrate_kitties.Kitties.Transition.{
  Transition, refused, payment_kept, created, bred, transfered, abandoned, adopted, priced,
  unpriced, sold, deposited, released, CanDeposit, CanPay, paid, Owns,
}

module _ (C : Config) where
  abbrev pub wealth_in : C.currency.Balances → ℕ → ℕ
  wealth_in b a = C.currency.free_balance b a + C.currency.reserved_balance b a

  -- The free and the reserved balance of an account together.
  abbrev pub wealth : State C → ℕ → ℕ
  wealth s = wealth_in s.balances

  -- The price moves from the buyer to the seller, and nothing else: what an account has is less by it
  -- for the buyer, more by it for the seller, and as it was for all others.
  abbrev pub Pays : State C → State C → (buyer seller price : ℕ) → Type 0
  Pays s t buyer seller price =
      (a : ℕ)
      → wealth t a + (if a == buyer then price else 0)
        ≡ wealth s a + (if a == seller then price else 0)

-- A price that has moved from the signer of a call to the owner of a kitty for sale, and nothing else.
pub record PriceMoved (C : Config) (origin : C.Origin) (id : ℕ) (s t : State C) : Type 0 where
  pub buyer : ℕ
  pub seller : ℕ
  pub price : ℕ
  pub signed : C.ensure_signed origin ≡ some buyer
  pub owned : Owns C s seller id
  pub asked : C.storage.get s.kitties_price id ≡ some price
  pub spent : wealth C t buyer + price ≡ wealth C s buyer
  pub earned : wealth C t seller ≡ wealth C s seller + price
  pub others : (a : ℕ) → (a ≡ buyer) ⊎ ((a ≡ seller) ⊎ (wealth C t a ≡ wealth C s a))

abbrev pub MovesWealth : (C : Config) → C.Origin → Request → State C → State C → Type 0
MovesWealth C origin q s t =
    ((a : ℕ) → wealth C t a ≡ wealth C s a)
    ⊎ ((id : ℕ) × (q ≡ buy_request id) × PriceMoved C origin id s t)

module _ (C : Config) (L : IsLawful C.currency) where
  open C use {holding_deposit_for_one_kitty as d}

  pub wealth_released :
      (who : ℕ) (b : C.currency.Balances) (a : ℕ)
      → wealth_in C (released C who b) a ≡ wealth_in C b a
  wealth_released who b a =
      ground (arith, L.free-unreserve who d b a, L.reserved-unreserve who d b a)

  pub wealth_deposited :
      (who : ℕ) (b : C.currency.Balances) (a : ℕ)
      → CanDeposit C who b
      → wealth_in C (deposited C who b) a ≡ wealth_in C b a
  wealth_deposited who b a c =
      ground (
        arith,
        L.reserve_done who d b c,
        L.free-reserve who d b a c,
        L.reserved-reserve who d b a c,
      )

  -- What a payment moves.
  pub wealth-paid :
      (buyer seller price : ℕ) (b : C.currency.Balances) (a : ℕ)
      → CanPay C buyer seller price b
      → wealth_in C (paid C buyer seller price b) a ≡ (
          if buyer == seller
          then wealth_in C b a
          else if a == buyer
          then wealth_in C b a - price
          else if a == seller
          then wealth_in C b a + price
          else wealth_in C b a)
  wealth-paid buyer seller price b a c = ground (
    arith,
    L.transfer_done buyer seller price keep_alive b c,
    L.free-transfer buyer seller price b a c,
    L.reserved-transfer buyer seller price b a c,
  )

  -- After the price is paid, the deposit of the buyer made and the one of the seller given back,
  -- exactly the price has moved.
  pub wealth_sold :
      (buyer seller price : ℕ) (b : C.currency.Balances) (a : ℕ)
      → CanPay C buyer seller price b
      → CanDeposit C buyer (paid C buyer seller price b)
      → wealth_in C (released C seller (deposited C buyer (paid C buyer seller price b))) a
          + (if a == buyer then price else 0)
        ≡ wealth_in C b a + (if a == seller then price else 0)
  wealth_sold buyer seller price b a c f = ground (
    arith,
    wealth_released seller (deposited C buyer (paid C buyer seller price b)) a,
    wealth_deposited buyer (paid C buyer seller price b) a f,
    wealth-paid buyer seller price b a c,
    L.transfer_done buyer seller price keep_alive b c,
  )

  module _ {origin : C.Origin} {s t : State C} where
    payment :
        (id buyer seller price : ℕ)
        → C.ensure_signed origin ≡ some buyer
        → Owns C s seller id
        → C.storage.get s.kitties_price id ≡ some price
        → CanPay C buyer seller price s.balances
        → ((a : ℕ) → wealth C t a ≡ wealth_in C (paid C buyer seller price s.balances) a)
        → MovesWealth C origin (buy_request id) s t
    payment id buyer seller price o w p c same = elim (Bool-cases (buyer == seller)) [
      | inl self ↦ inl λ a. ground (arith, same a, wealth-paid buyer seller price s.balances a c)
      | inr differ ↦
          let moved = wealth-paid buyer seller price s.balances in
          let rich = L.transfer_done buyer seller price keep_alive s.balances c in
          inr (
            id,
            refl,
            record {
              buyer = buyer;
              seller = seller;
              price = price;
              signed = o;
              owned = w;
              asked = p;
              spent = ground (arith, same buyer, moved buyer c);
              earned = ground (arith, same seller, moved seller c);
              others = λ a. elim (Bool-cases (a == buyer)) [
                | inl b ↦ inl (ground arith)
                | inr nb ↦ elim (Bool-cases (a == seller)) [
                  | inl e ↦ inr (inl (ground arith))
                  | inr ne ↦ inr (inr (ground (arith, same a, moved a c)))
                ]
              ];
            },
          )
    ]

    step-MovesWealth :
        {block : Block} {q : Request} {r : Result Error (Unit {0})}
        → Transition C block origin s t q r
        → MovesWealth C origin q s t
    step-MovesWealth (refused e h) = inl λ a. rw h refl
    step-MovesWealth (payment_kept id buyer seller price e o w p c f h) =
        payment id buyer seller price o w p c (λ a. rw h refl)
    step-MovesWealth (created who id kitty o n k h) = inl λ a. rw h refl
    step-MovesWealth (bred who id id1 id2 kitty k1 k2 o e1 e2 x n k h) = inl λ a. rw h refl
    step-MovesWealth (transfered who id new_owner o x w c h) =
        inl λ a. rw h (wealth_released who _ a ∙ wealth_deposited new_owner s.balances a c)
    step-MovesWealth (abandoned who id o x w h) = inl λ a. rw h (wealth_released who s.balances a)
    step-MovesWealth (adopted who id o x w c h) =
        inl λ a. rw h (wealth_deposited who s.balances a c)
    step-MovesWealth (priced who id price o x w h) = inl λ a. rw h refl
    step-MovesWealth (unpriced who id o x w h) = inl λ a. rw h refl
    step-MovesWealth (sold id buyer seller price o x w p c f h) =
        payment id buyer seller price o w p c (λ a. rw h (
          wealth_released seller _ a
          ∙ wealth_deposited buyer (paid C buyer seller price s.balances) a f))

  -- Over a lawful currency and in a well-formed storage, a call, whether it succeeds or not, leaves
  -- what every account has, free and reserved together, as it was; or it is a `buy` in which exactly
  -- the price that the seller has asked moves from the signer to the owner of the kitty.
  pub dispatch-MovesWealth :
      (block : Block) (origin : C.Origin) (q : Request) (s : State C)
      → IsValid C s
      → MovesWealth C origin q s (dispatch C block origin q s).1
  dispatch-MovesWealth block origin q s v =
      step-MovesWealth (dispatch-Transition C L block origin s v.counted q)

  -- A call other than `buy` leaves all wealth as it was.
  pub dispatch-keeps-wealth :
      (block : Block) (origin : C.Origin) (q : Request) (s : State C) (a : ℕ)
      → IsValid C s
      → ((id : ℕ) → q ≢ buy_request id)
      → wealth C (dispatch C block origin q s).1 a ≡ wealth C s a
  dispatch-keeps-wealth block origin q s a v other =
      elim (dispatch-MovesWealth block origin q s v) [
        | inl same ↦ same a
        | inr (id, e, moved) ↦ absurd (other id e)
      ]
