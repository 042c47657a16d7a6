-- ===== src/Kitties/Possession.antt =====
-- What an owner who does nothing keeps in the kitties pallet (`pallets/kitties/src/lib.rs`).
use my_substrate_kitties.Base.{
  ℕ, ◌+◌, ◌≡◌, ◌≢◌, ap, ◌∙◌, true, false, Option, some, ◌⊎◌, inl, inr, arith, ◌==◌, Bool-cases,
}
use my_substrate_kitties.Frame.Dispatch.{Result, ok}
use my_substrate_kitties.Frame.Currency.{IsLawful}
use my_substrate_kitties.Kitties.Types.{Config, Block, State, Error}
use my_substrate_kitties.Kitties.Calls.{Request, buy_request, dispatch}
use my_substrate_kitties.Kitties.Implements.{dispatch-Transition}
use my_substrate_kitties.Kitties.Deposits.{reserved-Owns}
use my_substrate_kitties.Kitties.History.{IsSound}
use my_substrate_kitties.Kitties.Wealth.{wealth}
use my_substrate_kitties.Kitties.Sale.{buy_lem}
use my_substrate_kitties.Kitties.Ordering.Offers.{concerns}
use my_substrate_kitties.Kitties.Transition.{
  Transition, refused, payment_kept, created, bred, transfered, abandoned, adopted, priced,
  unpriced, sold, Owns, Exists, CanPay, CanDeposit, paid,
}

-- A call that buys the kitty of an account at the price asked: another account owns it afterwards, and
-- the account has the price.
pub record IsPurchase (C : Config) (who id : ℕ) (asked : Option ℕ) (block : Block)
    (origin : C.Origin) (s : State C) : Type 0 where
  pub buyer : ℕ
  pub price : ℕ
  pub signed : C.ensure_signed origin ≡ some buyer
  pub differ : buyer ≢ who
  pub offered : asked ≡ some price
  pub owned : Owns C s who id
  pub succeeds : (dispatch C block origin (buy_request id) s).0 ≡ ok tt
  pub handed : Owns C (dispatch C block origin (buy_request id) s).1 buyer id
  pub earned : wealth C (dispatch C block origin (buy_request id) s).1 who ≡ wealth C s who + price

module _ (C : Config) (who id : ℕ) (asked : Option ℕ) where
  abbrev pub Keeps : State C → Type 0
  Keeps s = Owns C s who id × (C.storage.get s.kitties_price id ≡ asked)

  -- The call is a purchase of the kitty that goes through.
  abbrev Takes : C.Origin → State C → Request → Type 0
  Takes origin s q =
      (buyer : ℕ) × (price : ℕ) × (q ≡ buy_request id)
      × (C.ensure_signed origin ≡ some buyer)
      × (asked ≡ some price)
      × Exists C s id
      × CanPay C buyer who price s.balances
      × CanDeposit C buyer (paid C buyer who price s.balances)

  module _ {block : Block} {origin : C.Origin} {s t : State C} where
    step-Keeps :
        {q : Request} {r : Result Error (Unit {0})}
        → Transition C block origin s t q r
        → (C.ensure_signed origin ≡ some who → concerns q id ≡ false)
        → Keeps s
        → Keeps t ⊎ Takes origin s q
    step-Keeps (refused e h) quiet k = inl (rw h k)
    step-Keeps (payment_kept i buyer seller p e o w y c f h) quiet k = inl (rw h k)
    step-Keeps (created a i kitty o n g h) quiet k = inl (rw h k)
    step-Keeps (bred a i id1 id2 kitty k1 k2 o e1 e2 x n g h) quiet k = inl (rw h k)
    step-Keeps (transfered a i new_owner o x w c h) quiet k =
        inl (ground (arith, C.storage.get-insert s.kitties_owner i new_owner id))
    step-Keeps (abandoned a i o x w h) quiet k = inl (
        ground (
          arith,
          C.storage.get-remove s.kitties_owner i id,
          C.storage.get-remove s.kitties_price i id,
        ))
    step-Keeps (adopted a i o x w c h) quiet k =
        inl (ground (arith, C.storage.get-insert s.kitties_owner i a id))
    step-Keeps (priced a i p o x w h) quiet k =
        inl (ground (arith, C.storage.get-insert s.kitties_price i p id))
    step-Keeps (unpriced a i o x w h) quiet k =
        inl (ground (arith, C.storage.get-remove s.kitties_price i id))
    step-Keeps (sold i buyer seller p o x w y c f h) quiet k = elim (Bool-cases (id == i)) [
      | inl same ↦
          inr (buyer, p, ground arith, o, ground arith, ground arith, ground arith, ground arith)
      | inr other ↦ inl (
          ground (
            arith,
            C.storage.get-insert s.kitties_owner i buyer id,
            C.storage.get-remove s.kitties_price i id,
          ))
    ]

module _ (C : Config) (L : IsLawful C.currency) (who id : ℕ) (asked : Option ℕ) where
  purchase :
      (block : Block) (origin : C.Origin) (q : Request) (s : State C)
      → IsSound C s
      → (C.ensure_signed origin ≡ some who → concerns q id ≡ false)
      → Keeps C who id asked s
      → Takes C who id asked origin s q
      → (q ≡ buy_request id) × IsPurchase C who id asked block origin s
  unfolding dispatch
  purchase block origin q s sound quiet (w, p) (buyer, price, e, o, a, x, c, f) =
      let mine : concerns q id ≡ true = rw e (ground arith) in
      let differ : buyer ≢ who = λ same. cc (mine, quiet (o ∙ ap some same)) in
      let secured = reserved-Owns C s sound.valid id who sound.backed x w in
      let done = buy_lem C L origin s id buyer who price o x w (p ∙ a) differ c f secured in
      (
        e,
        record {
          buyer = buyer;
          price = price;
          signed = o;
          differ = differ;
          offered = a;
          owned = w;
          succeeds = done.0;
          handed = done.1;
          earned = omega (arith, done.4, done.6);
        },
      )

  -- One call: the owner keeps the kitty and its offer, or another signer buys it.
  pub dispatch-Keeps :
      (block : Block) (origin : C.Origin) (q : Request) (s : State C)
      → IsSound C s
      → (C.ensure_signed origin ≡ some who → concerns q id ≡ false)
      → Keeps C who id asked s
      → Keeps C who id asked (dispatch C block origin q s).1
        ⊎ ((q ≡ buy_request id) × IsPurchase C who id asked block origin s)
  dispatch-Keeps block origin q s sound quiet k =
      let step = dispatch-Transition C L block origin s sound.valid.counted q in
      elim (step-Keeps C who id asked step quiet k) [
        | inl kept ↦ inl kept
        | inr taken ↦ inr (purchase block origin q s sound quiet k taken)
      ]
