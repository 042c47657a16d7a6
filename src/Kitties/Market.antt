-- ===== src/Kitties/Market.antt =====
-- The market of the kitties pallet (`pallets/kitties/src/lib.rs`): an offer, and the purchase that
-- takes it after other calls.
use my_substrate_kitties.Base.{ℕ, ◌+◌, ◌≡◌, ◌≢◌, false, some, none, List, [], ◌∷◌, arith}
use my_substrate_kitties.Frame.Dispatch.{Result, ok}
use my_substrate_kitties.Frame.Currency.{IsLawful}
use my_substrate_kitties.Kitties.Types.{Config, Block, State, Error}
use my_substrate_kitties.Kitties.Calls.{
  Request, set_price_request, buy_request, set_price, dispatch, run,
}
use my_substrate_kitties.Kitties.Transition.{
  Transition, refused, payment_kept, created, bred, transfered, abandoned, adopted, priced,
  unpriced, sold, Owns, Exists, CanPay, CanDeposit, paid,
}
use my_substrate_kitties.Kitties.Implements.{dispatch-Transition}
use my_substrate_kitties.Kitties.Deposits.{reserved, reserved-Owns}
use my_substrate_kitties.Kitties.History.{IsSound, dispatch-IsSound, run-IsSound}
use my_substrate_kitties.Kitties.Ordering.Offers.{concerns}
use my_substrate_kitties.Kitties.Ordering.Swap.{step-Exists}
use my_substrate_kitties.Kitties.Ordering.Moving.{LeaveAlone}
use my_substrate_kitties.Kitties.Sale.{free, buy_lem}

module _ (C : Config) (id seller price : ℕ) where
  -- The kitty is for sale at the price.
  abbrev IsOffered : State C → Type 0
  IsOffered s = Exists C s id × Owns C s seller id × (C.storage.get s.kitties_price id ≡ some price)

  -- A call that is not about the kitty leaves its owner and its price.
  step-keeps :
      {block : Block} {origin : C.Origin} {s t : State C} {q : Request}
      {r : Result Error (Unit {0})}
      → Transition C block origin s t q r
      → concerns q id ≡ false
      → Owns C s seller id × (C.storage.get s.kitties_price id ≡ some price)
      → Owns C t seller id × (C.storage.get t.kitties_price id ≡ some price)
  step-keeps (refused e h) other w = rw h w
  step-keeps (payment_kept i buyer owner p e o x y c f h) other w = rw h w
  step-keeps (created who i kitty o n k h) other w = rw h w
  step-keeps (bred who i id1 id2 kitty k1 k2 o e1 e2 x n k h) other w = rw h w
  step-keeps {s} (transfered who i new_owner o x y c h) other w =
      ground (arith, C.storage.get-insert s.kitties_owner i new_owner id)
  step-keeps {s} (abandoned who i o x y h) other w =
      ground (
        arith,
        C.storage.get-remove s.kitties_owner i id,
        C.storage.get-remove s.kitties_price i id,
      )
  step-keeps {s} (adopted who i o x y c h) other w =
      ground (arith, C.storage.get-insert s.kitties_owner i who id)
  step-keeps {s} (priced who i p o x y h) other w =
      ground (arith, C.storage.get-insert s.kitties_price i p id)
  step-keeps {s} (unpriced who i o x y h) other w =
      ground (arith, C.storage.get-remove s.kitties_price i id)
  step-keeps {s} (sold i buyer owner p o x y z c f h) other w = ground (
    arith,
    C.storage.get-insert s.kitties_owner i buyer id,
    C.storage.get-remove s.kitties_price i id,
  )

  -- The storage after `giver` has asked the price for the kitty and other calls were made.
  abbrev asked : Block → C.Origin → List (Block × C.Origin × Request) → State C → State C
  asked block giver others s = run C ((block, giver, set_price_request id price) ∷ others) s

  module _ (L : IsLawful C.currency) where
    run-IsOffered :
        (others : List (Block × C.Origin × Request)) (s : State C)
        → IsSound C s
        → LeaveAlone C id others
        → IsOffered s
        → IsOffered (run C others s)
    unfolding run
    run-IsOffered [] s sound alone offer = offer
    run-IsOffered ((block, origin, q) ∷ others) s sound (other, alone) (x, w, p) =
        let step = dispatch-Transition C L block origin s sound.valid.counted q in
        run-IsOffered others _ (dispatch-IsSound C L block origin q s sound) alone
          (let kept = step-keeps step other (w, p) in (step-Exists C id step x, kept.0, kept.1))

    set_price-IsOffered :
        (origin : C.Origin) (s : State C)
        → C.ensure_signed origin ≡ some seller
        → Exists C s id
        → Owns C s seller id
        → IsOffered (set_price C origin id price s).1
    unfolding set_price
    set_price-IsOffered origin s o x w = (
      ground arith,
      ground arith,
      ground (arith, C.storage.get-insert s.kitties_price id price id),
    )

    offer_stands :
        (block : Block) (giver : C.Origin) (others : List (Block × C.Origin × Request))
        (s : State C)
        → IsSound C s
        → C.ensure_signed giver ≡ some seller
        → Exists C s id
        → Owns C s seller id
        → LeaveAlone C id others
        → let u = asked block giver others s in IsSound C u × IsOffered u
    unfolding run dispatch
    offer_stands block giver others s sound o x w alone =
        let kept = dispatch-IsSound C L block giver (set_price_request id price) s sound in
        (
          run-IsSound C L others _ kept,
          run-IsOffered others _ kept alone (set_price-IsOffered giver s o x w),
        )

    -- Over a lawful currency and from a sound storage: when the owner of a kitty has asked a price for
    -- it, and then any calls were made that are not about the owner or the price of that kitty, any
    -- other signer who then can pay the price and the deposit buys it from that owner at that
    -- price. The call succeeds, the buyer owns the kitty and it is no longer for sale; a price
    -- and a deposit leave the buyer's free balance, as much reaches the seller's, and the deposit
    -- is reserved of the buyer and no longer of the seller.
    pub set_price_then_buy :
        (block block' : Block) (giver taker : C.Origin) (buyer : ℕ)
        (others : List (Block × C.Origin × Request)) (s : State C)
        → IsSound C s
        → C.ensure_signed giver ≡ some seller
        → Exists C s id
        → Owns C s seller id
        → LeaveAlone C id others
        → C.ensure_signed taker ≡ some buyer
        → buyer ≢ seller
        → CanPay C buyer seller price (asked block giver others s).balances
        → CanDeposit C buyer (paid C buyer seller price (asked block giver others s).balances)
        → let d = C.holding_deposit_for_one_kitty in
          let u = asked block giver others s in
          let (r, t) = dispatch C block' taker (buy_request id) u in
          (r ≡ ok tt)
          × Owns C t buyer id
          × (C.storage.get t.kitties_price id ≡ none)
          × (free C t buyer + price + d ≡ free C u buyer)
          × (free C t seller ≡ free C u seller + price + d)
          × (reserved C t buyer ≡ reserved C u buyer + d)
          × (reserved C t seller + d ≡ reserved C u seller)
    unfolding dispatch
    set_price_then_buy block block' giver taker buyer others s sound o x w alone o' ne c f =
        let u = asked block giver others s in
        let (sound', (x', w', p')) = offer_stands block giver others s sound o x w alone in
        buy_lem C L taker u id buyer seller price o' x' w' p' ne c f
          (reserved-Owns C u sound'.valid id seller sound'.backed x' w')
