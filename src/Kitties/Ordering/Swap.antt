-- ===== src/Kitties/Ordering/Swap.antt =====
-- An offer for a kitty of the pallet (`pallets/kitties/src/lib.rs`), before or after a call that is not
-- about the kitty.
use my_substrate_kitties.Base.{ℕ, [], ◌∷◌, ◌≡◌, refl, false, Option, arith}
use my_substrate_kitties.Frame.Dispatch.{Result, ok, err, panic}
use my_substrate_kitties.Frame.Currency.{IsLawful}
use my_substrate_kitties.Kitties.Types.{Config, Block, State, Error}
use my_substrate_kitties.Kitties.Calls.{Request, dispatch}
use my_substrate_kitties.Kitties.Implements.{dispatch-Transition}
use my_substrate_kitties.Kitties.Transition.{
  Transition, refused, payment_kept, created, bred, transfered, abandoned, adopted, priced,
  unpriced, sold, HasCountU32, Exists,
}
use my_substrate_kitties.Kitties.Ordering.Offers.{
  with_offer, offered, offering, concerns, SameUpToOrder, same_state, publish, verdict,
  verdict_same, settle, offering_lem,
}
use my_substrate_kitties.Kitties.Ordering.Alike.{publish-Alike, Alike-published, concerns-IsSpared}
use my_substrate_kitties.Kitties.Ordering.Calls.{dispatch-Unmoved}

module _ (C : Config) {block : Block} {origin : C.Origin} {s t : State C} (id : ℕ) where
  owner_step :
      {q : Request} {r : Result Error (Unit {0})}
      → Transition C block origin s t q r
      → concerns q id ≡ false
      → C.storage.get t.kitties_owner id ≡ C.storage.get s.kitties_owner id
  owner_step (refused e h) other = rw h refl
  owner_step (payment_kept i buyer seller price e o w p c f h) other = rw h refl
  owner_step (created who i kitty o n k h) other = rw h refl
  owner_step (bred who i id1 id2 kitty k1 k2 o e1 e2 x n k h) other = rw h refl
  owner_step (transfered who i new_owner o x w c h) other =
      ground (arith, C.storage.get-insert s.kitties_owner i new_owner id)
  owner_step (adopted who i o x w c h) other =
      ground (arith, C.storage.get-insert s.kitties_owner i who id)
  owner_step (priced who i price o x w h) other = rw h refl
  owner_step (unpriced who i o x w h) other = rw h refl
  owner_step (abandoned who i o x w h) other =
      ground (arith, C.storage.get-remove s.kitties_owner i id)
  owner_step (sold i buyer seller price o x w p c d h) other =
      ground (arith, C.storage.get-insert s.kitties_owner i buyer id)

  pub step-Exists :
      {q : Request} {r : Result Error (Unit {0})}
      → Transition C block origin s t q r
      → Exists C s id
      → Exists C t id
  step-Exists (created who i kitty o n k h) x = ground (
    arith,
    C.storage.get-insert s.kitties i kitty id,
    C.storage.contains_key_lem s.kitties id,
    C.storage.contains_key_lem t.kitties id,
  )
  step-Exists (bred who i id1 id2 kitty k1 k2 o e1 e2 _ n k h) x = ground (
    arith,
    C.storage.get-insert s.kitties i kitty id,
    C.storage.contains_key_lem s.kitties id,
    C.storage.contains_key_lem t.kitties id,
  )
  step-Exists (refused e h) x = rw h x
  step-Exists (payment_kept i buyer seller price e o w p c f h) x = rw h x
  step-Exists (transfered who i new_owner o _ w c h) x = rw h x
  step-Exists (adopted who i o _ w c h) x = rw h x
  step-Exists (priced who i price o _ w h) x = rw h x
  step-Exists (unpriced who i o _ w h) x = rw h x
  step-Exists (abandoned who i o _ w h) x = rw h x
  step-Exists (sold i buyer seller price o _ w p c d h) x = rw h x

module _ (C : Config) (block : Block) (origin : C.Origin) (id : ℕ) (offer : Option ℕ) (q : Request)
    (other : concerns q id ≡ false) (s : State C) where
  -- The offer is made or refused alike before and after the call.
  settled :
      (v : Result Error (Unit {0}))
      → let t' = (dispatch C block origin q s).1 in
        let before = settle C v s (publish C id offer s) in
        let after = settle C v t' (publish C id offer t') in
        ((dispatch C block origin q before.1).0 ≡ (dispatch C block origin q s).0)
        × (after.0 ≡ before.0)
        × SameUpToOrder C after.1 (dispatch C block origin q before.1).1
  settled (ok u) =
      let unmoved =
        (dispatch-Unmoved C (with_offer id offer) (offered id offer ∷ []) block origin q
            (concerns-IsSpared C id offer q other)).at
          s (publish C id offer s) (publish-Alike C id offer s) in
      (unmoved.0, refl, Alike-published C id offer unmoved.1)
  settled (err e) = (refl, refl, same_state C (dispatch C block origin q s).1)
  settled panic = (refl, refl, same_state C (dispatch C block origin q s).1)

module _ (C : Config) (L : IsLawful C.currency) where
  -- Over a lawful currency, with a count that is a u32: to set or clear the price of a kitty that
  -- exists, and any other call that is not about the owner or the price of that kitty, by any signers
  -- and in any blocks, can change their order. Each of the two has the same result first or second,
  -- and both orders leave the same kitties, count, owners, prices and balances, and the same events
  -- but for their order.
  pub dispatch_comm :
      (block block' : Block) (origin origin' : C.Origin) (id : ℕ) (offer : Option ℕ) (q : Request)
      (s : State C)
      → HasCountU32 C s
      → Exists C s id
      → concerns q id ≡ false
      → let (r, t) = dispatch C block origin (offering id offer) s in
        let (r', t') = dispatch C block' origin' q s in
        let first = dispatch C block' origin' q t in
        let last = dispatch C block origin (offering id offer) t' in
        (first.0 ≡ r') × (last.0 ≡ r) × SameUpToOrder C last.1 first.1
  dispatch_comm block block' origin origin' id offer q s counted known other =
      let step = dispatch-Transition C L block' origin' s counted q in
      let t' = (dispatch C block' origin' q s).1 in
      let same : verdict C origin id t' ≡ verdict C origin id s =
        verdict_same C origin id s t' (ground (arith, step-Exists C id step known))
          (owner_step C id step other) in
      rw (offering_lem C block origin id offer s, offering_lem C block origin id offer t', same)
        (settled C block' origin' id offer q other s (verdict C origin id s))
