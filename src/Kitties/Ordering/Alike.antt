-- ===== src/Kitties/Ordering/Alike.antt =====
-- Storages of the kitties pallet (`pallets/kitties/src/lib.rs`) that are alike but for an offer, or
-- but for the order of their events, and what a call makes of them.
use mathlib.Core.List.{append-nil}
use mathlib.Core.List.Perm
use my_substrate_kitties.Base.{ℕ, ◌≡◌, refl, sym, false, Option, List, [], ◌∷◌, ◌++◌, ◌∙◌, arith}
use my_substrate_kitties.Kitties.Types.{Config, Block, State}
use my_substrate_kitties.Kitties.Calls.{
  Request, create_request, transfer_request, breed_request, abandon_request, adopt_request,
  clear_price_request, buy_request, set_price_request, dispatch, run,
}
use my_substrate_kitties.Kitties.Ordering.Offers.{
  offered, concerns, SameUpToOrder, Alike, with_offer, as_is, get-put, publish,
}
use my_substrate_kitties.Kitties.Ordering.Calls.{IsSpared, dispatch-Unmoved}

module _ (C : Config) where
  module _ (id : ℕ) (offer : Option ℕ) where
    pub publish-Alike :
        (s : State C)
        → Alike C (with_offer id offer) (offered id offer ∷ []) s (publish C id offer s)
    publish-Alike s = record {
      count = refl;
      kitties = refl;
      owner = refl;
      balances = refl;
      price = get-put C id offer s.kitties_price;
      events = Perm.refl (s.events ++ (offered id offer ∷ []));
    }

    pub Alike-published :
        {s t : State C}
        → Alike C (with_offer id offer) (offered id offer ∷ []) s t
        → SameUpToOrder C (publish C id offer s) t
    Alike-published {s} v = record {
      count = v.count;
      kitties = v.kitties;
      owner = v.owner;
      balances = v.balances;
      price = λ j. v.price j ∙ sym (get-put C id offer s.kitties_price j);
      events = v.events;
    }

    pub concerns-IsSpared :
        (q : Request)
        → concerns q id ≡ false
        → IsSpared C (with_offer id offer) (offered id offer ∷ []) q
    concerns-IsSpared create_request h = tt
    concerns-IsSpared (transfer_request i new_owner) h = tt
    concerns-IsSpared (breed_request id1 id2) h = tt
    concerns-IsSpared (abandon_request i) h = λ price. ground arith
    concerns-IsSpared (adopt_request i) h = tt
    concerns-IsSpared (set_price_request i p) h = λ price. ground arith
    concerns-IsSpared (clear_price_request i) h = λ price. ground arith
    concerns-IsSpared (buy_request i) h = λ price. ground arith

  SameUpToOrder-Alike : {s t : State C} → SameUpToOrder C s t → Alike C as_is [] s t
  SameUpToOrder-Alike {s} {t} v = record {
    count = v.count;
    kitties = v.kitties;
    owner = v.owner;
    balances = v.balances;
    price = v.price;
    events = rw (append-nil s.events) v.events;
  }

  Alike-SameUpToOrder : {s t : State C} → Alike C as_is [] s t → SameUpToOrder C s t
  Alike-SameUpToOrder {s} {t} v = record {
    count = v.count;
    kitties = v.kitties;
    owner = v.owner;
    balances = v.balances;
    price = v.price;
    events = let same = v.events in rw (append-nil s.events) at same;
  }

  as_is-IsSpared : (q : Request) → IsSpared C as_is [] q
  as_is-IsSpared create_request = tt
  as_is-IsSpared (transfer_request i new_owner) = tt
  as_is-IsSpared (breed_request id1 id2) = tt
  as_is-IsSpared (abandon_request i) = λ price. refl
  as_is-IsSpared (adopt_request i) = tt
  as_is-IsSpared (set_price_request i p) = λ price. refl
  as_is-IsSpared (clear_price_request i) = λ price. refl
  as_is-IsSpared (buy_request i) = λ price. refl

  -- The order of the events has no part in what a call does.
  pub dispatch-SameUpToOrder :
      (block : Block) (origin : C.Origin) (q : Request) (s t : State C)
      → SameUpToOrder C s t
      → SameUpToOrder C (dispatch C block origin q s).1 (dispatch C block origin q t).1
  dispatch-SameUpToOrder block origin q s t v =
      Alike-SameUpToOrder
        ((dispatch-Unmoved C as_is [] block origin q (as_is-IsSpared q)).at s t
          (SameUpToOrder-Alike v)).1

  pub run-SameUpToOrder :
      (requests : List (Block × C.Origin × Request)) (s t : State C)
      → SameUpToOrder C s t
      → SameUpToOrder C (run C requests s) (run C requests t)
  unfolding run
  run-SameUpToOrder [] s t v = v
  run-SameUpToOrder ((block, origin, q) ∷ requests) s t v =
      run-SameUpToOrder requests _ _ (dispatch-SameUpToOrder block origin q s t v)
