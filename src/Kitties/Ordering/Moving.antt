-- ===== src/Kitties/Ordering/Moving.antt =====
-- The place of an offer in a history of the kitties pallet (`pallets/kitties/src/lib.rs`).
use mathlib.Core.List.Perm
use my_substrate_kitties.Base.{ℕ, ◌≡◌, false, Option, List, [], ◌∷◌, ◌++◌, ◌∙◌}
use my_substrate_kitties.Frame.Currency.{IsLawful}
use my_substrate_kitties.Kitties.Types.{Config, Block, State}
use my_substrate_kitties.Kitties.Calls.{Request, dispatch, run}
use my_substrate_kitties.Kitties.Invariant.{counted_step}
use my_substrate_kitties.Kitties.Implements.{dispatch-Transition}
use my_substrate_kitties.Kitties.Transition.{HasCountU32, Exists}
use my_substrate_kitties.Kitties.Ordering.Offers.{offering, concerns, SameUpToOrder, same_state}
use my_substrate_kitties.Kitties.Ordering.Alike.{run-SameUpToOrder}
use my_substrate_kitties.Kitties.Ordering.Swap.{step-Exists, dispatch_comm}

module _ (C : Config) where
  pub SameUpToOrder-trans :
      {s t u : State C} → SameUpToOrder C s t → SameUpToOrder C t u → SameUpToOrder C s u
  SameUpToOrder-trans v w = record {
    count = w.count ∙ v.count;
    kitties = w.kitties ∙ v.kitties;
    owner = w.owner ∙ v.owner;
    balances = w.balances ∙ v.balances;
    price = λ id. w.price id ∙ v.price id;
    events = Perm.trans w.events v.events;
  }

  -- No call of a history is about the owner or the price of a kitty.
  abbrev pub LeaveAlone : ℕ → List (Block × C.Origin × Request) → Type 0
  LeaveAlone id [] = Unit {0}
  LeaveAlone id ((block, origin, q) ∷ requests) = (concerns q id ≡ false) × LeaveAlone id requests

module _ (C : Config) (L : IsLawful C.currency) (block : Block) (origin : C.Origin) (id : ℕ)
    (offer : Option ℕ) (later : List (Block × C.Origin × Request)) where
  -- Over a lawful currency, with a count that is a u32: to set or clear the price of a kitty that
  -- exists does the same before or after any calls that are not about the owner or the price of that
  -- kitty. Whatever calls come later, both histories leave the same kitties, count, owners, prices and
  -- balances, and the same events but for their order.
  pub run_comm :
      (others : List (Block × C.Origin × Request)) (s : State C)
      → HasCountU32 C s
      → Exists C s id
      → LeaveAlone C id others
      → SameUpToOrder C
          (run C (others ++ ((block, origin, offering id offer) ∷ later)) s)
          (run C ((block, origin, offering id offer) ∷ (others ++ later)) s)
  unfolding run
  run_comm [] s counted known alone = same_state C _
  run_comm ((block', origin', q) ∷ others) s counted known (other, alone) =
      let step = dispatch-Transition C L block' origin' s counted q in
      let t = (dispatch C block' origin' q s).1 in
      let moved =
        run_comm others t (counted_step C step counted) (step-Exists C id step known) alone in
      let swapped =
        dispatch_comm C L block block' origin origin' id offer q s counted known other in
      SameUpToOrder-trans C moved (run-SameUpToOrder C (others ++ later) _ _ swapped.2)
