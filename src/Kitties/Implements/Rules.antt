-- ===== src/Kitties/Implements/Rules.antt =====
-- The rules by which a call of the kitties pallet (`pallets/kitties/src/lib.rs`) is shown to make a
-- step of `Transition`, from what is known of its result.
use my_substrate_kitties.Base.{◌≡◌, ◌≢◌, refl}
use my_substrate_kitties.Frame.Dispatch.{Result, ok, err, panic}
use my_substrate_kitties.Kitties.Types.{Config, Block, State, Error}
use my_substrate_kitties.Kitties.Calls.{Request}
use my_substrate_kitties.Kitties.Transition.{Transition, refused}

module _ (C : Config) (block : Block) (origin : C.Origin) (s : State C) where
  -- The rule for a call that has no middle way: it succeeds, or leaves the storage as it was.
  pub atomic :
      (q : Request) (r : Result Error (Unit {0})) (t : State C)
      → (r ≡ ok tt → Transition C block origin s t q (ok tt))
      → (r ≢ ok tt → t ≡ s)
      → r ≢ panic
      → Transition C block origin s t q r
  atomic q (ok _) t good bad calm = good refl
  atomic q (err e) t good bad calm = refused e (bad (λ h. cc))
  atomic q panic t good bad calm = absurd (calm refl)

  -- A step by its result, where the result is known by an equation.
  pub resulting :
      {q : Request} {t : State C} (r r' : Result Error (Unit {0}))
      → r ≡ r'
      → Transition C block origin s t q r'
      → Transition C block origin s t q r
  resulting r r' e step = rw e step
