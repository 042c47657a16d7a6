-- ===== src/Kitties/History.antt =====
-- Whole histories of the kitties pallet (`pallets/kitties/src/lib.rs`): any calls, by any origins, in
-- any blocks, one after the other, failed ones included.
use my_substrate_kitties.Base.{ℕ, ◌+◌, ◌*◌, ◌≡◌, ◌≢◌, refl, some, List, [], ◌∷◌, ◌++◌, arith}
use my_substrate_kitties.Frame.Dispatch.{Result, panic}
use my_substrate_kitties.Frame.Currency.{IsLawful}
use my_substrate_kitties.Kitties.Types.{Kitty, Config, Block, State, Error, genesis}
use my_substrate_kitties.Kitties.Calls.{Request, dispatch, run}
use my_substrate_kitties.Kitties.Transition.{
  Transition, refused, payment_kept, created, bred, transfered, abandoned, adopted, priced,
  unpriced, sold,
}
use my_substrate_kitties.Kitties.Implements.{dispatch-Transition}
use my_substrate_kitties.Kitties.Invariant.{IsValid, Transition-IsValid}
use my_substrate_kitties.Kitties.Holdings.{holdings, owned_upto}
use my_substrate_kitties.Kitties.Deposits.{
  IsBacked, reserved, deposits, balance_step, step-IsBacked,
}

module _ (C : Config) {block : Block} {origin : C.Origin} {s t : State C} where
  Transition-ne-panic :
      {q : Request} {r : Result Error (Unit {0})} → Transition C block origin s t q r → r ≢ panic
  Transition-ne-panic (refused e h) bad = cc
  Transition-ne-panic (payment_kept id buyer seller price e o w p c f h) bad = cc
  Transition-ne-panic (created who new kitty o n k h) bad = cc
  Transition-ne-panic (bred who new id1 id2 kitty k1 k2 o e1 e2 x n k h) bad = cc
  Transition-ne-panic (transfered who id new_owner o x w c h) bad = cc
  Transition-ne-panic (abandoned who id o x w h) bad = cc
  Transition-ne-panic (adopted who id o x w c h) bad = cc
  Transition-ne-panic (priced who id price o x w h) bad = cc
  Transition-ne-panic (unpriced who id o x w h) bad = cc
  Transition-ne-panic (sold id buyer seller price o x w p c d h) bad = cc

module _ (C : Config) where
  -- A history in two parts.
  pub run-append :
      (xs ys : List (Block × C.Origin × Request)) (s : State C)
      → run C (xs ++ ys) s ≡ run C ys (run C xs s)
  unfolding run
  run-append [] ys s = refl
  run-append ((block, origin, q) ∷ xs) ys s = run-append xs ys (dispatch C block origin q s).1

  -- A well-formed storage in which every kitty with an owner is paid for.
  pub record IsSound (s : State C) : Type 0 where
    pub valid : IsValid C s
    pub backed : IsBacked C s

  -- The storage before the first call is sound, whatever the balances are.
  pub genesis-IsSound : (b : C.currency.Balances) → IsSound (genesis C b)
  unfolding owned_upto
  genesis-IsSound b = record {
    valid = record {
      counted = omega arith;
      numbered = λ id. ground (arith, C.storage.get-empty {V = Kitty} id);
      owned_kitties = λ id h. ground (arith, C.storage.get-empty {V = ℕ} id);
      owned_prices = λ id h. ground (arith, C.storage.get-empty {V = ℕ} id);
    };
    backed = λ a. omega arith;
  }

  module _ (L : IsLawful C.currency) where
    -- Over a lawful currency and in a sound storage no call panics: the `unwrap`s of
    -- `breed_kitty` always find their kitty.
    pub dispatch-ne-panic :
        (block : Block) (origin : C.Origin) (q : Request) (s : State C)
        → IsSound s
        → (dispatch C block origin q s).0 ≢ panic
    dispatch-ne-panic block origin q s h =
        Transition-ne-panic C (dispatch-Transition C L block origin s h.valid.counted q)

    -- Every call keeps the storage sound.
    pub dispatch-IsSound :
        (block : Block) (origin : C.Origin) (q : Request) (s : State C)
        → IsSound s
        → IsSound (dispatch C block origin q s).1
    dispatch-IsSound block origin q s h =
        let step = dispatch-Transition C L block origin s h.valid.counted q in
        record {
          valid = Transition-IsValid C step h.valid;
          backed = step-IsBacked C L step h.valid h.backed;
        }

    -- Over a lawful currency, every history of calls, failed ones included, leads from a sound
    -- storage to a sound one.
    pub run-IsSound :
        (requests : List (Block × C.Origin × Request)) (s : State C)
        → IsSound s
        → IsSound (run C requests s)
    unfolding run
    run-IsSound [] s h = h
    run-IsSound ((block, origin, q) ∷ requests) s h =
        run-IsSound requests _ (dispatch-IsSound block origin q s h)

    -- What every transition out of a sound storage keeps, every history keeps.
    pub run_inv :
        (P : State C → Type 0)
        → ((block : Block) (origin : C.Origin) (q : Request) (s t : State C)
              (r : Result Error (Unit {0}))
            → Transition C block origin s t q r
            → IsSound s
            → P s
            → P t)
        → (requests : List (Block × C.Origin × Request)) (s : State C) → IsSound s
        → P s
        → P (run C requests s)
    unfolding run
    run_inv P keep [] s h p = p
    run_inv P keep ((block, origin, q) ∷ requests) s h p =
        let step = dispatch-Transition C L block origin s h.valid.counted q in
        run_inv P keep requests _ (dispatch-IsSound block origin q s h)
          (keep block origin q s _ _ step h p)

    run_balance :
        (requests : List (Block × C.Origin × Request)) (s : State C) (a : ℕ)
        → IsSound s
        → let t = run C requests s in
          reserved C t a + deposits C s a ≡ reserved C s a + deposits C t a
    unfolding run
    run_balance [] s a h = refl
    run_balance ((block, origin, q) ∷ requests) s a h =
        let step = dispatch-Transition C L block origin s h.valid.counted q in
        omega (
          arith,
          balance_step C L step h.valid h.backed a,
          run_balance requests _ a (dispatch-IsSound block origin q s h),
        )

    -- Over a lawful currency, after any history that starts from the empty storage, the reserved
    -- balance of an account is what it was at the start and one deposit for each kitty that the
    -- account owns.
    pub run_deposits :
        (requests : List (Block × C.Origin × Request)) (b : C.currency.Balances) (a : ℕ)
        → let t = run C requests (genesis C b) in
          C.currency.reserved_balance t.balances a
          ≡ C.currency.reserved_balance b a + C.holding_deposit_for_one_kitty * holdings C t a
    unfolding owned_upto
    run_deposits requests b a =
        omega (arith, run_balance requests (genesis C b) a (genesis-IsSound b))

    kitty_step :
        {block : Block} {origin : C.Origin} {q : Request} {s t : State C}
        {r : Result Error (Unit {0})}
        → Transition C block origin s t q r
        → IsValid C s
        → (id : ℕ) (known : Kitty) → C.storage.get s.kitties id ≡ some known
        → C.storage.get t.kitties id ≡ some known
    kitty_step (refused e h) v id known g = rw h g
    kitty_step (payment_kept i buyer seller price e o w p c f h) v id known g = rw h g
    kitty_step {s} (created who new kitty o n k h) v id known g =
        ground (arith, v.numbered id, C.storage.get-insert s.kitties new kitty id)
    kitty_step {s} (bred who new id1 id2 kitty k1 k2 o e1 e2 x n k h) v id known g =
        ground (arith, v.numbered id, C.storage.get-insert s.kitties new kitty id)
    kitty_step (transfered who i new_owner o x w c h) v id known g = rw h g
    kitty_step (abandoned who i o x w h) v id known g = rw h g
    kitty_step (adopted who i o x w c h) v id known g = rw h g
    kitty_step (priced who i price o x w h) v id known g = rw h g
    kitty_step (unpriced who i o x w h) v id known g = rw h g
    kitty_step (sold i buyer seller price o x w p c d h) v id known g = rw h g

    -- Over a lawful currency, a kitty of a sound storage is never changed or removed: after any
    -- history it has the dna and the birth time that it had.
    pub run_keeps_kitty :
        (requests : List (Block × C.Origin × Request)) (s : State C) (id : ℕ) (kitty : Kitty)
        → IsSound s
        → C.storage.get s.kitties id ≡ some kitty
        → C.storage.get (run C requests s).kitties id ≡ some kitty
    run_keeps_kitty requests s id kitty =
        run_inv (λ s. C.storage.get s.kitties id ≡ some kitty)
          (λ block origin q s t r step h g. kitty_step step h.valid id kitty g) requests s
