-- ===== src/Kitties/Population.antt =====
-- Births in the kitties pallet (`pallets/kitties/src/lib.rs`): the ids that its events announce.
use my_substrate_kitties.Base.{
  ℕ, zero, suc, ◌+◌, ◌<◌, ◌^◌, ◌≡◌, refl, ap, List, [], ◌∷◌, ◌++◌, arith, length, length-append,
}
use mathlib.Core.List.{append-nil}
use my_substrate_kitties.Frame.Dispatch.{Result}
use my_substrate_kitties.Frame.Currency.{IsLawful}
use my_substrate_kitties.Kitties.Types.{
  Config, Block, State, Error, Event, kitty_created, kitty_transfered, kitty_born, kitty_abandoned,
  kitty_adopted, kitty_price_set, kitty_price_cleared, kitty_sold, genesis,
}
use my_substrate_kitties.Kitties.Calls.{Request, run}
use my_substrate_kitties.Kitties.History.{genesis-IsSound, run_inv, run-IsSound}
use my_substrate_kitties.Kitties.Transition.{
  Transition, refused, payment_kept, created, bred, transfered, abandoned, adopted, priced,
  unpriced, sold, count_of,
}

-- The ids of the kitties that a log announces, in its order.
unfoldable pub births : List Event → List ℕ
births [] = []
births (kitty_created id ∷ log) = id ∷ births log
births (kitty_born id id1 id2 ∷ log) = id ∷ births log
births (_ ∷ log) = births log

-- The numbers from 1 to `n`.
unfoldable pub numbers_upto : ℕ → List ℕ
numbers_upto zero = []
numbers_upto (suc n) = numbers_upto n ++ (suc n ∷ [])

length-numbers_upto : (n : ℕ) → length (numbers_upto n) ≡ n
unfolding numbers_upto
length-numbers_upto zero = refl
length-numbers_upto (suc n) =
    omega (arith, length-append (numbers_upto n) (suc n ∷ []), length-numbers_upto n)

births-append : (xs ys : List Event) → births (xs ++ ys) ≡ births xs ++ births ys
unfolding births
births-append [] ys = refl
births-append (kitty_created id ∷ xs) ys = ap (λ l. id ∷ l) (births-append xs ys)
births-append (kitty_born id id1 id2 ∷ xs) ys = ap (λ l. id ∷ l) (births-append xs ys)
births-append (kitty_transfered id from to ∷ xs) ys = births-append xs ys
births-append (kitty_abandoned id ∷ xs) ys = births-append xs ys
births-append (kitty_adopted id who ∷ xs) ys = births-append xs ys
births-append (kitty_price_set id price ∷ xs) ys = births-append xs ys
births-append (kitty_price_cleared id ∷ xs) ys = births-append xs ys
births-append (kitty_sold id from to price ∷ xs) ys = births-append xs ys

module _ (C : Config) where
  abbrev IsCensus : State C → Type 0
  IsCensus s = births s.events ≡ numbers_upto (count_of s.kitties_count)

  -- A birth adds the next number.
  birth-IsCensus :
      (s : State C) (id : ℕ) (e : Event)
      → IsCensus s
      → id ≡ count_of s.kitties_count + 1
      → births (e ∷ []) ≡ id ∷ []
      → births (s.events ++ (e ∷ [])) ≡ numbers_upto id
  unfolding numbers_upto
  birth-IsCensus s id e v next one =
      let next' : id ≡ suc (count_of s.kitties_count) = omega (arith, next) in
      rw (births-append s.events (e ∷ []), one, v, next') refl

  -- Another event adds none.
  other-IsCensus :
      (s : State C) (e : Event)
      → IsCensus s
      → births (e ∷ []) ≡ []
      → births (s.events ++ (e ∷ [])) ≡ numbers_upto (count_of s.kitties_count)
  other-IsCensus s e v silent = rw (births-append s.events (e ∷ []), silent, v) (append-nil _)

  module _ {block : Block} {origin : C.Origin} where
    step-IsCensus :
        {s t : State C} {q : Request} {r : Result Error (Unit {0})}
        → Transition C block origin s t q r
        → IsCensus s
        → IsCensus t
    unfolding births
    step-IsCensus {s} (refused e h) v = rw h v
    step-IsCensus {s} (payment_kept i buyer seller price e o w p c f h) v = rw h v
    step-IsCensus {s} (created who i kitty o n k h) v = rw h (birth-IsCensus s i _ v n.0 refl)
    step-IsCensus {s} (bred who i id1 id2 kitty k1 k2 o e1 e2 x n k h) v =
        rw h (birth-IsCensus s i _ v n.0 refl)
    step-IsCensus {s} (transfered who i new_owner o x w c h) v = rw h (other-IsCensus s _ v refl)
    step-IsCensus {s} (abandoned who i o x w h) v = rw h (other-IsCensus s _ v refl)
    step-IsCensus {s} (adopted who i o x w c h) v = rw h (other-IsCensus s _ v refl)
    step-IsCensus {s} (priced who i price o x w h) v = rw h (other-IsCensus s _ v refl)
    step-IsCensus {s} (unpriced who i o x w h) v = rw h (other-IsCensus s _ v refl)
    step-IsCensus {s} (sold i buyer seller price o x w p c f h) v = rw h (other-IsCensus s _ v refl)

  -- Over a lawful currency, after any history that starts from the empty storage the events announce
  -- the births of the kitties 1, 2 and so on up to the stored count, each once and in this order; and
  -- there are less than 2 ^ 32, so no history has more births.
  pub run-births :
      (L : IsLawful C.currency) (requests : List (Block × C.Origin × Request))
      (b : C.currency.Balances)
      → let t = run C requests (genesis C b) in
        (births t.events ≡ numbers_upto (count_of t.kitties_count))
        × (length (births t.events) < 2 ^ 32)
  unfolding births numbers_upto
  run-births L requests b =
      let counted =
        run_inv C L IsCensus (λ block origin q s t r step h v. step-IsCensus step v) requests _
          (genesis-IsSound C b) refl in
      (
        counted,
        omega (
          arith,
          (run-IsSound C L requests _ (genesis-IsSound C b)).valid.counted,
          ap length counted,
          length-numbers_upto (count_of (run C requests (genesis C b)).kitties_count),
        ),
      )
