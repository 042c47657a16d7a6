-- ===== src/Kitties/Replay.antt =====
-- The events of the kitties pallet (`pallets/kitties/src/lib.rs`) as a log: what a reader of the chain
-- learns of the kitties from the events alone.
use mathlib.Core.List.{foldl, foldl-append}
use my_substrate_kitties.Base.{
  ℕ, ◌+◌, ◌≡◌, refl, Option, none, some, List, [], ◌∷◌, ◌++◌, arith, ◌==◌, if◌then◌else◌,
}
use my_substrate_kitties.Frame.Dispatch.{Result}
use my_substrate_kitties.Frame.Currency.{IsLawful}
use my_substrate_kitties.Kitties.Types.{
  Config, Block, State, Error, Event, kitty_created, kitty_transfered, kitty_born, kitty_abandoned,
  kitty_adopted, kitty_price_set, kitty_price_cleared, kitty_sold, genesis,
}
use my_substrate_kitties.Kitties.Calls.{Request, run}
use my_substrate_kitties.Kitties.History.{genesis-IsSound, run_inv}
use my_substrate_kitties.Kitties.Transition.{
  Transition, refused, payment_kept, created, bred, transfered, abandoned, adopted, priced,
  unpriced, sold, count_of,
}

-- How many kitties there are, whom each belongs to and what it costs.
pub record View : Type 0 where
  pub count : ℕ
  pub owner : ℕ → Option ℕ
  pub price : ℕ → Option ℕ

abbrev update : ℕ → Option ℕ → (ℕ → Option ℕ) → ℕ → Option ℕ
update id new f j = if j == id then new else f j

abbrev read_event : View → Event → View
read_event v (kitty_created id) = record v { count = v.count + 1 }
read_event v (kitty_born id id1 id2) = record v { count = v.count + 1 }
read_event v (kitty_transfered id from to) = record v { owner = update id (some to) v.owner }
read_event v (kitty_abandoned id) = record v {
  owner = update id none v.owner;
  price = update id none v.price;
}
read_event v (kitty_adopted id who) = record v { owner = update id (some who) v.owner }
read_event v (kitty_price_set id price) = record v { price = update id (some price) v.price }
read_event v (kitty_price_cleared id) = record v { price = update id none v.price }
read_event v (kitty_sold id from to price) = record v {
  owner = update id (some to) v.owner;
  price = update id none v.price;
}

unfoldable pub replay : List Event → View
replay = foldl read_event (record { count = 0; owner = λ id. none; price = λ id. none })

replay-append :
    (log : List Event) (e : Event) → replay (log ++ (e ∷ [])) ≡ read_event (replay log) e
unfolding replay
replay-append log e = rw foldl-append

-- A view shows the count, the owners and the prices of a storage.
pub record Shows (C : Config) (v : View) (s : State C) : Type 0 where
  pub count : v.count ≡ count_of s.kitties_count
  pub owner : (id : ℕ) → v.owner id ≡ C.storage.get s.kitties_owner id
  pub price : (id : ℕ) → v.price id ≡ C.storage.get s.kitties_price id

module _ (C : Config) where
  abbrev IsLogged : State C → Type 0
  IsLogged s = Shows C (replay s.events) s

  module _ {block : Block} {origin : C.Origin} {s t : State C} where
    step-IsLogged :
        {q : Request} {r : Result Error (Unit {0})}
        → Transition C block origin s t q r
        → IsLogged s
        → IsLogged t
    step-IsLogged (refused e h) v = rw h v
    step-IsLogged (payment_kept i buyer seller price e o w p c f h) v =
        rw h (record { count = v.count; owner = v.owner; price = v.price })
    step-IsLogged (created who i kitty o n k h) v =
        rw (h, replay-append s.events (kitty_created i))
          (record { count = omega (arith, v.count, n.0); owner = v.owner; price = v.price })
    step-IsLogged (bred who i id1 id2 kitty k1 k2 o e1 e2 x n k h) v =
        rw (h, replay-append s.events (kitty_born i id1 id2))
          (record { count = omega (arith, v.count, n.0); owner = v.owner; price = v.price })
    step-IsLogged (transfered who i new_owner o x w c h) v =
        rw (h, replay-append s.events (kitty_transfered i who new_owner))
          (record {
            count = v.count;
            owner = λ id.
                ground (arith, v.owner id, C.storage.get-insert s.kitties_owner i new_owner id);
            price = v.price;
          })
    step-IsLogged (abandoned who i o x w h) v =
        rw (h, replay-append s.events (kitty_abandoned i))
          (record {
            count = v.count;
            owner = λ id. ground (arith, v.owner id, C.storage.get-remove s.kitties_owner i id);
            price = λ id. ground (arith, v.price id, C.storage.get-remove s.kitties_price i id);
          })
    step-IsLogged (adopted who i o x w c h) v =
        rw (h, replay-append s.events (kitty_adopted i who))
          (record {
            count = v.count;
            owner = λ id. ground (arith, v.owner id, C.storage.get-insert s.kitties_owner i who id);
            price = v.price;
          })
    step-IsLogged (priced who i price o x w h) v =
        rw (h, replay-append s.events (kitty_price_set i price))
          (record {
            count = v.count;
            owner = v.owner;
            price =
                λ id. ground (arith, v.price id, C.storage.get-insert s.kitties_price i price id);
          })
    step-IsLogged (unpriced who i o x w h) v =
        rw (h, replay-append s.events (kitty_price_cleared i))
          (record {
            count = v.count;
            owner = v.owner;
            price = λ id. ground (arith, v.price id, C.storage.get-remove s.kitties_price i id);
          })
    step-IsLogged (sold i buyer seller price o x w p c f h) v =
        rw (h, replay-append s.events (kitty_sold i seller buyer price))
          (record {
            count = v.count;
            owner =
                λ id. ground (arith, v.owner id, C.storage.get-insert s.kitties_owner i buyer id);
            price = λ id. ground (arith, v.price id, C.storage.get-remove s.kitties_price i id);
          })

  module _ (L : IsLawful C.currency) where
    -- Over a lawful currency, after any history that starts from the empty storage, failed calls
    -- included, replaying the deposited events shows the stored count, owners and prices.
    pub run-Shows :
        (requests : List (Block × C.Origin × Request)) (b : C.currency.Balances)
        → let t = run C requests (genesis C b) in Shows C (replay t.events) t
    unfolding replay
    run-Shows requests b =
        run_inv C L IsLogged (λ block origin q s t r step h v. step-IsLogged step v) requests _
          (genesis-IsSound C b)
          (record {
            count = refl;
            owner = λ id. ground (arith, C.storage.get-empty {V = ℕ} id);
            price = λ id. ground (arith, C.storage.get-empty {V = ℕ} id);
          })
