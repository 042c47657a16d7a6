-- ===== src/Kitties/Ordering/Writes.antt =====
-- What the calls of the kitties pallet (`pallets/kitties/src/lib.rs`) write to a storage that shows
-- some prices in another way.
use mathlib.Core.List.Perm
use my_substrate_kitties.Base.{ℕ, List, ◌≡◌, refl, Option, some, [], ◌∷◌, ◌++◌, ap}
use my_substrate_kitties.Frame.Currency.{Outcome, done, failed}
use my_substrate_kitties.Frame.Dispatch.{currency_error, modify}
use my_substrate_kitties.Frame.Dispatch.Agree.{pure-Agrees, throw-Agrees, modify-Agrees}
use my_substrate_kitties.Kitties.Types.{Kitty, Config, State, Event}
use my_substrate_kitties.Kitties.Helpers.{currency_result, try_currency, unreserve}
use my_substrate_kitties.Kitties.Ordering.Offers.{move_last, put}
use my_substrate_kitties.Kitties.Ordering.Unmoved.{Published, Spares, Unmoved, put_again}

module _ (C : Config) (shown : ℕ → Option ℕ → Option ℕ) (more : List Event) where
  pub write_price :
      (i : ℕ) (price : Option ℕ)
      → Spares C shown more i
      → Unmoved C shown more
          (modify λ s. record s { kitties_price = put C i price s.kitties_price })
  write_price i price spared =
      let write = λ (s : State C). record s { kitties_price = put C i price s.kitties_price } in
      modify-Agrees (Published C shown more) write write (λ s t v. record {
        count = v.count;
        kitties = v.kitties;
        owner = v.owner;
        balances = v.balances;
        price = put_again C shown more i price s.kitties_price t.kitties_price spared v.price;
        events = v.events;
      })

  pub write_event :
      (e : Event) → Unmoved C shown more (modify λ s. record s { events = s.events ++ (e ∷ []) })
  write_event e =
      let write = λ (s : State C). record s { events = s.events ++ (e ∷ []) } in
      modify-Agrees (Published C shown more) write write (λ s t v. record {
        count = v.count;
        kitties = v.kitties;
        owner = v.owner;
        balances = v.balances;
        price = v.price;
        events = Perm.trans (Perm.append_right (e ∷ []) v.events) (move_last s.events more e);
      })

  pub write_count :
      (count : ℕ) → Unmoved C shown more (modify λ s. record s { kitties_count = some count })
  write_count count =
      let write = λ (s : State C). record s { kitties_count = some count } in
      modify-Agrees (Published C shown more) write write (λ s t v. record {
        count = refl;
        kitties = v.kitties;
        owner = v.owner;
        balances = v.balances;
        price = v.price;
        events = v.events;
      })

  pub write_kitty :
      (i : ℕ) (kitty : Kitty)
      → Unmoved C shown more (modify λ s. record s { kitties = C.storage.insert i kitty s.kitties })
  write_kitty i kitty =
      let write = λ (s : State C). record s { kitties = C.storage.insert i kitty s.kitties } in
      modify-Agrees (Published C shown more) write write (λ s t v. record {
        count = v.count;
        kitties = ap (λ m. C.storage.insert i kitty m) v.kitties;
        owner = v.owner;
        balances = v.balances;
        price = v.price;
        events = v.events;
      })

  pub write_owner :
      (i who : ℕ)
      → Unmoved C shown more
          (modify λ s. record s { kitties_owner = C.storage.insert i who s.kitties_owner })
  write_owner i who =
      let write =
        λ (s : State C). record s { kitties_owner = C.storage.insert i who s.kitties_owner } in
      modify-Agrees (Published C shown more) write write (λ s t v. record {
        count = v.count;
        kitties = v.kitties;
        owner = ap (λ m. C.storage.insert i who m) v.owner;
        balances = v.balances;
        price = v.price;
        events = v.events;
      })

  pub clear_owner :
      (i : ℕ)
      → Unmoved C shown more
          (modify λ s. record s { kitties_owner = C.storage.remove i s.kitties_owner })
  clear_owner i =
      let write =
        λ (s : State C). record s { kitties_owner = C.storage.remove i s.kitties_owner } in
      modify-Agrees (Published C shown more) write write (λ s t v. record {
        count = v.count;
        kitties = v.kitties;
        owner = ap (λ m. C.storage.remove i m) v.owner;
        balances = v.balances;
        price = v.price;
        events = v.events;
      })

  with_balances :
      (s t : State C)
      → Published C shown more s t
      → (a b : C.currency.Balances) → b ≡ a
      → Published C shown more (record s { balances = a }) (record t { balances = b })
  with_balances s t v a b same = record {
    count = v.count;
    kitties = v.kitties;
    owner = v.owner;
    balances = same;
    price = v.price;
    events = v.events;
  }

  result : (r : Outcome) → Unmoved C shown more (currency_result C r)
  result done = pure-Agrees (Published C shown more) tt
  result (failed e) = throw-Agrees (Published C shown more) (currency_error e)

  pub paying :
      (f : C.currency.Balances → Outcome × C.currency.Balances)
      → Unmoved C shown more (try_currency C f)
  paying f = record {
    at = λ s t v. rw v.balances (
        (result (f s.balances).0).at _ _
          (with_balances s t v (f s.balances).1 (f s.balances).1 refl));
  }

  pub giving_back : (who : ℕ) → Unmoved C shown more (unreserve C who)
  giving_back who =
      let back = λ (b : C.currency.Balances).
        (C.currency.unreserve who C.holding_deposit_for_one_kitty b).1 in
      modify-Agrees (Published C shown more) (λ s. record s { balances = back s.balances })
        (λ t. record t { balances = back t.balances })
        (λ s t v. with_balances s t v _ _ (ap back v.balances))
