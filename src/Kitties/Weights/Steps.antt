-- ===== src/Kitties/Weights/Steps.antt =====
-- What the steps of the calls of the kitties pallet (`pallets/kitties/src/lib.rs`) cost: the tests, the
-- calls of the currency and the writes.
use my_substrate_kitties.Base.{ℕ, Bool, Option, ◌==◌, refl, ◌+◌, ◌≡◌, arith, inl, inr, some}
use my_substrate_kitties.Frame.Dispatch.{
  gets, some_or_fail, signed_by, modify, ensure, pure, unwrap,
}
use my_substrate_kitties.Frame.Currency.{Outcome, Outcome-cases}
use my_substrate_kitties.Frame.Dispatch.Cost.{
  Spends, Pays, Pays-Spends, pure-Pays, modify-Pays, ensure-Spends, some_or_fail-Spends,
  signed_by-Spends, unwrap-Spends, gets-Spends, ◌then◌,
}
use my_substrate_kitties.Kitties.Types.{
  Config, State, Error, kitty_not_exists, not_owner_of_kitty, Event, Kitty,
}
use my_substrate_kitties.Kitties.Helpers.{Call, ensure_owner, try_currency, unreserve}
use my_substrate_kitties.Kitties.Calls.{ensure_exists, deposit_event}
use my_substrate_kitties.Kitties.Weights.{metered, map_writes, moves}

module _ (C : Config) where
  abbrev pub D : Config
  D = metered C

  abbrev pub Costs : {A : Type 0} → ℕ → ℕ → ℕ → Call D A → Type 0
  Costs n k f m = Spends (map_writes C) (moves C) n k f m

  abbrev pub Writes : {A : Type 0} → ℕ → ℕ → Call D A → Type 0
  Writes n k m = Pays (map_writes C) (moves C) n k m

  abbrev pub finally : {A : Type 0} {n k : ℕ} {m : Call D A} → Writes n k m → Costs n k 0 m
  finally h = Pays-Spends (map_writes C) (moves C) 0 h

  pub signed : (o : Option ℕ) → Costs 0 0 0 (signed_by o)
  signed o = signed_by-Spends (map_writes C) (moves C) o

  pub checked : (b : Bool) (e : Error) → Costs 0 0 0 (ensure b e)
  checked b e = ensure-Spends (map_writes C) (moves C) b e

  pub found : (o : Option ℕ) (e : Error) → Costs 0 0 0 (some_or_fail o e)
  found o e = some_or_fail-Spends (map_writes C) (moves C) o e

  pub read : {A : Type 0} (g : State D → A) → Costs 0 0 0 (gets g)
  read g = gets-Spends (map_writes C) (moves C) g

  pub unwrapped : (o : Option Kitty) → Costs 0 0 0 (unwrap o)
  unwrapped o = unwrap-Spends (map_writes C) (moves C) o

  pub returning : {A : Type 0} (a : A) → Writes 0 0 (pure a)
  returning a = pure-Pays (map_writes C) (moves C) a

  pub exists : (id : ℕ) → Costs 0 0 0 (ensure_exists D id)
  exists id = read _ then λ known. checked known kitty_not_exists

  pub owned_by : (id who : ℕ) → Costs 0 0 0 (ensure_owner D id who)
  unfolding ensure_owner
  owned_by id who = read _ then (λ o. found o not_owner_of_kitty) then λ owner.
      checked (who == owner) not_owner_of_kitty

  pub paying :
      (f : D.currency.Balances → Outcome × D.currency.Balances)
      → ((b : D.currency.Balances) → (f b).1.0 ≡ b.0 + 1)
      → Costs 0 1 1 (try_currency D f)
  paying f h = record {
    at = λ s. elim (Outcome-cases (f s.balances).0) [
      | inl e ↦ rw e (ground arith, h s.balances)
      | inr (code, e) ↦ rw e (ground arith, ground (arith, h s.balances))
    ];
  }

  pub depositing :
      (who : ℕ)
      → Costs 0 1 1 (try_currency D (D.currency.reserve who D.holding_deposit_for_one_kitty))
  depositing who = paying _ (λ b. refl)

  pub giving_back : (who : ℕ) → Writes 0 1 (unreserve D who)
  giving_back who = modify-Pays (map_writes C) (moves C) _ (λ s. (omega arith, refl))

  pub event : (e : Event) → Writes 0 0 (deposit_event D e)
  event e = modify-Pays (map_writes C) (moves C) _ (λ s. (omega arith, omega arith))

  pub write_owner :
      (id who : ℕ)
      → Writes 1 0
          (modify λ s. record s { kitties_owner = D.storage.insert id who s.kitties_owner })
  write_owner id who = modify-Pays (map_writes C) (moves C) _ (λ s. (omega arith, omega arith))

  pub clear_owner :
      (id : ℕ)
      → Writes 1 0 (modify λ s. record s { kitties_owner = D.storage.remove id s.kitties_owner })
  clear_owner id = modify-Pays (map_writes C) (moves C) _ (λ s. (omega arith, omega arith))

  pub write_price :
      (id price : ℕ)
      → Writes 1 0
          (modify λ s. record s { kitties_price = D.storage.insert id price s.kitties_price })
  write_price id price = modify-Pays (map_writes C) (moves C) _ (λ s. (omega arith, omega arith))

  pub remove_price :
      (id : ℕ)
      → Writes 1 0 (modify λ s. record s { kitties_price = D.storage.remove id s.kitties_price })
  remove_price id = modify-Pays (map_writes C) (moves C) _ (λ s. (omega arith, omega arith))

  pub write_kitty :
      (id : ℕ) (kitty : Kitty)
      → Writes 1 0 (modify λ s. record s { kitties = D.storage.insert id kitty s.kitties })
  write_kitty id kitty = modify-Pays (map_writes C) (moves C) _ (λ s. (omega arith, omega arith))

  pub write_count : (count : ℕ) → Writes 0 0 (modify λ s. record s { kitties_count = some count })
  write_count count = modify-Pays (map_writes C) (moves C) _ (λ s. (omega arith, omega arith))
