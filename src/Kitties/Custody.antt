-- ===== src/Kitties/Custody.antt =====
-- Adopting and abandoning kitties of the pallet (`pallets/kitties/src/lib.rs`).
use my_substrate_kitties.Base.{ℕ, ◌≡◌, some, none, arith}
use my_substrate_kitties.Frame.Dispatch.{ok}
use my_substrate_kitties.Frame.Currency.{IsLawful}
use my_substrate_kitties.Kitties.Types.{Config, State}
use my_substrate_kitties.Kitties.Calls.{adopt, abandon}
use my_substrate_kitties.Kitties.Transition.{deposited}

module _ (C : Config) (L : IsLawful C.currency) where
  open C use {holding_deposit_for_one_kitty as d}

  -- Over a lawful currency: when a kitty without a price has been adopted, its new owner can
  -- abandon it, and then all balances, free and reserved, all owners and all prices are what they
  -- were before the adoption.
  pub abandon-adopt :
      (origin : C.Origin) (id who : ℕ) (s : State C)
      → C.ensure_signed origin ≡ some who
      → (adopt C origin id s).0 ≡ ok tt
      → C.storage.get s.kitties_price id ≡ none
      → let (r, t) = abandon C origin id (adopt C origin id s).1 in
        (r ≡ ok tt)
        × ((j : ℕ) → C.storage.get t.kitties_owner j ≡ C.storage.get s.kitties_owner j)
        × ((j : ℕ) → C.storage.get t.kitties_price j ≡ C.storage.get s.kitties_price j)
        × ((a : ℕ) → C.currency.free_balance t.balances a ≡ C.currency.free_balance s.balances a)
        × ((a : ℕ)
            → C.currency.reserved_balance t.balances a ≡ C.currency.reserved_balance s.balances a)
  unfolding abandon adopt
  abandon-adopt origin id who s o h p =
      let owners = C.storage.insert id who s.kitties_owner in
      let held = C.storage.get-insert s.kitties_owner id who in
      let freed = C.storage.get-remove owners id in
      let b = deposited C who s.balances in
      (
        ground (arith, held id),
        λ j.
            ground (arith, held id, held j, freed j, C.storage.contains_key_lem s.kitties_owner id),
        λ j. ground (arith, held id, C.storage.get-remove s.kitties_price id j),
        λ a. ground (
          arith,
          held id,
          L.reserve_done who d s.balances,
          L.free-reserve who d s.balances a,
          L.reserved-reserve who d s.balances a,
          L.free-unreserve who d b a,
        ),
        λ a.
            ground (
              arith,
              held id,
              L.reserved-reserve who d s.balances a,
              L.reserved-unreserve who d b a,
            ),
      )
