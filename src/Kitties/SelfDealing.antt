-- ===== src/Kitties/SelfDealing.antt =====
-- An account on both sides of a call of the kitties pallet (`pallets/kitties/src/lib.rs`): a gift to
-- oneself, and the purchase of one's own kitty.
use my_substrate_kitties.Base.{ℕ, ◌≡◌, ◌↔◌, some, none, arith, inl, inr}
use my_substrate_kitties.Frame.Dispatch.{ok}
use my_substrate_kitties.Frame.Currency.{Outcome-cases, IsLawful, keep_alive}
use my_substrate_kitties.Kitties.Types.{Config, State}
use my_substrate_kitties.Kitties.Calls.{transfer, buy}
use my_substrate_kitties.Kitties.Transition.{deposited, paid, Owns, Exists, CanPay, CanDeposit}

module _ (C : Config) where
  -- Owners and balances are as they were.
  pub record IsUnmoved (s t : State C) : Type 0 where
    pub owners : (j : ℕ) → C.storage.get t.kitties_owner j ≡ C.storage.get s.kitties_owner j
    pub free : (a : ℕ) → C.currency.free_balance t.balances a ≡ C.currency.free_balance s.balances a
    pub reserved :
        (a : ℕ)
        → C.currency.reserved_balance t.balances a ≡ C.currency.reserved_balance s.balances a

module _ (C : Config) (L : IsLawful C.currency) (origin : C.Origin) (s : State C) (id who : ℕ)
    (o : C.ensure_signed origin ≡ some who) (x : Exists C s id) (w : Owns C s who id) where
  open C use {holding_deposit_for_one_kitty as d}

  -- Over a lawful currency, an owner who gives a kitty to oneself needs a second deposit for it, and
  -- with that nothing moves: the call succeeds exactly if the deposit can be reserved, and owners and
  -- balances are then what they were.
  pub transfer_to_oneself :
      let (r, t) = transfer C origin id who s in
      ((r ≡ ok tt) ↔ CanDeposit C who s.balances) × IsUnmoved C s t
  unfolding transfer
  transfer_to_oneself = elim (Outcome-cases (C.currency.reserve who d s.balances).0) [
    | inl held ↦
        let held_b = deposited C who s.balances in
        (
          (λ h. held, λ h. ground arith),
          record {
            owners = λ j. ground (arith, C.storage.get-insert s.kitties_owner id who j);
            free = λ a. ground (
              arith,
              L.reserve_done who d s.balances,
              L.free-reserve who d s.balances a,
              L.reserved-reserve who d s.balances a,
              L.free-unreserve who d held_b a,
            );
            reserved = λ a.
                ground (
                  arith,
                  L.reserved-reserve who d s.balances a,
                  L.reserved-unreserve who d held_b a,
                );
          },
        )
    | inr (e, refused) ↦
        let same = L.reserve_failed who d s.balances e refused in
        (
          (λ h. absurd (ground arith), λ h. absurd (ground arith)),
          record {
            owners = λ j. ground arith;
            free = λ a. ground (arith, same);
            reserved = λ a. ground (arith, same);
          },
        )
  ]

  -- Over a lawful currency, an owner can buy the own kitty for sale at any price that the currency
  -- would transfer, if a second deposit can be reserved: the price is cleared, and owners and balances
  -- are what they were.
  pub buy_from_oneself :
      (price : ℕ)
      → C.storage.get s.kitties_price id ≡ some price
      → CanPay C who who price s.balances
      → CanDeposit C who (paid C who who price s.balances)
      → let (r, t) = buy C origin id s in
        (r ≡ ok tt) × (C.storage.get t.kitties_price id ≡ none) × IsUnmoved C s t
  unfolding buy
  buy_from_oneself price p c f =
      let paid_b = paid C who who price s.balances in
      let held_b = deposited C who paid_b in
      (
        ground arith,
        ground (arith, C.storage.get-remove s.kitties_price id id),
        record {
          owners = λ j. ground (arith, C.storage.get-insert s.kitties_owner id who j);
          free = λ a. ground (
            arith,
            L.transfer_done who who price keep_alive s.balances,
            L.reserve_done who d paid_b,
            L.free-transfer who who price s.balances a,
            L.free-reserve who d paid_b a,
            L.reserved-reserve who d paid_b a,
            L.free-unreserve who d held_b a,
          );
          reserved = λ a. ground (
            arith,
            L.reserved-transfer who who price s.balances a,
            L.reserved-reserve who d paid_b a,
            L.reserved-unreserve who d held_b a,
          );
        },
      )
