-- ===== src/Kitties/Sale.antt =====
-- `buy` and the prices of the kitties pallet (`pallets/kitties/src/lib.rs`).
use my_substrate_kitties.Base.{ℕ, ◌+◌, ◌≤◌, ◌≡◌, ◌≢◌, some, none, arith}
use my_substrate_kitties.Frame.Dispatch.{ok, err, currency_error}
use my_substrate_kitties.Frame.Currency.{IsLawful, keep_alive, failed}
use my_substrate_kitties.Kitties.Types.{Config, State}
use my_substrate_kitties.Kitties.Calls.{buy, transfer}
use my_substrate_kitties.Kitties.Deposits.{reserved}
use my_substrate_kitties.Kitties.Transition.{deposited, paid, Owns, Exists, CanPay, CanDeposit}

abbrev pub free : (C : Config) → State C → ℕ → ℕ
free C s a = C.currency.free_balance s.balances a

module _ (C : Config) where
  open C use {holding_deposit_for_one_kitty as d}

  module _ (L : IsLawful C.currency) (origin : C.Origin) (s : State C)
      (id buyer seller price : ℕ) where
    -- Over a lawful currency, a kitty for sale is bought by an account other than its owner that
    -- can pay the price and then the deposit, from an owner with a deposit in reserve: the call
    -- succeeds, the buyer owns the kitty and its price is cleared; a price and a deposit leave
    -- the buyer's free balance, as much reaches the seller's, and the deposit is now reserved of
    -- the buyer and no longer of the seller.
    pub buy_lem :
        C.ensure_signed origin ≡ some buyer
        → Exists C s id
        → Owns C s seller id
        → C.storage.get s.kitties_price id ≡ some price
        → buyer ≢ seller
        → CanPay C buyer seller price s.balances
        → CanDeposit C buyer (paid C buyer seller price s.balances)
        → d ≤ reserved C s seller
        → let (r, t) = buy C origin id s in
          (r ≡ ok tt)
          × Owns C t buyer id
          × (C.storage.get t.kitties_price id ≡ none)
          × (free C t buyer + price + d ≡ free C s buyer)
          × (free C t seller ≡ free C s seller + price + d)
          × (reserved C t buyer ≡ reserved C s buyer + d)
          × (reserved C t seller + d ≡ reserved C s seller)
    unfolding buy
    buy_lem o x w p ne c f b =
        let paid_b = paid C buyer seller price s.balances in
        let held_b = deposited C buyer paid_b in
        (
          ground arith,
          ground (arith, C.storage.get-insert s.kitties_owner id buyer id),
          ground (arith, C.storage.get-remove s.kitties_price id id),
          ground (
            arith,
            L.transfer_done buyer seller price keep_alive s.balances,
            L.reserve_done buyer d paid_b,
            L.free-transfer buyer seller price s.balances buyer,
            L.free-reserve buyer d paid_b buyer,
            L.free-unreserve seller d held_b buyer,
          ),
          ground (
            arith,
            L.free-transfer buyer seller price s.balances seller,
            L.free-reserve buyer d paid_b seller,
            L.reserved-reserve buyer d paid_b seller,
            L.reserved-transfer buyer seller price s.balances seller,
            L.free-unreserve seller d held_b seller,
          ),
          ground (
            arith,
            L.reserved-transfer buyer seller price s.balances buyer,
            L.reserved-reserve buyer d paid_b buyer,
            L.reserved-unreserve seller d held_b buyer,
          ),
          ground (
            arith,
            L.reserved-transfer buyer seller price s.balances seller,
            L.reserved-reserve buyer d paid_b seller,
            L.reserved-unreserve seller d held_b seller,
          ),
        )

    -- Over a lawful currency, if a buyer other than the owner of a kitty for sale can pay the
    -- price, but then the deposit cannot be reserved, the call fails with the error of the
    -- currency; the price has moved from the buyer to the seller all the same, and the seller
    -- still owns the kitty and offers it at that price.
    pub buy_keeps_payment :
        {e : ℕ}
        → C.ensure_signed origin ≡ some buyer
        → Exists C s id
        → Owns C s seller id
        → C.storage.get s.kitties_price id ≡ some price
        → buyer ≢ seller
        → CanPay C buyer seller price s.balances
        → (C.currency.reserve buyer d (paid C buyer seller price s.balances)).0 ≡ failed e
        → let (r, t) = buy C origin id s in
          (r ≡ err (currency_error e))
          × Owns C t seller id
          × (C.storage.get t.kitties_price id ≡ some price)
          × (free C t buyer + price ≡ free C s buyer)
          × (free C t seller ≡ free C s seller + price)
    unfolding buy
    buy_keeps_payment {e} o x w p ne c f =
        let same = L.reserve_failed buyer d (paid C buyer seller price s.balances) e f in
        let moved = L.transfer_done buyer seller price keep_alive s.balances in
        let fallen = L.free-transfer buyer seller price s.balances buyer in
        let risen = L.free-transfer buyer seller price s.balances seller in
        (
          ground arith,
          ground arith,
          ground arith,
          ground (arith, same, moved, fallen),
          ground (arith, same, risen),
        )

  -- A kitty that is given away stays for sale at the price that its former owner set: after a
  -- successful `transfer` every price is what it was.
  pub transfer_keeps_price :
      (origin : C.Origin) (id new_owner : ℕ) (s : State C)
      → (transfer C origin id new_owner s).0 ≡ ok tt
      → (j : ℕ)
      → let t = (transfer C origin id new_owner s).1 in
        Owns C t new_owner id × (C.storage.get t.kitties_price j ≡ C.storage.get s.kitties_price j)
  unfolding transfer
  transfer_keeps_price origin id new_owner s h j =
      ground (arith, C.storage.get-insert s.kitties_owner id new_owner id)

  -- A kitty that has a price when it is given away can be bought from its new owner at that
  -- price, by any signer who can pay it and the deposit.
  pub transfer_then_buy :
      (giver taker : C.Origin) (id new_owner buyer price : ℕ) (s : State C)
      → (transfer C giver id new_owner s).0 ≡ ok tt
      → C.storage.get s.kitties_price id ≡ some price
      → C.ensure_signed taker ≡ some buyer
      → CanPay C buyer new_owner price (transfer C giver id new_owner s).1.balances
      → CanDeposit C buyer
          (paid C buyer new_owner price (transfer C giver id new_owner s).1.balances)
      → let (r, u) = buy C taker id (transfer C giver id new_owner s).1 in
        (r ≡ ok tt) × Owns C u buyer id
  unfolding transfer buy
  transfer_then_buy giver taker id new_owner buyer price s h p o c f = (
    ground (arith, C.storage.get-insert s.kitties_owner id new_owner id),
    ground (
      arith,
      C.storage.get-insert s.kitties_owner id new_owner id,
      C.storage.get-insert (transfer C giver id new_owner s).1.kitties_owner id buyer id,
    ),
  )
