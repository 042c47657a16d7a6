-- ===== src/Frame/Currency.antt =====
-- `frame_support::traits::{Currency, ReservableCurrency}` as an interface: the operations that
-- `pallets/kitties/src/lib.rs` calls on `T::Currency`, and what their documentation says of them.
pub mod Ledger
pub mod Counting
use my_substrate_kitties.Base.{ℕ, ◌+◌, ◌-◌, ◌≤◌, min, ◌≡◌, refl, ◌⊎◌, inl, inr, ◌==◌, if◌then◌else◌}

-- The `DispatchResult` of a currency: done, or refused with an error of its own.
pub data Outcome : Type 0 where
  done : Outcome
  failed : ℕ → Outcome

pub Outcome-cases : (o : Outcome) → (o ≡ done) ⊎ ((e : ℕ) × (o ≡ failed e))
Outcome-cases done = inl refl
Outcome-cases (failed e) = inr (e, refl)

pub data ExistenceRequirement : Type 0 where
  keep_alive allow_death : ExistenceRequirement

-- Account ids and balances are numbers. `free_balance` and `reserved_balance` observe a state.
pub record Currency : Type 1 where
  pub Balances : Type 0
  pub free_balance : Balances → ℕ → ℕ
  pub reserved_balance : Balances → ℕ → ℕ
  pub reserve : ℕ → ℕ → Balances → Outcome × Balances
  -- returns the part that was not reserved
  pub unreserve : ℕ → ℕ → Balances → ℕ × Balances
  pub transfer : ℕ → ℕ → ℕ → ExistenceRequirement → Balances → Outcome × Balances

-- What a client may rely on. A refused call moves nothing. `reserve` moves the value from the free
-- to the reserved balance of the account, `unreserve` moves back as much of it as is reserved, and
-- `transfer` moves free balance between two accounts and leaves every reserved balance alone.
pub record IsLawful (K : Currency) : Type 0 where
  pub reserve_failed :
      (a v : ℕ) (b : K.Balances) (e : ℕ) → (K.reserve a v b).0 ≡ failed e → (K.reserve a v b).1 ≡ b
  pub reserve_done :
      (a v : ℕ) (b : K.Balances) → (K.reserve a v b).0 ≡ done → v ≤ K.free_balance b a
  pub free-reserve :
      (a v : ℕ) (b : K.Balances) (c : ℕ)
      → (K.reserve a v b).0 ≡ done
      → K.free_balance (K.reserve a v b).1 c
        ≡ (if c == a then K.free_balance b c - v else K.free_balance b c)
  pub reserved-reserve :
      (a v : ℕ) (b : K.Balances) (c : ℕ)
      → (K.reserve a v b).0 ≡ done
      → K.reserved_balance (K.reserve a v b).1 c
        ≡ (if c == a then K.reserved_balance b c + v else K.reserved_balance b c)
  pub free-unreserve :
      (a v : ℕ) (b : K.Balances) (c : ℕ)
      → K.free_balance (K.unreserve a v b).1 c ≡ (
          if c == a
          then K.free_balance b c + min v (K.reserved_balance b c)
          else K.free_balance b c)
  pub reserved-unreserve :
      (a v : ℕ) (b : K.Balances) (c : ℕ)
      → K.reserved_balance (K.unreserve a v b).1 c
        ≡ (if c == a then K.reserved_balance b c - v else K.reserved_balance b c)
  pub transfer_failed :
      (a d v : ℕ) (x : ExistenceRequirement) (b : K.Balances) (e : ℕ)
      → (K.transfer a d v x b).0 ≡ failed e
      → (K.transfer a d v x b).1 ≡ b
  pub transfer_done :
      (a d v : ℕ) (x : ExistenceRequirement) (b : K.Balances)
      → (K.transfer a d v x b).0 ≡ done
      → (if a == d then 0 else v) ≤ K.free_balance b a
  pub free-transfer :
      (a d v : ℕ) (b : K.Balances) (c : ℕ)
      → (K.transfer a d v keep_alive b).0 ≡ done
      → K.free_balance (K.transfer a d v keep_alive b).1 c ≡ (
          if a == d
          then K.free_balance b c
          else if c == a
          then K.free_balance b c - v
          else if c == d
          then K.free_balance b c + v
          else K.free_balance b c)
  pub reserved-transfer :
      (a d v : ℕ) (b : K.Balances) (c : ℕ)
      → (K.transfer a d v keep_alive b).0 ≡ done
      → K.reserved_balance (K.transfer a d v keep_alive b).1 c ≡ K.reserved_balance b c
