-- ===== src/Frame/Currency/Ledger.antt =====
-- A currency kept as two functions from accounts to balances: it runs in the tests, and shows that
-- the laws of `Currency` can hold. A call that the account cannot pay fails with 1.
use my_substrate_kitties.Base.{ℕ, ◌+◌, ◌-◌, min, arith, ltb, ◌==◌, if◌then◌else◌}
use my_substrate_kitties.Frame.Currency.{
  Outcome, done, failed, ExistenceRequirement, Currency, IsLawful,
}

pub record Accounts : Type 0 where
  pub free : ℕ → ℕ
  pub reserved : ℕ → ℕ

abbrev shift : ℕ → (ℕ → ℕ) → (ℕ → ℕ) → ℕ → ℕ
shift a change f c = if c == a then change (f c) else f c

abbrev reserve : ℕ → ℕ → Accounts → Outcome × Accounts
reserve a v b = if ltb (b.free a) v then (failed 1, b) else (
  done,
  record { free = shift a (λ x. x - v) b.free; reserved = shift a (λ x. x + v) b.reserved },
)

abbrev unreserve : ℕ → ℕ → Accounts → ℕ × Accounts
unreserve a v b = (
  v - b.reserved a,
  record {
    free = λ c. if c == a then b.free c + min v (b.reserved c) else b.free c;
    reserved = shift a (λ x. x - v) b.reserved;
  },
)

abbrev transfer : ℕ → ℕ → ℕ → ExistenceRequirement → Accounts → Outcome × Accounts
transfer a d v x b =
    if a == d
    then (done, b)
    else if ltb (b.free a) v
    then (failed 1, b)
    else (done, record b { free = shift d (λ y. y + v) (shift a (λ y. y - v) b.free) })

abbrev pub ledger : Currency
ledger = record {
  Balances = Accounts;
  free_balance = λ b a. b.free a;
  reserved_balance = λ b a. b.reserved a;
  reserve = reserve;
  unreserve = unreserve;
  transfer = transfer;
}

pub ledger-IsLawful : IsLawful ledger
ledger-IsLawful = record {
  reserve_failed = λ a v b e h. ground arith;
  reserve_done = λ a v b h. ground arith;
  free-reserve = λ a v b c h. ground arith;
  reserved-reserve = λ a v b c h. ground arith;
  free-unreserve = λ a v b c. ground arith;
  reserved-unreserve = λ a v b c. ground arith;
  transfer_failed = λ a d v x b e h. ground arith;
  transfer_done = λ a d v x b h. ground arith;
  free-transfer = λ a d v b c h. ground arith;
  reserved-transfer = λ a d v b c h. ground arith;
}
