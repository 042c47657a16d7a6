-- ===== src/Kitties/Audit/Conservation.antt =====
-- No history of the kitties pallet (`pallets/kitties/src/lib.rs`) makes or destroys money.
use my_substrate_kitties.Base.{ℕ, ◌+◌, ◌≡◌, List, [], ◌∷◌, ◌++◌, arith, ◌==◌, if◌then◌else◌, All}
use my_substrate_kitties.Frame.Currency.{IsLawful}
use my_substrate_kitties.Kitties.Types.{Config, Block, genesis}
use my_substrate_kitties.Kitties.Calls.{Request, run}
use my_substrate_kitties.Kitties.History.{genesis-IsSound}
use my_substrate_kitties.Kitties.Wealth.{wealth}
use my_substrate_kitties.Kitties.Audit.Payments.{
  Payment, paid_by, paid_to, paid_by-append, paid_to-append, sales,
}
use my_substrate_kitties.Kitties.Audit.Histories.{lost, run-wealth}

-- A sum over accounts, and how often an account stands among them.
abbrev pub total : (ℕ → ℕ) → List ℕ → ℕ
total f [] = 0
total f (a ∷ accounts) = f a + total f accounts

abbrev times : ℕ → List ℕ → ℕ
times a [] = 0
times a (b ∷ accounts) = (if a == b then 1 else 0) + times a accounts

-- Payer and payee of each payment stand once among the accounts.
abbrev Covers : List ℕ → List Payment → Type 0
Covers accounts ps = All (λ p. (times p.payer accounts ≡ 1) × (times p.payee accounts ≡ 1)) ps

abbrev share : ℕ → ℕ → ℕ → ℕ
share who amount a = if who == a then amount else 0

total-add :
    (f g : ℕ → ℕ) (accounts : List ℕ)
    → total (λ a. f a + g a) accounts ≡ total f accounts + total g accounts
total-add f g [] = omega arith
total-add f g (a ∷ accounts) = omega (arith, total-add f g accounts)

total-ext :
    (f g : ℕ → ℕ) (accounts : List ℕ) → ((a : ℕ) → f a ≡ g a) → total f accounts ≡ total g accounts
total-ext f g [] same = omega arith
total-ext f g (a ∷ accounts) same = omega (arith, same a, total-ext f g accounts same)

absent_share :
    (who amount : ℕ) (accounts : List ℕ)
    → times who accounts ≡ 0
    → total (share who amount) accounts ≡ 0
absent_share who amount [] h = omega arith
absent_share who amount (a ∷ accounts) h = ground (arith, absent_share who amount accounts)

whole_share :
    (who amount : ℕ) (accounts : List ℕ)
    → times who accounts ≡ 1
    → total (share who amount) accounts ≡ amount
whole_share who amount [] h = omega arith
whole_share who amount (a ∷ accounts) h =
    ground (arith, whole_share who amount accounts, absent_share who amount accounts)

-- Among accounts that cover all payments, as much is paid as is received.
balanced :
    (accounts : List ℕ) (ps : List Payment)
    → Covers accounts ps
    → total (λ a. paid_by a ps) accounts ≡ total (λ a. paid_to a ps) accounts
unfolding paid_by paid_to
balanced accounts [] h = omega arith
balanced accounts (p ∷ ps) ((payer, payee), h) = omega (
  arith,
  total-add (share p.payer p.amount) (λ a. paid_by a ps) accounts,
  total-add (share p.payee p.amount) (λ a. paid_to a ps) accounts,
  whole_share p.payer p.amount accounts payer,
  whole_share p.payee p.amount accounts payee,
  balanced accounts ps h,
)

-- Amounts that differ by payments among the accounts have the same sum.
settled :
    (f g : ℕ → ℕ) (accounts : List ℕ) (ps : List Payment)
    → Covers accounts ps
    → ((a : ℕ) → f a + paid_by a ps ≡ g a + paid_to a ps)
    → total f accounts ≡ total g accounts
settled f g accounts ps h same = omega (
  arith,
  balanced accounts ps h,
  total-add f (λ a. paid_by a ps) accounts,
  total-add g (λ a. paid_to a ps) accounts,
  total-ext (λ a. f a + paid_by a ps) (λ a. g a + paid_to a ps) accounts same,
)

Covers-append :
    (accounts : List ℕ) (ps qs : List Payment)
    → Covers accounts ps
    → Covers accounts qs
    → Covers accounts (ps ++ qs)
Covers-append accounts [] qs h k = k
Covers-append accounts (p ∷ ps) qs (one, h) k = (one, Covers-append accounts ps qs h k)

module _ (C : Config) (L : IsLawful C.currency) where
  -- Over a lawful currency, a history that starts from the empty storage leaves the sum of all free and
  -- reserved balances of some accounts as it was, if among these accounts stand, once each, the payer and
  -- the payee of every purchase that the events tell of and of every payment in a call that failed.
  pub run_conserves :
      (requests : List (Block × C.Origin × Request)) (b : C.currency.Balances) (accounts : List ℕ)
      → Covers accounts (sales (run C requests (genesis C b)).events)
      → Covers accounts (lost C requests (genesis C b))
      → total (wealth C (run C requests (genesis C b))) accounts
        ≡ total (wealth C (genesis C b)) accounts
  unfolding sales paid_by paid_to
  run_conserves requests b accounts told quiet =
      let t = run C requests (genesis C b) in
      let ps = sales t.events in
      let qs = lost C requests (genesis C b) in
      settled (wealth C t) (wealth C (genesis C b)) accounts (ps ++ qs)
        (Covers-append accounts ps qs told quiet)
        (λ a. omega (
          arith,
          run-wealth C L requests (genesis C b) a (genesis-IsSound C b),
          paid_by-append a ps qs,
          paid_to-append a ps qs,
        ))
