-- ===== src/Kitties/Audit/Payments.antt =====
-- Payments between accounts, and those that the events of the kitties pallet
-- (`pallets/kitties/src/lib.rs`) tell of.
use my_substrate_kitties.Base.{
  ℕ, ◌+◌, ◌≡◌, refl, ap, List, [], ◌∷◌, ◌++◌, arith, ◌==◌, if◌then◌else◌,
}
use my_substrate_kitties.Kitties.Types.{
  Event, kitty_created, kitty_transfered, kitty_born, kitty_abandoned, kitty_adopted,
  kitty_price_set, kitty_price_cleared, kitty_sold,
}

pub record Payment : Type 0 where
  pub payer : ℕ
  pub payee : ℕ
  pub amount : ℕ

-- What an account has paid, and what it was paid, in all.
unfoldable pub paid_by : ℕ → List Payment → ℕ
paid_by a [] = 0
paid_by a (p ∷ ps) = (if p.payer == a then p.amount else 0) + paid_by a ps

unfoldable pub paid_to : ℕ → List Payment → ℕ
paid_to a [] = 0
paid_to a (p ∷ ps) = (if p.payee == a then p.amount else 0) + paid_to a ps

pub paid_by-append :
    (a : ℕ) (ps qs : List Payment) → paid_by a (ps ++ qs) ≡ paid_by a ps + paid_by a qs
unfolding paid_by
paid_by-append a [] qs = omega arith
paid_by-append a (p ∷ ps) qs = omega (arith, paid_by-append a ps qs)

pub paid_to-append :
    (a : ℕ) (ps qs : List Payment) → paid_to a (ps ++ qs) ≡ paid_to a ps + paid_to a qs
unfolding paid_to
paid_to-append a [] qs = omega arith
paid_to-append a (p ∷ ps) qs = omega (arith, paid_to-append a ps qs)

-- The purchases that a log announces.
unfoldable pub sales : List Event → List Payment
sales [] = []
sales (kitty_sold id from to price ∷ log) =
    record { payer = to; payee = from; amount = price } ∷ sales log
sales (_ ∷ log) = sales log

pub sales-append : (xs ys : List Event) → sales (xs ++ ys) ≡ sales xs ++ sales ys
unfolding sales
sales-append [] ys = refl
sales-append (kitty_sold id from to price ∷ xs) ys =
    ap (λ ps. record { payer = to; payee = from; amount = price } ∷ ps) (sales-append xs ys)
sales-append (kitty_created id ∷ xs) ys = sales-append xs ys
sales-append (kitty_born id id1 id2 ∷ xs) ys = sales-append xs ys
sales-append (kitty_transfered id from to ∷ xs) ys = sales-append xs ys
sales-append (kitty_abandoned id ∷ xs) ys = sales-append xs ys
sales-append (kitty_adopted id who ∷ xs) ys = sales-append xs ys
sales-append (kitty_price_set id price ∷ xs) ys = sales-append xs ys
sales-append (kitty_price_cleared id ∷ xs) ys = sales-append xs ys
