-- ===== src/Base/Bits.antt =====
-- `&` and `|` on numbers at variables: one equation for the lowest digit, and the laws that follow.
use Prim.Native.Nat.{
  ℕ, zero, suc, ◌+◌, ◌-◌, ◌*◌, ◌/◌, ◌%◌, ◌≤◌, min, max, bit_and, bit_or, digits, bitwise,
  bit_and-bitwise, bit_or-bitwise,
}
use mathlib.Core.Path.{◌≡◌, refl, ap, ap₂, sym, ◌∙◌}
use native.Mathlib.Omega.{arith}

module _ (rest : ℕ → ℕ) (digit : ℕ → ℕ → ℕ) where
  no_digits : (n b : ℕ) → digits rest digit n 0 b ≡ rest b
  no_digits zero b = refl
  no_digits (suc n) b = refl

  -- Layers beyond the first number's own count change nothing.
  spare_layers : (n k a b : ℕ) → a ≤ n → digits rest digit (n + k) a b ≡ digits rest digit n a b
  spare_layers zero k zero b h = no_digits (0 + k) b
  spare_layers zero k (suc a) b h = absurd (omega arith)
  spare_layers (suc n) k zero b h = no_digits (suc n + k) b
  spare_layers (suc n) k (suc a) b h =
      let e : suc n + k ≡ suc (n + k) = omega arith in
      rw (e, spare_layers n k (suc a / 2) (b / 2) (omega arith)) refl

  half_layers : (a b : ℕ) → digits rest digit a (suc a / 2) b ≡ bitwise rest digit (suc a / 2) b
  half_layers a b =
      let parts : suc a / 2 + (a - suc a / 2) ≡ a = omega arith in
      let spare = spare_layers (suc a / 2) (a - suc a / 2) (suc a / 2) b (omega arith) in
      ap (λ n. digits rest digit n (suc a / 2) b) (sym parts) ∙ spare

-- The lowest digit of `a & b` and of `a | b`, and the others.
bit_and_step : (a b : ℕ) → bit_and a b ≡ 2 * bit_and (a / 2) (b / 2) + min (a % 2) (b % 2)
bit_and_step zero b = rw (bit_and-bitwise 0 b, bit_and-bitwise 0 (b / 2)) (omega arith)
bit_and_step (suc a) b = omega (
  arith,
  bit_and-bitwise (suc a) b,
  bit_and-bitwise (suc a / 2) (b / 2),
  half_layers (λ y. 0) min a (b / 2),
)

bit_or_step : (a b : ℕ) → bit_or a b ≡ 2 * bit_or (a / 2) (b / 2) + max (a % 2) (b % 2)
bit_or_step zero b = rw (bit_or-bitwise 0 b, bit_or-bitwise 0 (b / 2)) (omega arith)
bit_or_step (suc a) b = omega (
  arith,
  bit_or-bitwise (suc a) b,
  bit_or-bitwise (suc a / 2) (b / 2),
  half_layers (λ y. y) max a (b / 2),
)

-- The laws hold below every power of two, by induction on the number of digits.
bit_or_comm_below : (n a b : ℕ) → a ≤ n → b ≤ n → bit_or a b ≡ bit_or b a
bit_or_comm_below zero zero zero p q = refl
bit_or_comm_below zero (suc a) b p q = absurd (omega arith)
bit_or_comm_below zero zero (suc b) p q = absurd (omega arith)
bit_or_comm_below (suc n) a b p q = omega (
  arith,
  bit_or_step a b,
  bit_or_step b a,
  bit_or_comm_below n (a / 2) (b / 2) (omega arith) (omega arith),
)

-- `a | b` is `b | a`.
pub bit_or_comm : (a b : ℕ) → bit_or a b ≡ bit_or b a
bit_or_comm a b = bit_or_comm_below (a + b) a b (omega arith) (omega arith)

zero-bit_and : (a : ℕ) → bit_and 0 a ≡ 0
zero-bit_and a = bit_and-bitwise 0 a

bit_and_half : (a b : ℕ) → bit_and a b / 2 ≡ bit_and (a / 2) (b / 2)
bit_and_half a b = omega (arith, bit_and_step a b)

bit_or_half : (a b : ℕ) → bit_or a b / 2 ≡ bit_or (a / 2) (b / 2)
bit_or_half a b = omega (arith, bit_or_step a b)

bit_and-bit_or_below :
    (n s a b : ℕ) → s ≤ n → bit_or (bit_and s a) (bit_and s b) ≡ bit_and s (bit_or a b)
bit_and-bit_or_below zero zero a b p =
    rw (zero-bit_and a) (rw (zero-bit_and b) (rw (zero-bit_and (bit_or a b)) refl))
bit_and-bit_or_below zero (suc s) a b p = absurd (omega arith)
bit_and-bit_or_below (suc n) s a b p = omega (
  arith,
  bit_or_step (bit_and s a) (bit_and s b),
  bit_and_step s a,
  bit_and_step s b,
  bit_and_step s (bit_or a b),
  bit_or_step a b,
  ap₂ bit_or (bit_and_half s a) (bit_and_half s b),
  ap (bit_and (s / 2)) (bit_or_half a b),
  bit_and-bit_or_below n (s / 2) (a / 2) (b / 2) (omega arith),
)

-- `(s & a) | (s & b)` is `s & (a | b)`.
pub bit_and-bit_or : (s a b : ℕ) → bit_or (bit_and s a) (bit_and s b) ≡ bit_and s (bit_or a b)
bit_and-bit_or s a b = bit_and-bit_or_below s s a b (omega arith)

bit_and-le_below : (n a b : ℕ) → a ≤ n → bit_and a b ≤ a
bit_and-le_below zero zero b p = omega (arith, zero-bit_and b)
bit_and-le_below zero (suc a) b p = absurd (omega arith)
bit_and-le_below (suc n) a b p =
    omega (arith, bit_and_step a b, bit_and-le_below n (a / 2) (b / 2) (omega arith))

-- `a & b` is at most `a`.
pub bit_and-le : (a b : ℕ) → bit_and a b ≤ a
bit_and-le a b = bit_and-le_below a a b (omega arith)
