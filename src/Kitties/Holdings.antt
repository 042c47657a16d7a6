-- ===== src/Kitties/Holdings.antt =====
-- How many kitties an account owns, counted over the ids from 1 to the count.
use my_substrate_kitties.Base.{
  ℕ, zero, suc, ◌+◌, ◌*◌, ◌≤◌, ◌<◌, ◌≡◌, refl, Option, none, some, arith, ap, inl, inr, Bool-cases,
  ◌==◌, if◌then◌else◌,
}
use my_substrate_kitties.Kitties.Types.{Config, State}
use my_substrate_kitties.Kitties.Transition.{count_of}

-- 1 if the owner found is `who`.
abbrev pub owner_bit : Option ℕ → ℕ → ℕ
owner_bit none who = 0
owner_bit (some a) who = if who == a then 1 else 0

-- The ids from 1 to `n` whose owner is `who`.
unfoldable pub owned_upto : (ℕ → Option ℕ) → ℕ → ℕ → ℕ
owned_upto owner zero who = 0
owned_upto owner (suc n) who = owner_bit (owner (suc n)) who + owned_upto owner n who

abbrev pub holdings : (C : Config) → State C → ℕ → ℕ
holdings C s who =
    owned_upto (λ id. C.storage.get s.kitties_owner id) (count_of s.kitties_count) who

-- The count up to `n` reads the owners up to `n` only.
pub owned_upto_same :
    (f g : ℕ → Option ℕ) (n who : ℕ)
    → ((j : ℕ) → j ≤ n → g j ≡ f j)
    → owned_upto g n who ≡ owned_upto f n who
unfolding owned_upto
owned_upto_same f g zero who same = refl
owned_upto_same f g (suc n) who same =
    ground
      (arith, same (suc n) (omega arith), owned_upto_same f g n who (λ j h. same j (omega arith)))

-- A change at one id counts for the new owner and no longer for the old one.
pub owned_upto_update :
    (f g : ℕ → Option ℕ) (o : Option ℕ) (id n who : ℕ)
    → ((j : ℕ) → g j ≡ (if j == id then o else f j))
    → 0 < id
    → id < n + 1
    → owned_upto g n who + owner_bit (f id) who ≡ owned_upto f n who + owner_bit o who
unfolding owned_upto
owned_upto_update f g o id zero who step low high = absurd (omega arith)
owned_upto_update f g o id (suc n) who step low high = elim (Bool-cases (id == suc n)) [
  | inl last ↦
      let before = owned_upto_same f g n who (λ j h. ground (arith, step j)) in
      let e : id ≡ suc n = ground arith in ground (arith, ap f e, step (suc n))
  | inr earlier ↦
      ground (arith, step (suc n), owned_upto_update f g o id n who step low (ground arith))
]

-- The same, for as many deposits.
pub deposits_update :
    (d : ℕ) (f g : ℕ → Option ℕ) (o : Option ℕ) (id n who : ℕ)
    → ((j : ℕ) → g j ≡ (if j == id then o else f j))
    → 0 < id
    → id < n + 1
    → d * owned_upto g n who + d * owner_bit (f id) who
      ≡ d * owned_upto f n who + d * owner_bit o who
deposits_update d f g o id n who step low high =
    omega (arith, ap (λ (k : ℕ). d * k) (owned_upto_update f g o id n who step low high))

-- One more id, without an owner, counts for nobody.
pub owned_upto_grow :
    (f : ℕ → Option ℕ) (n id who : ℕ)
    → id ≡ n + 1
    → f id ≡ none
    → owned_upto f id who ≡ owned_upto f n who
unfolding owned_upto
owned_upto_grow f n zero who e free = absurd (omega arith)
owned_upto_grow f n (suc m) who e free =
    let same : m ≡ n = omega arith in ground (arith, ap (λ (k : ℕ). owned_upto f k who) same)
