-- ===== src/Kitties/Deposits.antt =====
-- Deposits: what the kitties pallet (`pallets/kitties/src/lib.rs`) reserves of an account is one
-- deposit for each kitty that the account owns.
use my_substrate_kitties.Base.{ℕ, ◌+◌, ◌*◌, ◌≤◌, ◌<◌, ◌≡◌, Option, none, some, arith, ap}
use my_substrate_kitties.Frame.Dispatch.{Result}
use my_substrate_kitties.Frame.Currency.{IsLawful}
use my_substrate_kitties.Kitties.Types.{Error, Config, Block, State}
use my_substrate_kitties.Kitties.Calls.{Request}
use my_substrate_kitties.Kitties.Transition.{
  Transition, refused, payment_kept, created, bred, transfered, abandoned, adopted, priced,
  unpriced, sold, count_of, deposited, paid, Exists, Owns,
}
use my_substrate_kitties.Kitties.Invariant.{IsValid}
use my_substrate_kitties.Kitties.Holdings.{
  owned_upto, holdings, owner_bit, owned_upto_grow, deposits_update,
}

module _ (C : Config) where
  abbrev pub reserved : State C → ℕ → ℕ
  reserved s a = C.currency.reserved_balance s.balances a

  -- The deposits for the kitties of an account.
  abbrev pub deposits : State C → ℕ → ℕ
  deposits s a = C.holding_deposit_for_one_kitty * holdings C s a

  -- Every account has reserved at least the deposits for its kitties.
  abbrev pub IsBacked : State C → Type 0
  IsBacked s = (a : ℕ) → deposits s a ≤ reserved s a

module _ (C : Config) (s : State C) (v : IsValid C s) where
  open C use {holding_deposit_for_one_kitty as d}

  abbrev owner_of : ℕ → Option ℕ
  owner_of id = C.storage.get s.kitties_owner id

  abbrev count : ℕ
  count = count_of s.kitties_count

  -- A kitty that exists has an id from 1 to the count.
  in_range : (id : ℕ) → Exists C s id → (0 < id) × (id < count + 1)
  in_range id x = ground (arith, v.numbered id, C.storage.contains_key_lem s.kitties id)

  -- The deposits after a kitty was given an owner, after it lost one, and after one was born.
  deposits-assign :
      (id new : ℕ) (old : Option ℕ) (a : ℕ)
      → Exists C s id
      → owner_of id ≡ old
      → let owners = C.storage.insert id new s.kitties_owner in
        d * owned_upto (λ j. C.storage.get owners j) count a + d * owner_bit old a
        ≡ d * owned_upto owner_of count a + d * owner_bit (some new) a
  deposits-assign id new old a x e = rw (← e) (
      deposits_update d owner_of _ (some new) id count a
        (C.storage.get-insert s.kitties_owner id new) (in_range id x).0 (in_range id x).1)

  deposits-clear :
      (id old a : ℕ)
      → Exists C s id
      → owner_of id ≡ some old
      → let owners = C.storage.remove id s.kitties_owner in
        d * owned_upto (λ j. C.storage.get owners j) count a + d * owner_bit (some old) a
        ≡ d * owned_upto owner_of count a
  deposits-clear id old a x e = omega (
    arith,
    ap (λ (o : Option ℕ). d * owner_bit o a) e,
    deposits_update d owner_of _ none id count a (C.storage.get-remove s.kitties_owner id)
        (in_range id x).0 (in_range id x).1,
  )

  -- The owner of a kitty has its deposit in reserve.
  pub reserved-Owns : (id a : ℕ) → IsBacked C s → Exists C s id → Owns C s a id → d ≤ reserved C s a
  reserved-Owns id a b x w = let cleared = deposits-clear id a a x w in ground (arith, b a)

  deposits-born :
      (id a : ℕ) → id ≡ count + 1 → d * owned_upto owner_of id a ≡ d * owned_upto owner_of count a
  deposits-born id a e =
      ap (λ (k : ℕ). d * k)
        (owned_upto_grow owner_of count id a e (ground (arith, v.numbered id, v.owned_kitties id)))

module _ (C : Config) (L : IsLawful C.currency) {block : Block} {origin : C.Origin}
    {s t : State C} where
  open C use {holding_deposit_for_one_kitty as d}

  pub balance_step :
      {q : Request} {r : Result Error (Unit {0})}
      → Transition C block origin s t q r
      → IsValid C s
      → IsBacked C s
      → (a : ℕ) → reserved C t a + deposits C s a ≡ reserved C s a + deposits C t a
  balance_step (refused e h) v b a = rw h (omega arith)
  balance_step (payment_kept id buyer seller price e o w p c f h) v b a =
      rw h (omega (arith, L.reserved-transfer buyer seller price s.balances a c))
  balance_step (created who id kitty o n k h) v b a =
      rw h (omega (arith, deposits-born C s v id a n.0))
  balance_step (bred who id id1 id2 kitty k1 k2 o e1 e2 x n k h) v b a =
      rw h (omega (arith, deposits-born C s v id a n.0))
  balance_step (transfered who id new_owner o x w c h) v b a = rw h (
      ground (
        arith,
        b a,
        L.reserved-reserve new_owner d s.balances a c,
        L.reserved-unreserve who d (deposited C new_owner s.balances) a,
        deposits-assign C s v id new_owner (some who) a x w,
      ))
  balance_step (abandoned who id o x w h) v b a = rw h (
      ground
        (arith, b a, L.reserved-unreserve who d s.balances a, deposits-clear C s v id who a x w))
  balance_step (adopted who id o x w c h) v b a = rw h (
      ground
        (arith, L.reserved-reserve who d s.balances a c, deposits-assign C s v id who none a x w))
  balance_step (priced who id price o x w h) v b a = rw h (omega arith)
  balance_step (unpriced who id o x w h) v b a = rw h (omega arith)
  balance_step (sold id buyer seller price o x w p c f h) v b a = rw h (
      ground (
        arith,
        b a,
        L.reserved-transfer buyer seller price s.balances a c,
        L.reserved-reserve buyer d (paid C buyer seller price s.balances) a f,
        L.reserved-unreserve seller d (deposited C buyer (paid C buyer seller price s.balances)) a,
        deposits-assign C s v id buyer (some seller) a x w,
      ))

  -- Backing is kept.
  pub step-IsBacked :
      {q : Request} {r : Result Error (Unit {0})}
      → Transition C block origin s t q r
      → IsValid C s
      → IsBacked C s
      → IsBacked C t
  step-IsBacked step v b a = omega (arith, b a, balance_step step v b a)
