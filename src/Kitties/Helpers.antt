-- ===== src/Kitties/Helpers.antt =====
-- The second `impl` block of the kitties pallet (`pallets/kitties/src/lib.rs`): the functions that
-- the dispatchable ones share.
use my_substrate_kitties.Base.{
  ℕ, zero, suc, ◌+◌, ◌-◌, ◌%◌, ◌^◌, Bool, true, false, not, Option, none, some, List, [], ◌∷◌,
  get_or, ◌==◌,
}
use Prim.Native.Nat.{bit_and, bit_or}
use my_substrate_kitties.Frame.Dispatch.{
  Action, currency_error, pure, gets, throw, unwrap, some_or_fail, modify, ensure, ◌>>=◌, ◌>>◌,
}
use my_substrate_kitties.Frame.Currency.{Outcome, done, failed}
use my_substrate_kitties.Kitties.Types.{
  Gender, male, female, gender, Error, kitties_count_overflow, can_not_breed_with_same_gender,
  not_owner_of_kitty, Config, Block, State,
}

abbrev pub u32_max : ℕ
u32_max = 2 ^ 32 - 1

-- `PartialEq` of `Gender`.
abbrev pub same_gender : Gender → Gender → Bool
same_gender male male = true
same_gender female female = true
same_gender _ _ = false

-- The body of the loop of `breed_kitty`, and the loop over `n` bytes from byte `i`.
abbrev pub breed_byte : ℕ → ℕ → ℕ → ℕ
breed_byte selector a b = bit_or (bit_and selector a) (bit_and selector b)

unfoldable pub breed_dna : ℕ → ℕ → List ℕ → List ℕ → List ℕ → List ℕ
breed_dna zero i selector a b = []
breed_dna (suc n) i selector a b =
    breed_byte (get_or selector i 0) (get_or a i 0) (get_or b i 0)
    ∷ breed_dna n (i + 1) selector a b

module _ (C : Config) where
  abbrev pub Call : Type 0 → Type 0
  Call = Action (State C) Error

  unfoldable pub get_random_value : Block → ℕ → List ℕ
  get_random_value block sender =
      C.blake2_128 (C.encode (block.random_seed, sender, block.extrinsic_index))

  -- The `match` on the count.
  unfoldable pub next_count : Option ℕ → Call ℕ
  next_count (some count) = do
    ensure (not (count == u32_max)) kitties_count_overflow
    pure ((count + 1) % 2 ^ 32)
  next_count none = pure 1

  -- The id is `KittyId::from(count)`, the number itself.
  unfoldable pub get_next_kitty_id : Call (ℕ × ℕ)
  unfolding next_count
  get_next_kitty_id = do count ← next_count (← gets (λ s. s.kitties_count)); pure (count, count)

  unfoldable pub create_kitty : Block → List ℕ → Call ℕ
  unfolding get_next_kitty_id
  create_kitty block dna = do
    (id, count) ← get_next_kitty_id
    modify λ s. record s {
      kitties = C.storage.insert id (record { dna = dna; birth_time = block.now }) s.kitties;
    }
    modify λ s. record s { kitties_count = some count }
    pure id

  unfoldable pub breed_kitty : Block → ℕ → ℕ → ℕ → Call ℕ
  breed_kitty block id1 id2 who = do
    kitty1 ← unwrap (← gets (λ s. C.storage.get s.kitties id1))
    kitty2 ← unwrap (← gets (λ s. C.storage.get s.kitties id2))
    ensure (not (same_gender (gender kitty1) (gender kitty2))) can_not_breed_with_same_gender
    create_kitty block (breed_dna 16 0 (get_random_value block who) kitty1.dna kitty2.dna)

  unfoldable pub ensure_owner : ℕ → ℕ → Call (Unit {0})
  ensure_owner id owner = do
    kitty_owner ← some_or_fail (← gets (λ s. C.storage.get s.kitties_owner id)) not_owner_of_kitty
    ensure (owner == kitty_owner) not_owner_of_kitty

  abbrev pub currency_result : Outcome → Call (Unit {0})
  currency_result done = pure tt
  currency_result (failed e) = throw (currency_error e)

  -- A fallible call of the currency, under `?`.
  abbrev pub try_currency : (C.currency.Balances → Outcome × C.currency.Balances) → Call (Unit {0})
  try_currency f s = let (r, b) = f s.balances in currency_result r (record s { balances = b })

  -- `unreserve`, whose result the pallet ignores.
  abbrev pub unreserve : ℕ → Call (Unit {0})
  unreserve who = modify λ s. record s {
    balances = (C.currency.unreserve who C.holding_deposit_for_one_kitty s.balances).1;
  }

  unfoldable pub transfer_kitty : ℕ → ℕ → ℕ → Call (Unit {0})
  transfer_kitty id owner new_owner = do
    try_currency (C.currency.reserve new_owner C.holding_deposit_for_one_kitty)
    unreserve owner
    modify λ s. record s { kitties_owner = C.storage.insert id new_owner s.kitties_owner }
