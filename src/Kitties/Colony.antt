-- ===== src/Kitties/Colony.antt =====
-- A whole life of the kitties pallet (`pallets/kitties/src/lib.rs`) from the empty storage: one account
-- creates kitties and adopts them all.
use my_substrate_kitties.Base.{
  ℕ, zero, suc, ◌+◌, ◌*◌, ◌≤◌, ◌<◌, ◌^◌, ◌≡◌, ◌≢◌, refl, some, none, List, [], ◌∷◌, ◌++◌, arith,
  length, All, inl, inr,
}
use my_substrate_kitties.Frame.Currency.{IsLawful}
use my_substrate_kitties.Kitties.Types.{kitty_created, Kitty, Config, Block, State, genesis}
use my_substrate_kitties.Kitties.Helpers.{get_random_value}
use my_substrate_kitties.Kitties.Calls.{Request, create_request, create, dispatch, run}
use my_substrate_kitties.Kitties.Transition.{count_of, Owns, Exists, with_kitty}
use my_substrate_kitties.Kitties.Implements.Birth.{create_kitty-cases}
use my_substrate_kitties.Kitties.History.{run-append}
use my_substrate_kitties.Kitties.Adoption.{
  ReservesFree, IsStray, AllDifferent, adoptions, adopt_many,
}

-- The ids from `n` down to 1.
abbrev pub countdown : ℕ → List ℕ
countdown zero = []
countdown (suc n) = suc n ∷ countdown n

below_countdown : (n m : ℕ) → n < m → All (λ j. j ≢ m) (countdown n)
below_countdown zero m h = tt
below_countdown (suc n) m h = (λ e. omega arith, below_countdown n m (omega arith))

length-countdown : (n : ℕ) → length (countdown n) ≡ n
length-countdown zero = refl
length-countdown (suc n) = omega (arith, length-countdown n)

module _ (C : Config) where
  countdown-AllDifferent : (n : ℕ) → AllDifferent C (countdown n)
  countdown-AllDifferent zero = tt
  countdown-AllDifferent (suc n) =
      (below_countdown n (suc n) (omega arith), countdown-AllDifferent n)

  -- `n` calls of `create`.
  abbrev pub creations : Block → C.Origin → ℕ → List (Block × C.Origin × Request)
  creations block origin zero = []
  creations block origin (suc n) = (block, origin, create_request) ∷ creations block origin n

  -- Exactly the kitties 1 to `k`, all of them without an owner, and the balances `b`.
  record IsFresh (k : ℕ) (b : C.currency.Balances) (s : State C) : Type 0 where
    count : count_of s.kitties_count ≡ k
    present : (id : ℕ) → 0 < id → id ≤ k → Exists C s id
    free : (id : ℕ) → C.storage.get s.kitties_owner id ≡ none
    funds : s.balances ≡ b

  genesis-IsFresh : (b : C.currency.Balances) → IsFresh 0 b (genesis C b)
  genesis-IsFresh b = record {
    count = refl;
    present = λ id low high. absurd (omega arith);
    free = λ id. C.storage.get-empty {V = ℕ} id;
    funds = refl;
  }

  create_lem :
      (block : Block) (origin : C.Origin) (who : ℕ) (s : State C)
      → C.ensure_signed origin ≡ some who
      → count_of s.kitties_count + 1 < 2 ^ 32
      → (create C block origin s).1
        ≡ with_kitty C s
            (count_of s.kitties_count + 1)
            (record { dna = get_random_value C block who; birth_time = block.now })
            (kitty_created (count_of s.kitties_count + 1))
  unfolding create
  create_lem block origin who s o room =
      elim (create_kitty-cases C block origin s (omega arith) (get_random_value C block who)) [
        | inl (full, _) ↦ absurd (omega arith)
        | inr (_, made) ↦ ground arith
      ]

  create-IsFresh :
      (block : Block) (origin : C.Origin) (who k : ℕ) (b : C.currency.Balances) (s : State C)
      → C.ensure_signed origin ≡ some who
      → k + 1 < 2 ^ 32
      → IsFresh k b s
      → IsFresh (k + 1) b (create C block origin s).1
  create-IsFresh block origin who k b s o room v =
      let kitty : Kitty = record { dna = get_random_value C block who; birth_time = block.now } in
      let next = count_of s.kitties_count + 1 in
      rw (create_lem block origin who s o (omega (arith, v.count))) (record {
        count = omega (arith, v.count);
        present = λ id low high. ground (
          arith,
          v.count,
          v.present id low,
          C.storage.contains_key_lem s.kitties id,
          C.storage.contains_key_lem (C.storage.insert next kitty s.kitties) id,
          C.storage.get-insert s.kitties next kitty id,
        );
        free = v.free;
        funds = v.funds;
      })

  creations-IsFresh :
      (block : Block) (origin : C.Origin) (who n k : ℕ) (b : C.currency.Balances) (s : State C)
      → C.ensure_signed origin ≡ some who
      → k + n < 2 ^ 32
      → IsFresh k b s
      → IsFresh (k + n) b (run C (creations block origin n) s)
  unfolding run dispatch
  creations-IsFresh block origin who zero k b s o room v = let e : k + 0 ≡ k = omega arith in rw e v
  creations-IsFresh block origin who (suc n) k b s o room v =
      let e : k + suc n ≡ k + 1 + n = omega arith in
      rw e (
        creations-IsFresh block origin who n (k + 1) b (create C block origin s).1 o (omega arith)
          (create-IsFresh block origin who k b s o (omega arith) v))

  countdown-IsStray :
      (n k : ℕ) (b : C.currency.Balances) (s : State C)
      → n ≤ k
      → IsFresh k b s
      → All (IsStray C s) (countdown n)
  countdown-IsStray zero k b s h v = tt
  countdown-IsStray (suc n) k b s h v = (
    (v.present (suc n) (omega arith) h, v.free (suc n)),
    countdown-IsStray n k b s (omega arith) v,
  )

  -- Over a lawful currency that reserves what is free: from the empty storage, a signer can create
  -- `n` kitties and adopt them all, if `n` is below 2 ^ 32 and the free balance at the start is at
  -- least `n` deposits.
  pub colony :
      IsLawful C.currency
      → ReservesFree C.currency
      → (block : Block) (origin : C.Origin) (who n : ℕ) (b : C.currency.Balances)
      → C.ensure_signed origin ≡ some who
      → n < 2 ^ 32
      → n * C.holding_deposit_for_one_kitty ≤ C.currency.free_balance b who
      → let t =
          run C
            (creations block origin n ++ adoptions C block origin (countdown n))
            (genesis C b) in
        All (Owns C t who) (countdown n)
  colony L R block origin who n b o room rich =
      let s = run C (creations block origin n) (genesis C b) in
      let fresh : IsFresh (0 + n) b s =
        creations-IsFresh block origin who n 0 b (genesis C b) o (omega arith)
          (genesis-IsFresh b) in
      rw
        (run-append C (creations block origin n) (adoptions C block origin (countdown n))
          (genesis C b))
        (adopt_many C L R block origin who o (countdown n) s (countdown-AllDifferent n)
          (countdown-IsStray n (0 + n) b s (omega arith) fresh)
          (rw (fresh.funds, length-countdown n) rich)).0
