-- ===== src/Node/Genesis.antt =====
-- From the genesis state of a preset (`node/src/chain_spec.rs`) to the kitties of the chain that starts
-- with it (`runtime/src/lib.rs`, `pallets/kitties/src/lib.rs`).
use Prim.Native.String.{String}
use text.Mathlib.Text.{◌==◌ as str_eq}
use text.Mathlib.TextEquality.{eq_iff}
use my_substrate_kitties.Base.{
  ℕ, ◌≤◌, ◌^◌, ◌≡◌, ap, Bool-cases, inl, inr, true, Option, some, List, [], ◌∷◌, ◌++◌, map, All,
  arith, Option-cases,
}
use my_substrate_kitties.Frame.Currency.{IsLawful}
use my_substrate_kitties.Kitties.Types.{Block, genesis}
use my_substrate_kitties.Kitties.Calls.{run}
use my_substrate_kitties.Kitties.Transition.{Owns}
use my_substrate_kitties.Kitties.Adoption.{ReservesFree, adoptions}
use my_substrate_kitties.Kitties.Colony.{countdown, creations, colony}
use my_substrate_kitties.Runtime.Calls.{Host, kitties_config}
use my_substrate_kitties.Node.ChainSpec.{
  Keys, GenesisConfig, collect, get_account_id_from_seed, authority_keys_from_seed, preset_genesis,
  testnet_genesis,
}
use my_substrate_kitties.Node.ChainSpec.Laws.{listed}

-- What holds of every value that is collected holds of the value for a listed seed.
collect-All :
    {A : Type 0} (P : A → Type 0) (f : String → Option A) (seeds : List String) (xs : List A)
    (seed : String) (a : A)
    → collect f seeds ≡ some xs
    → listed seeds seed ≡ true
    → f seed ≡ some a
    → All P xs
    → P a
unfolding collect
collect-All P f [] xs seed a e here found h = absurd (ground arith)
collect-All P f (x ∷ seeds) [] seed a e here found h = absurd (ground arith)
collect-All {A} P f (x ∷ seeds) (y ∷ xs) seed a e here found h = elim (Bool-cases (str_eq seed x)) [
  | inl same ↦
      let first : f seed ≡ some y = ground (arith, ap f ((eq_iff seed x).0 same)) in
      let it : y ≡ a = ground arith in rw (← it) h.0
  | inr other ↦ collect-All P f seeds xs seed a (ground arith) (ground arith) found h.1
]

module _ (H : Host) (K : Keys) (number : K.AccountId → ℕ) where
  -- The balances at the start are those that the genesis state lists.
  abbrev pub IsBuiltFrom : H.balances.Balances → GenesisConfig K → Type 0
  IsBuiltFrom b g =
      All (λ (e : K.AccountId × ℕ). H.balances.free_balance b (number e.0) ≡ e.1) g.balances

  entries-All :
      (b : H.balances.Balances) (accounts : List K.AccountId)
      → All
          (λ (e : K.AccountId × ℕ). H.balances.free_balance b (number e.0) ≡ e.1)
          (map (λ (k : K.AccountId). (k, 2 ^ 60)) accounts)
      → All (λ (k : K.AccountId). H.balances.free_balance b (number k) ≡ 2 ^ 60) accounts
  entries-All b [] h = tt
  entries-All b (k ∷ accounts) h = (h.0, entries-All b accounts h.1)

  -- The accounts that a preset endows are funded.
  preset_funds :
      (b : H.balances.Balances) (wasm_binary : List ℕ) (authorities seeds : List String)
      (g : GenesisConfig K) (seed : String) (account : K.AccountId)
      → preset_genesis K wasm_binary authorities seeds ≡ some g
      → IsBuiltFrom b g
      → listed seeds seed ≡ true
      → get_account_id_from_seed K seed ≡ some account
      → H.balances.free_balance b (number account) ≡ 2 ^ 60
  unfolding preset_genesis testnet_genesis
  preset_funds b wasm_binary authorities seeds g seed account e built here found =
      elim (Option-cases (collect (authority_keys_from_seed K) authorities)) [
        | inl e1 ↦ absurd (ground arith)
        | inr (keys, e1) ↦ elim (Option-cases (get_account_id_from_seed K "Alice")) [
          | inl e2 ↦ absurd (ground arith)
          | inr (root, e2) ↦ elim (Option-cases (collect (get_account_id_from_seed K) seeds)) [
            | inl e3 ↦ absurd (ground arith)
            | inr (accounts, e3) ↦
                let g_is : testnet_genesis K wasm_binary keys root accounts ≡ g = ground arith in
                let same : map (λ (k : K.AccountId). (k, 2 ^ 60)) accounts ≡ g.balances =
                  ap (λ (c : GenesisConfig K). c.balances) g_is in
                collect-All (λ k. H.balances.free_balance b (number k) ≡ 2 ^ 60)
                  (get_account_id_from_seed K) seeds accounts seed account e3 here found
                  (entries-All b accounts (rw same built))
          ]
        ]
      ]

  -- On a chain whose balances are built from the genesis state of a preset, over a lawful currency
  -- that reserves what is free, and fees aside, the account of every endowed seed can create and then
  -- adopt any number of kitties up to 115_292, for which its endowment holds the deposits.
  pub preset-colony :
      IsLawful H.balances
      → ReservesFree H.balances
      → (b : H.balances.Balances) (wasm_binary : List ℕ) (authorities seeds : List String)
        (g : GenesisConfig K) (seed : String) (account : K.AccountId)
      → preset_genesis K wasm_binary authorities seeds ≡ some g
      → IsBuiltFrom b g
      → listed seeds seed ≡ true
      → get_account_id_from_seed K seed ≡ some account
      → (block : Block) (origin : H.Origin) (n : ℕ) → H.ensure_signed origin ≡ some (number account)
      → n ≤ 115_292
      → let C = kitties_config H in
        let t =
          run C
            (creations C block origin n ++ adoptions C block origin (countdown n))
            (genesis C b) in
        All (Owns C t (number account)) (countdown n)
  preset-colony L R b wasm_binary authorities seeds g seed account e built here found block origin n
        signed few =
      colony (kitties_config H) L R block origin (number account) n b signed (omega arith) (
        omega
          (arith, preset_funds b wasm_binary authorities seeds g seed account e built here found))
