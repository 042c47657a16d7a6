-- ===== src/Node/ChainSpec/Laws.antt =====
-- The genesis state that the presets of `node/src/chain_spec.rs` describe.
use Prim.Native.String.{String}
use text.Mathlib.Text.{◌==◌ as str_eq}
use text.Mathlib.TextEquality.{eq_iff}
use my_substrate_kitties.Base.{
  ℕ, ◌+◌, ◌*◌, ◌^◌, ◌≤◌, ◌<◌, ◌≡◌, ◌≢◌, refl, Bool, true, false, not, ◌&&◌, ◌||◌, Option, some,
  List, [], ◌∷◌, map, All, length, length-map, arith,
}
use my_substrate_kitties.Runtime.{holding_deposit_for_one_kitty, existential_deposit}
use my_substrate_kitties.Node.ChainSpec.{
  Keys, ok, GenesisConfig, ChainSpec, get_account_id_from_seed, authority_keys_from_seed,
  AuthorityKeys, collect, testnet_genesis, preset_genesis, development_config, local_testnet_config,
  development_accounts, local_testnet_accounts,
}

abbrev pub listed : List String → String → Bool
listed [] a = false
listed (x ∷ xs) a = str_eq a x || listed xs a

abbrev all_different : List String → Bool
all_different [] = true
all_different (x ∷ xs) = not (listed xs x) && all_different xs

-- No account stands twice, as the genesis of the balances demands.
abbrev pub IsDistinct : {A : Type 0} → List A → Type 0
IsDistinct [] = Unit
IsDistinct (x ∷ xs) = All (λ y. x ≢ y) xs × IsDistinct xs

abbrev pub total : {A : Type 0} → List (A × ℕ) → ℕ
total [] = 0
total ((_, balance) ∷ entries) = balance + total entries

total_equal : {A : Type 0} (ks : List A) (v : ℕ) → total (map (λ k. (k, v)) ks) ≡ length ks * v
total_equal [] v = omega arith
total_equal (k ∷ ks) v = omega (arith, total_equal ks v)

collect-All :
    {A : Type 0} (f : String → Option A) (g : String → A) (seeds : List String)
    → All (λ seed. f seed ≡ some (g seed)) seeds
    → collect f seeds ≡ some (map g seeds)
unfolding collect
collect-All f g [] h = refl
collect-All f g (seed ∷ seeds) h = ground (arith, collect-All f g seeds h.1)

module _ {A : Type 0} (account : String → A) where
  -- Accounts that are derived from different seeds of a list are different.
  abbrev pub SeparatesSeeds : List String → Type 0
  SeparatesSeeds seeds =
      (a b : String) → listed seeds a ≡ true → listed seeds b ≡ true → account a ≡ account b → a ≡ b

  differs_from :
      (all xs : List String) (x : String)
      → SeparatesSeeds all
      → listed all x ≡ true
      → All (λ y. listed all y ≡ true) xs
      → listed xs x ≡ false
      → All (λ y. account x ≢ y) (map account xs)
  differs_from all [] x sep here rest new = tt
  differs_from all (y ∷ xs) x sep here rest new = (
    λ same. ground (arith, (eq_iff x y).1 (sep x y here rest.0 same)),
    differs_from all xs x sep here rest.1 (ground arith),
  )

  map-IsDistinct :
      (all xs : List String)
      → SeparatesSeeds all
      → All (λ y. listed all y ≡ true) xs
      → all_different xs ≡ true
      → IsDistinct (map account xs)
  map-IsDistinct all [] sep inside new = tt
  map-IsDistinct all (x ∷ xs) sep inside new = (
    differs_from all xs x sep inside.0 inside.1 (ground arith),
    map-IsDistinct all xs sep inside.1 (ground arith),
  )

module _ (K : Keys) (account : String → K.AccountId) (authority : String → AuthorityKeys K) where
  -- The derivations that a preset calls for go well.
  abbrev pub Derives : List String → List String → Type 0
  Derives authorities accounts =
      All (λ seed. authority_keys_from_seed K seed ≡ some (authority seed)) authorities
      × (get_account_id_from_seed K "Alice" ≡ some (account "Alice"))
      × All (λ seed. get_account_id_from_seed K seed ≡ some (account seed)) accounts

  preset_lem :
      (wasm_binary : List ℕ) (authorities accounts : List String)
      → Derives authorities accounts
      → preset_genesis K wasm_binary authorities accounts
        ≡ some (
            testnet_genesis K wasm_binary
              (map authority authorities)
              (account "Alice")
              (map account accounts))
  unfolding preset_genesis
  preset_lem wasm_binary authorities accounts (keys, root, ids) = ground (
    arith,
    collect-All (authority_keys_from_seed K) authority authorities keys,
    collect-All (get_account_id_from_seed K) account accounts ids,
  )

-- What a genesis state must be for the chain to start and for the kitties to be affordable: no account
-- is endowed twice, the issuance is a `u128`, as many Aura as GRANDPA authorities, at least one, each
-- GRANDPA authority with weight 1, and every endowed account can pay a deposit and stay alive.
pub record IsGoodGenesis (K : Keys) (g : GenesisConfig K) : Type 0 where
  pub distinct : IsDistinct (map (λ (e : K.AccountId × ℕ). e.0) g.balances)
  pub issuance : total g.balances < 2 ^ 128
  pub authorities : (length g.aura ≡ length g.grandpa) × (1 ≤ length g.aura)
  pub weights : All (λ (e : K.grandpa.Public × ℕ). e.1 ≡ 1) g.grandpa
  pub affordable :
      All
        (λ (e : K.AccountId × ℕ). holding_deposit_for_one_kitty + existential_deposit ≤ e.1)
        g.balances

module _ (K : Keys) where
  map_fst :
      (ks : List K.AccountId) (v : ℕ)
      → map (λ (e : K.AccountId × ℕ). e.0) (map (λ (k : K.AccountId). (k, v)) ks) ≡ ks
  map_fst [] v = refl
  map_fst (k ∷ ks) v = rw (map_fst ks v)

  weights-All :
      (xs : List (AuthorityKeys K))
      → All (λ (e : K.grandpa.Public × ℕ). e.1 ≡ 1) (map (λ (x : AuthorityKeys K). (x.1, 1)) xs)
  weights-All [] = tt
  weights-All (x ∷ xs) = (refl, weights-All xs)

  affordable-All :
      (ks : List K.AccountId)
      → All
          (λ (e : K.AccountId × ℕ). holding_deposit_for_one_kitty + existential_deposit ≤ e.1)
          (map (λ (k : K.AccountId). (k, 2 ^ 60)) ks)
  affordable-All [] = tt
  affordable-All (k ∷ ks) = (omega arith, affordable-All ks)

  good_genesis :
      (wasm_binary : List ℕ) (authorities : List (AuthorityKeys K)) (root : K.AccountId)
      (accounts : List K.AccountId)
      → IsDistinct accounts
      → length accounts < 2 ^ 68
      → 1 ≤ length authorities
      → IsGoodGenesis K (testnet_genesis K wasm_binary authorities root accounts)
  unfolding testnet_genesis
  good_genesis wasm_binary authorities root accounts d few some_authority = record {
    distinct = rw (map_fst accounts (2 ^ 60)) d;
    issuance = omega (arith, total_equal accounts (2 ^ 60));
    authorities = (
      omega (
        arith,
        length-map (λ (x : AuthorityKeys K). x.0) authorities,
        length-map {B = K.grandpa.Public × ℕ} (λ (x : AuthorityKeys K). (x.1, 1)) authorities,
      ),
      omega (arith, length-map (λ (x : AuthorityKeys K). x.0) authorities),
    );
    weights = weights-All authorities;
    affordable = affordable-All accounts;
  }

module _ (K : Keys) (account : String → K.AccountId) (authority : String → AuthorityKeys K)
    (wasm_binary : List ℕ) where
  -- If the keys of its seeds can be derived, and different seeds give different accounts, the local
  -- testnet has a good genesis state; its sudo key is Alice's account.
  pub local_testnet_config-IsGoodGenesis :
      Derives K account authority ("Alice" ∷ "Bob" ∷ []) local_testnet_accounts
      → SeparatesSeeds account local_testnet_accounts
      → (spec : ChainSpec K) × (local_testnet_config K (some wasm_binary) ≡ ok spec)
        × (g : GenesisConfig K) × (spec.genesis ≡ some g)
        × IsGoodGenesis K g
        × (g.sudo ≡ account "Alice")
  unfolding local_testnet_config testnet_genesis
  local_testnet_config-IsGoodGenesis keys sep = (
    _,
    refl,
    _,
    preset_lem K account authority wasm_binary ("Alice" ∷ "Bob" ∷ []) local_testnet_accounts keys,
    good_genesis K wasm_binary (map authority ("Alice" ∷ "Bob" ∷ [])) (account "Alice")
        (map account local_testnet_accounts)
        (map-IsDistinct account local_testnet_accounts local_testnet_accounts sep (ground arith)
          refl)
        (omega arith) (omega arith),
    refl,
  )

  -- The same for the development chain.
  pub development_config-IsGoodGenesis :
      Derives K account authority ("Alice" ∷ []) development_accounts
      → SeparatesSeeds account development_accounts
      → (spec : ChainSpec K) × (development_config K (some wasm_binary) ≡ ok spec)
        × (g : GenesisConfig K) × (spec.genesis ≡ some g)
        × IsGoodGenesis K g
        × (g.sudo ≡ account "Alice")
  unfolding development_config testnet_genesis
  development_config-IsGoodGenesis keys sep = (
    _,
    refl,
    _,
    preset_lem K account authority wasm_binary ("Alice" ∷ []) development_accounts keys,
    good_genesis K wasm_binary (map authority ("Alice" ∷ [])) (account "Alice")
        (map account development_accounts)
        (map-IsDistinct account development_accounts development_accounts sep (ground arith) refl)
        (omega arith) (omega arith),
    refl,
  )
