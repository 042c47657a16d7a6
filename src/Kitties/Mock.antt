-- ===== src/Kitties/Mock.antt =====
-- The mock runtime of the kitties pallet, `pallets/kitties/src/mock.rs`, over the concrete storage
-- map and currency; the host's hash is taken to be a fixed digest that depends on its input.
mod Runtime
use my_substrate_kitties.Base.{
  ℕ, ◌+◌, ◌%◌, ◌&&◌, Option, some, List, [], ◌∷◌, get_or, ltb, if◌then◌else◌,
}
use my_substrate_kitties.Kitties.Helpers.{create_kitty, breed_dna}
use my_substrate_kitties.Kitties.Calls.{
  Request, create, transfer, breed, abandon, adopt, set_price, clear_price, buy, dispatch, run,
}
use my_substrate_kitties.Frame.Storage.Assoc.{assoc_map}
use my_substrate_kitties.Frame.Currency.Ledger.{ledger}
use my_substrate_kitties.Kitties.Types.{Config, Block, State, genesis, gender}

-- 16 bytes, the first one the seed's.
abbrev digest : List ℕ → List ℕ
digest bytes =
    get_or bytes 0 0 % 256
    ∷ 1
    ∷ 2
    ∷ 3
    ∷ 4
    ∷ 5
    ∷ 6
    ∷ 7
    ∷ 248
    ∷ 249
    ∷ 250
    ∷ 251
    ∷ 252
    ∷ 253
    ∷ 254
    ∷ 255
    ∷ []

-- `impl pallet_kitties::Config for Test`. An origin is its signer, if it has one.
abbrev pub test : Config
test = record {
  Origin = Option ℕ;
  ensure_signed = λ origin. origin;
  currency = ledger;
  storage = assoc_map;
  holding_deposit_for_one_kitty = 10_000;
  encode = λ (seed, sender, index). seed.0 ∷ seed.1 ∷ sender ∷ [];
  blake2_128 = digest;
}

-- `System::set_block_number(n)`
abbrev pub block : ℕ → Block
block n = record { random_seed = (n, 0); extrinsic_index = some 0; now = n }

abbrev pub default_balance : ℕ
default_balance = 10_000_000_000_000

-- `new_test_ext`: accounts 1 to 5 hold the default balance.
abbrev pub new_test_ext : State test
new_test_ext =
    genesis test
      (record { free = λ a. if ltb 0 a && ltb a 6 then default_balance else 0; reserved = λ a. 0 })

-- Signed calls, each in a block of its own.
pub in_blocks : ℕ → List (ℕ × Request) → List (Block × Option ℕ × Request)
in_blocks n [] = []
in_blocks n ((who, q) ∷ calls) = (block n, some who, q) ∷ in_blocks (n + 1) calls

unfoldable pub play : List (ℕ × Request) → State test
unfolding in_blocks run dispatch create transfer breed create_kitty breed_dna gender abandon adopt
    set_price clear_price buy
play calls = run test (in_blocks 1 calls) new_test_ext
