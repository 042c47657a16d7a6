-- ===== src/Runtime/Benchmarks.antt =====
-- `dispatch_benchmark` of `runtime/src/lib.rs`. Running the benchmarks of a pallet is not code of this
-- repository: `add_benchmark!` is a parameter.
use Prim.Native.String.{String}
use my_substrate_kitties.Base.{◌≡◌, refl, List, [], ◌∷◌, ◌++◌}

pub data Result (A : Type 0) : Type 0 where
  ok : A → Result A
  err : String → Result A

infixl 5 ◌>>=◌
abbrev ◌>>=◌ : {A B : Type 0} → Result A → (A → Result B) → Result B
ok a >>= f = f a
err e >>= f = err e

-- The pallets that `add_benchmark!` names, by crate.
pub data Benched : Type 0 where
  frame_system pallet_balances pallet_timestamp pallet_template : Benched

-- The keys of the storage whose access is not counted.
abbrev pub whitelist : List String
whitelist =
    "26aa394eea5630e07c48ae0c9558cef702a5c1b19ab7a04f536c519aca4983ac"
    ∷ "c2261276cc9d1f8598ea4b6a74b15c2f57c875e4cff74148e4628f264b974c80"
    ∷ "26aa394eea5630e07c48ae0c9558cef7ff553b5a9862a516939d82b3d3d8661a"
    ∷ "26aa394eea5630e07c48ae0c9558cef70a98fdbe9ce6c55837576c60c7af3850"
    ∷ "26aa394eea5630e07c48ae0c9558cef780d41e5e16056765bc8461851072c9d7" ∷ []

-- The macro adds the batches of a pallet to those so far, or ends the function with an error.
module _ {Config Batch Info : Type 0}
    (add_benchmark : Config × List String → Benched → List Batch → Result (List Batch)) where
  -- `if batches.is_empty()`
  abbrev answer : Info → List Batch → Result (List Batch × Info)
  answer storage_info [] = err "Benchmark not found for this pallet."
  answer storage_info (batch ∷ batches) = ok (batch ∷ batches, storage_info)

  unfoldable pub dispatch_benchmark : Info → Config → Result (List Batch × Info)
  dispatch_benchmark storage_info config = do
    let params : Config × List String = (config, whitelist)
    batches ← add_benchmark params frame_system []
    batches ← add_benchmark params pallet_balances batches
    batches ← add_benchmark params pallet_timestamp batches
    batches ← add_benchmark params pallet_template batches
    answer storage_info batches

  -- If the macro adds `found p` for a pallet `p`, whatever was there, then the answer is all that was
  -- found, in the order of the pallets, and an error if that is nothing.
  pub dispatch_benchmark_lem :
      (storage_info : Info) (config : Config) (found : Benched → List Batch)
      → ((p : Benched) (batches : List Batch)
          → add_benchmark (config, whitelist) p batches ≡ ok (batches ++ found p))
      → dispatch_benchmark storage_info config
        ≡ answer storage_info (
            found frame_system
            ++ found pallet_balances
            ++ found pallet_timestamp
            ++ found pallet_template)
  unfolding dispatch_benchmark
  dispatch_benchmark_lem storage_info config found adds =
      rw
        (
          adds frame_system [],
          adds pallet_balances (found frame_system),
          adds pallet_timestamp (found frame_system ++ found pallet_balances),
          adds pallet_template
              (found frame_system ++ found pallet_balances ++ found pallet_timestamp),
        )
        refl
