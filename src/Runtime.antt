-- ===== src/Runtime.antt =====
-- The runtime's constants, `runtime/src/lib.rs`: time, balances and the configuration of the pallets
-- that this repository has.
pub mod Calls
pub mod Laws
pub mod Soundness
pub mod Ownership
pub mod Api
pub mod Config
pub mod Benchmarks
mod Tests
use my_substrate_kitties.Base.{ℕ, ◌*◌, ◌/◌}

-- `Balance` is a `u128`, `Moment` a `u64` and `BlockNumber` a `u32`.
abbrev pub millisecs_per_block : ℕ
millisecs_per_block = 6000

abbrev pub slot_duration : ℕ
slot_duration = millisecs_per_block

abbrev pub minutes : ℕ
minutes = 60_000 / millisecs_per_block

abbrev pub hours : ℕ
hours = minutes * 60

abbrev pub days : ℕ
days = hours * 24

abbrev pub minimum_period : ℕ
minimum_period = slot_duration / 2

abbrev pub block_hash_count : ℕ
block_hash_count = 2400

abbrev pub holding_deposit_for_one_kitty : ℕ
holding_deposit_for_one_kitty = 10_000_000_000_000

abbrev pub existential_deposit : ℕ
existential_deposit = 500

abbrev pub max_locks : ℕ
max_locks = 50

abbrev pub ss58_prefix : ℕ
ss58_prefix = 42

abbrev pub transaction_byte_fee : ℕ
transaction_byte_fee = 1

-- `NORMAL_DISPATCH_RATIO`, in percent.
abbrev pub normal_dispatch_ratio : ℕ
normal_dispatch_ratio = 75

-- The longest block, in bytes.
abbrev pub block_length : ℕ
block_length = 5 * 1024 * 1024

-- `BlockWeights`: two seconds of compute, and the share of normal calls; what these make is Substrate's.
abbrev pub block_weights : {Limits : Type 0} → (ℕ → ℕ → Limits) → ℕ → Limits
block_weights with_sensible_defaults weight_per_second =
    with_sensible_defaults (2 * weight_per_second) normal_dispatch_ratio
