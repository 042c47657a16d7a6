-- ===== src/Template/Benchmarking.antt =====
-- The benchmark of the template pallet, `pallets/template/src/benchmarking.rs`: what it runs and what
-- it verifies, without the clock.
use my_substrate_kitties.Base.{ℕ, ◌≡◌, Bool, false, ◌==◌, none, some, true, arith}
use my_substrate_kitties.Frame.Dispatch.{ok, err, panic}
use my_substrate_kitties.Template.{Config, State, do_something}

module _ (C : Config) where
  -- The call by `RawOrigin::Signed(caller)` must succeed; then the number is compared with `s`.
  unfoldable pub do_something_benchmark : C.Origin → ℕ → State → Bool
  do_something_benchmark caller s storage =
      let (r, after) = do_something C caller s storage in
      elim r [
        | ok _ ↦ elim after.something [ none ↦ false | some n ↦ n == s ]
        | err _ ↦ false
        | panic ↦ false
      ]

  -- It passes for every number, whoever signs and whatever was stored.
  pub do_something_benchmark_passes :
      (caller : C.Origin) (who s : ℕ) (storage : State)
      → C.ensure_signed caller ≡ some who
      → do_something_benchmark caller s storage ≡ true
  unfolding do_something_benchmark do_something
  do_something_benchmark_passes caller who s storage signed = ground arith
