-- ===== src/Template/Tests.antt =====
-- The unit tests of the template pallet (`pallets/template/src/tests.rs`) as evaluations over its
-- mock runtime (`pallets/template/src/mock.rs`), and the theorems at concrete calls.
use my_substrate_kitties.Base.{ℕ, ◌+◌, ◌≡◌, refl, Option, none, some, [], arith, min}
use my_substrate_kitties.Frame.Dispatch.{ok, err, module_error}
use my_substrate_kitties.Template.{
  Config, State, none_value, u32_max, do_something, cause_error, repeat_cause_error,
}
use my_substrate_kitties.Template.Laws.{repeat-do_something}

-- `impl pallet_template::Config for Test`. An origin is its signer, if it has one.
abbrev test : Config
test = record { Origin = Option ℕ; ensure_signed = λ origin. origin }

-- `new_test_ext`
abbrev new_test_ext : State
new_test_ext = record { something = none; events = [] }

it_works_for_default_value :
    let (r, s) = do_something test (some 1) 42 new_test_ext in (r ≡ ok tt) × (s.something ≡ some 42)
unfolding do_something
it_works_for_default_value = (refl, refl)

correct_error_for_none_value :
    cause_error test (some 1) new_test_ext ≡ (err (module_error none_value), new_test_ext)
unfolding cause_error
correct_error_for_none_value = refl

abbrev full : State
full = record { something = some u32_max; events = [] }

repeat-do_something_example :
    (repeat_cause_error test 5 (some 1) (do_something test (some 1) 42 new_test_ext).1).something
    ≡ some (min (42 + 5) u32_max)
repeat-do_something_example =
    repeat-do_something test (some 1) 1 refl 5 42 new_test_ext (omega arith)
