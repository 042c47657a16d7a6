-- ===== src/Template.antt =====
-- The template pallet, `pallets/template/src/lib.rs`: one stored number, a call that sets it and a
-- call that adds one to it or fails.
pub mod Laws
pub mod Benchmarking
mod Mock
mod Tests
use my_substrate_kitties.Base.{
  ℕ, zero, suc, ◌+◌, ◌-◌, ◌^◌, Option, none, some, List, [], ◌∷◌, ◌++◌, ltb, if◌then◌else◌,
}
use my_substrate_kitties.Frame.Dispatch.{Action, gets, some_or_fail, signed_by, modify, ◌>>=◌, ◌>>◌}

abbrev pub u32_max : ℕ
u32_max = 2 ^ 32 - 1

-- An event holds the number and the account that stored it.
pub data Event : Type 0 where
  something_stored : ℕ → ℕ → Event

pub data Error : Type 0 where
  none_value : Error
  storage_overflow : Error

-- `trait Config`, with what the runtime says of the origin of a call.
pub record Config : Type 1 where
  pub Origin : Type 0
  pub ensure_signed : Origin → Option ℕ

-- The storage value and the events deposited so far.
pub record State : Type 0 where
  pub something : Option ℕ
  pub events : List Event

abbrev Call : Type 0 → Type 0
Call = Action State Error

-- `u32::checked_add`
abbrev checked_add : ℕ → ℕ → Option ℕ
checked_add a b = if ltb u32_max (a + b) then none else some (a + b)

module _ (C : Config) where
  unfoldable pub do_something : C.Origin → ℕ → Call (Unit {0})
  do_something origin something = do
    who ← signed_by (C.ensure_signed origin)
    modify λ s. record s { something = some something }
    modify λ s. record s { events = s.events ++ (something_stored something who ∷ []) }

  unfoldable pub cause_error : C.Origin → Call (Unit {0})
  cause_error origin = do
    signed_by (C.ensure_signed origin)
    old ← some_or_fail (← gets (λ s. s.something)) none_value
    new ← some_or_fail (checked_add old 1) storage_overflow
    modify λ s. record s { something = some new }

  -- `n` calls of `cause_error` by one origin, and the state that they leave.
  unfoldable pub repeat_cause_error : ℕ → C.Origin → State → State
  repeat_cause_error zero origin s = s
  repeat_cause_error (suc n) origin s = repeat_cause_error n origin (cause_error origin s).1
