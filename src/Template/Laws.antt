-- ===== src/Template/Laws.antt =====
-- What the calls of the template pallet (`pallets/template/src/lib.rs`) do to its number.
use my_substrate_kitties.Base.{
  ℕ, zero, suc, ◌+◌, ◌≤◌, ◌≡◌, some, arith, ltb, min, Bool-cases, inl, inr,
}
use my_substrate_kitties.Template.{
  Config, State, u32_max, do_something, cause_error, repeat_cause_error,
}

-- A stored number is a `u32`.
abbrev pub HasU32 : State → Type 0
HasU32 s = (n : ℕ) → s.something ≡ some n → n ≤ u32_max

module _ (C : Config) (origin : C.Origin) (who : ℕ)
    (signed : C.ensure_signed origin ≡ some who) where
  repeat_counts :
      (k n : ℕ) (s : State)
      → s.something ≡ some n
      → n ≤ u32_max
      → (repeat_cause_error C k origin s).something ≡ some (min (n + k) u32_max)
  unfolding repeat_cause_error cause_error
  repeat_counts zero n s e h = ground arith
  repeat_counts (suc k) n s e h = elim (Bool-cases (ltb u32_max (n + 1))) [
    | inl full ↦
        let again = repeat_counts k n (cause_error C origin s).1 (ground arith) h in ground arith
    | inr room ↦
        let again =
          repeat_counts k (n + 1) (cause_error C origin s).1 (ground arith) (ground arith) in
        ground arith
  ]

  -- After a signed `do_something` of a `u32`, any number of calls of `cause_error` by the same
  -- origin counts on from there and stops at the largest `u32`.
  pub repeat-do_something :
      (k n : ℕ) (s : State)
      → n ≤ u32_max
      → (repeat_cause_error C k origin (do_something C origin n s).1).something
        ≡ some (min (n + k) u32_max)
  unfolding do_something
  repeat-do_something k n s h = repeat_counts k n _ (ground arith) h
