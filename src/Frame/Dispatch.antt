-- ===== src/Frame/Dispatch.antt =====
-- The shape of a dispatchable function of a pallet (`pallets/kitties/src/lib.rs`,
-- `pallets/template/src/lib.rs`): it reads and writes the storage and returns a `DispatchResult`.
--
-- An error leaves the writes that were made before it in place: the state comes back with every
-- result. Neither pallet marks a function `#[transactional]`, so nothing undoes those writes.
pub mod Agree
pub mod Cost
use my_substrate_kitties.Base.{ℕ, Bool, true, false, Option, none, some}

-- `sp_runtime::DispatchError` as far as the pallets tell errors apart: an error of the pallet
-- itself, the error of `ensure_signed`, and an error passed on from the currency.
pub data DispatchError (E : Type 0) : Type 0 where
  module_error : E → DispatchError E
  bad_origin : DispatchError E
  currency_error : ℕ → DispatchError E

-- `Result<A, DispatchError>`, and `panic` for an `unwrap` of `None`.
pub data Result (E A : Type 0) : Type 0 where
  ok : A → Result E A
  err : DispatchError E → Result E A
  panic : Result E A

-- A function on the storage `S`.
abbrev pub Action : Type 0 → Type 0 → Type 0 → Type 0
Action S E A = S → Result E A × S

module _ {S E A : Type 0} where
  abbrev pub pure : A → Action S E A
  pure a s = (ok a, s)

  abbrev pub gets : (S → A) → Action S E A
  gets f s = (ok (f s), s)

  abbrev pub throw : DispatchError E → Action S E A
  throw e s = (err e, s)

  -- `Option::unwrap`
  abbrev pub unwrap : Option A → Action S E A
  unwrap none s = (panic, s)
  unwrap (some a) s = (ok a, s)

  -- `match option { Some(a) => a, None => fail!(e) }`
  abbrev pub some_or_fail : Option A → E → Action S E A
  some_or_fail none e s = (err (module_error e), s)
  some_or_fail (some a) e s = (ok a, s)

  -- `ensure_signed(origin)?`, given what it says of the origin.
  abbrev pub signed_by : Option A → Action S E A
  signed_by none s = (err bad_origin, s)
  signed_by (some a) s = (ok a, s)

infixl 5 ◌>>=◌ ◌>>◌
-- `?`: the first error ends the function.
abbrev pub ◌>>=◌ : {S E A B : Type 0} → Action S E A → (A → Action S E B) → Action S E B
◌>>=◌ m f s =
    let (r, s') = m s in elim r [ ok a ↦ f a s' | err e ↦ (err e, s') | panic ↦ (panic, s') ]

abbrev pub ◌>>◌ : {S E A B : Type 0} → Action S E A → Action S E B → Action S E B
m >> k = m >>= λ _. k

module _ {S E : Type 0} where
  abbrev pub modify : (S → S) → Action S E (Unit {0})
  modify f s = (ok tt, f s)

  -- `ensure!(test, e)`
  abbrev pub ensure : Bool → E → Action S E (Unit {0})
  ensure true e s = (ok tt, s)
  ensure false e s = (err (module_error e), s)
