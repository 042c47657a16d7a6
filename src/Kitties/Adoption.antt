-- ===== src/Kitties/Adoption.antt =====
-- Adopting many kitties of the pallet (`pallets/kitties/src/lib.rs`): as many as there are deposits in
-- the free balance.
use my_substrate_kitties.Base.{
  ℕ, ◌+◌, ◌*◌, ◌≤◌, ◌≡◌, ◌≢◌, some, none, List, [], ◌∷◌, map, arith, length, All,
}
use my_substrate_kitties.Frame.Dispatch.{ok}
use my_substrate_kitties.Frame.Currency.{Currency, IsLawful, done}
use my_substrate_kitties.Kitties.Types.{Config, Block, State}
use my_substrate_kitties.Kitties.Calls.{Request, adopt_request, adopt, dispatch, run}
use my_substrate_kitties.Kitties.Transition.{Owns, Exists}

-- The documentation of `ReservableCurrency::reserve` names one failure, a free balance lower than the
-- value; so it is for an account without locks.
abbrev pub ReservesFree : Currency → Type 0
ReservesFree K = (a v : ℕ) (b : K.Balances) → v ≤ K.free_balance b a → (K.reserve a v b).0 ≡ done

module _ (C : Config) where
  -- A kitty without an owner.
  abbrev pub IsStray : State C → ℕ → Type 0
  IsStray s id = Exists C s id × (C.storage.get s.kitties_owner id ≡ none)

  abbrev pub AllDifferent : List ℕ → Type 0
  AllDifferent [] = Unit
  AllDifferent (id ∷ ids) = All (λ j. j ≢ id) ids × AllDifferent ids

  -- The calls that adopt some kitties one after the other.
  abbrev pub adoptions : Block → C.Origin → List ℕ → List (Block × C.Origin × Request)
  adoptions block origin ids = map (λ id. (block, origin, adopt_request id)) ids

module _ (C : Config) (L : IsLawful C.currency) (R : ReservesFree C.currency) (block : Block)
    (origin : C.Origin) (who : ℕ) (signed : C.ensure_signed origin ≡ some who) where
  open C use {holding_deposit_for_one_kitty as d}

  adopt_stray :
      (id : ℕ) (s : State C)
      → IsStray C s id
      → d ≤ C.currency.free_balance s.balances who
      → let (r, t) = adopt C origin id s in
        (r ≡ ok tt)
        × Owns C t who id
        × (C.currency.free_balance t.balances who + d ≡ C.currency.free_balance s.balances who)
  unfolding adopt
  adopt_stray id s (x, free) rich =
      let held = R who d s.balances rich in
      let known = C.storage.contains_key_lem s.kitties_owner id in
      (
        ground arith,
        ground (arith, C.storage.get-insert s.kitties_owner id who id),
        ground (arith, L.free-reserve who d s.balances who held),
      )

  -- An adoption leaves the owner of another kitty alone, and its own one with an owner.
  adopt_other :
      (id j : ℕ) (s : State C)
      → j ≢ id
      → let t = (adopt C origin id s).1 in
        (C.storage.get t.kitties_owner j ≡ C.storage.get s.kitties_owner j)
        × (C.storage.contains_key t.kitties j ≡ C.storage.contains_key s.kitties j)
  unfolding adopt
  adopt_other id j s other =
      (ground (arith, C.storage.get-insert s.kitties_owner id who j), ground arith)

  strays_left :
      (id : ℕ) (ids : List ℕ) (s : State C)
      → All (λ j. j ≢ id) ids
      → All (IsStray C s) ids
      → All (IsStray C (adopt C origin id s).1) ids
  strays_left id [] s others strays = tt
  strays_left id (j ∷ ids) s others strays =
      let same = adopt_other id j s others.0 in
      ((rw same.1 strays.0.0, rw same.0 strays.0.1), strays_left id ids s others.1 strays.1)

  keeps_owned :
      (ids : List ℕ) (s : State C) (id : ℕ)
      → All (λ j. j ≢ id) ids
      → Owns C s who id
      → Owns C (run C (adoptions C block origin ids) s) who id
  unfolding run dispatch
  keeps_owned [] s id others h = h
  keeps_owned (j ∷ ids) s id others h =
      let same = adopt_other j id s (λ e. others.0 (ground arith)) in
      keeps_owned ids _ id others.1 (rw same.0 h)

  -- Over a lawful currency that reserves what is free: a signer whose free balance is at least a
  -- deposit for each of some different kitties without owners can adopt them all, one call after the
  -- other; after these calls the signer owns each of them, and that many deposits are no longer free.
  pub adopt_many :
      (ids : List ℕ) (s : State C)
      → AllDifferent C ids
      → All (IsStray C s) ids
      → length ids * d ≤ C.currency.free_balance s.balances who
      → let t = run C (adoptions C block origin ids) s in
        All (Owns C t who) ids
        × (C.currency.free_balance t.balances who + length ids * d
            ≡ C.currency.free_balance s.balances who)
  unfolding run dispatch
  adopt_many [] s different strays rich = (tt, omega arith)
  adopt_many (id ∷ ids) s different strays rich =
      let first = adopt_stray id s strays.0 (grind arith) in
      let rest =
        adopt_many ids (adopt C origin id s).1 different.1
          (strays_left id ids s different.0 strays.1) (grind arith) in
      ((keeps_owned ids _ id different.0 first.1, rest.0), grind arith)
