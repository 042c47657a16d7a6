-- ===== src/Kitties/LifeCycle/States.antt =====
-- What one kitty of the pallet (`pallets/kitties/src/lib.rs`) can be, and how that may change.
use my_substrate_kitties.Base.{ℕ, ◌≡◌, ◌≢◌, ◌⊎◌, false, Option, none, some, List, [], ◌∷◌}
use my_substrate_kitties.Frame.Dispatch.{Result, ok}
use my_substrate_kitties.Kitties.Types.{Kitty, Config, State, Error}
use my_substrate_kitties.Kitties.Calls.{
  Request, create_request, transfer_request, breed_request, abandon_request, adopt_request,
  clear_price_request, buy_request, set_price_request,
}
use my_substrate_kitties.Kitties.Ordering.Offers.{concerns}

-- No kitty yet, a kitty without an owner, one with an owner, and one offered at a price.
pub data Status : Type 0 where
  unborn stray : Status
  kept : ℕ → Status
  offered : ℕ → ℕ → Status

abbrev pub status_of : Option Kitty → Option ℕ → Option ℕ → Status
status_of none owner price = unborn
status_of (some kitty) none price = stray
status_of (some kitty) (some a) none = kept a
status_of (some kitty) (some a) (some price) = offered a price

abbrev pub status : (C : Config) → State C → ℕ → Status
status C s id =
    status_of (C.storage.get s.kitties id) (C.storage.get s.kitties_owner id)
      (C.storage.get s.kitties_price id)

-- What may happen to a kitty in one call `q` with result `r`: the call, its signer and its success are
-- those that the passage needs. A gift leaves an offer open, a sale closes it; a kitty stays as it is
-- if the call fails or is not about it.
pub data Passage (C : Config) (origin : C.Origin) (q : Request) (r : Result Error (Unit {0}))
    (id : ℕ) : Status → Status → Type 0 where
  stay : (x : Status) → (r ≢ ok tt) ⊎ (concerns q id ≡ false) → Passage C origin q r id x x
  birth :
      (a : ℕ)
      → C.ensure_signed origin ≡ some a
      → (q ≡ create_request) ⊎ ((id1 : ℕ) × (id2 : ℕ) × (q ≡ breed_request id1 id2))
      → r ≡ ok tt
      → Passage C origin q r id unborn stray
  adoption :
      (a : ℕ)
      → C.ensure_signed origin ≡ some a
      → q ≡ adopt_request id
      → r ≡ ok tt
      → Passage C origin q r id stray (kept a)
  desertion :
      (a : ℕ)
      → C.ensure_signed origin ≡ some a
      → q ≡ abandon_request id
      → r ≡ ok tt
      → Passage C origin q r id (kept a) stray
  desertion_offered :
      (a price : ℕ)
      → C.ensure_signed origin ≡ some a
      → q ≡ abandon_request id
      → r ≡ ok tt
      → Passage C origin q r id (offered a price) stray
  gift :
      (a b : ℕ)
      → C.ensure_signed origin ≡ some a
      → q ≡ transfer_request id b
      → r ≡ ok tt
      → Passage C origin q r id (kept a) (kept b)
  gift_offered :
      (a b price : ℕ)
      → C.ensure_signed origin ≡ some a
      → q ≡ transfer_request id b
      → r ≡ ok tt
      → Passage C origin q r id (offered a price) (offered b price)
  offer :
      (a price : ℕ)
      → C.ensure_signed origin ≡ some a
      → q ≡ set_price_request id price
      → r ≡ ok tt
      → Passage C origin q r id (kept a) (offered a price)
  new_offer :
      (a old price : ℕ)
      → C.ensure_signed origin ≡ some a
      → q ≡ set_price_request id price
      → r ≡ ok tt
      → Passage C origin q r id (offered a old) (offered a price)
  withdrawal :
      (a price : ℕ)
      → C.ensure_signed origin ≡ some a
      → q ≡ clear_price_request id
      → r ≡ ok tt
      → Passage C origin q r id (offered a price) (kept a)
  no_withdrawal :
      (a : ℕ)
      → C.ensure_signed origin ≡ some a
      → q ≡ clear_price_request id
      → r ≡ ok tt
      → Passage C origin q r id (kept a) (kept a)
  sale :
      (a b price : ℕ)
      → C.ensure_signed origin ≡ some b
      → q ≡ buy_request id
      → r ≡ ok tt
      → Passage C origin q r id (offered a price) (kept b)

-- Passages one after the other, by the calls of a history, their signers and their results.
pub data LifePath (C : Config) (id : ℕ)
    : List (C.Origin × Request × Result Error (Unit {0})) → Status → Status → Type 0 where
  here : (x : Status) → LifePath C id [] x x
  next :
      (origin : C.Origin) (q : Request) (r : Result Error (Unit {0}))
      {calls : List (C.Origin × Request × Result Error (Unit {0}))} {x y z : Status}
      → Passage C origin q r id x y
      → LifePath C id calls y z
      → LifePath C id ((origin, q, r) ∷ calls) x z

module _ {C : Config} {origin : C.Origin} {q : Request} {r : Result Error (Unit {0})} {id : ℕ} where
  pub passing :
      (x y x' y' : Status)
      → x ≡ x'
      → y ≡ y'
      → Passage C origin q r id x' y'
      → Passage C origin q r id x y
  passing x y x' y' e f p = rw (e, f) p

  pub still :
      (x y : Status) → y ≡ x → (r ≢ ok tt) ⊎ (concerns q id ≡ false) → Passage C origin q r id x y
  still x y e unmoved = rw e (stay x unmoved)
