-- ===== src/Kitties/Ordering/Unmoved.antt =====
-- What the calls of the kitties pallet (`pallets/kitties/src/lib.rs`) read in a storage that shows some
-- prices in another way: the same, if they read no such price.
use my_substrate_kitties.Base.{
  ℕ, ◌≡◌, Bool, Option, ap, ◌∙◌, arith, ◌==◌, List, Bool-cases, inl, inr,
}
use my_substrate_kitties.Frame.Dispatch.{signed_by, some_or_fail, ensure, gets}
use my_substrate_kitties.Frame.Dispatch.Agree.{
  Agrees, ensure-Agrees, some_or_fail-Agrees, signed_by-Agrees, gets-Agrees,
}
use my_substrate_kitties.Kitties.Types.{Config, State, Error, Event}
use my_substrate_kitties.Kitties.Helpers.{Call}
use my_substrate_kitties.Kitties.Ordering.Offers.{Alike, put, get-put}

module _ (C : Config) (shown : ℕ → Option ℕ → Option ℕ) (more : List Event) where
  abbrev pub Published : State C → State C → Type 0
  Published s t = Alike C shown more s t

  -- The price of this kitty is shown as it is.
  abbrev pub Spares : ℕ → Type 0
  Spares i = (price : Option ℕ) → shown i price ≡ price

  abbrev pub Unmoved : {A : Type 0} → Call C A → Type 0
  Unmoved m = Agrees Published m m

  pub signed : (o : Option ℕ) → Unmoved (signed_by o)
  signed o = signed_by-Agrees Published o

  pub checked : (b : Bool) (e : Error) → Unmoved (ensure b e)
  checked b e = ensure-Agrees Published b e

  pub found : (o : Option ℕ) (e : Error) → Unmoved (some_or_fail o e)
  found o e = some_or_fail-Agrees Published o e

  pub read_count : Unmoved (gets (λ s. s.kitties_count))
  read_count =
      gets-Agrees Published (λ s. s.kitties_count) (λ t. t.kitties_count) (λ s t v. v.count)

  pub read_known : (i : ℕ) → Unmoved (gets (λ s. C.storage.contains_key s.kitties i))
  read_known i =
      gets-Agrees Published (λ s. C.storage.contains_key s.kitties i)
        (λ t. C.storage.contains_key t.kitties i)
        (λ s t v. ap (λ m. C.storage.contains_key m i) v.kitties)

  pub read_kitty : (i : ℕ) → Unmoved (gets (λ s. C.storage.get s.kitties i))
  read_kitty i =
      gets-Agrees Published (λ s. C.storage.get s.kitties i) (λ t. C.storage.get t.kitties i)
        (λ s t v. ap (λ m. C.storage.get m i) v.kitties)

  pub read_owned : (i : ℕ) → Unmoved (gets (λ s. C.storage.contains_key s.kitties_owner i))
  read_owned i =
      gets-Agrees Published (λ s. C.storage.contains_key s.kitties_owner i)
        (λ t. C.storage.contains_key t.kitties_owner i)
        (λ s t v. ap (λ m. C.storage.contains_key m i) v.owner)

  pub read_owner : (i : ℕ) → Unmoved (gets (λ s. C.storage.get s.kitties_owner i))
  read_owner i =
      gets-Agrees Published (λ s. C.storage.get s.kitties_owner i)
        (λ t. C.storage.get t.kitties_owner i) (λ s t v. ap (λ m. C.storage.get m i) v.owner)

  pub read_price : (i : ℕ) → Spares i → Unmoved (gets (λ s. C.storage.get s.kitties_price i))
  read_price i spared =
      gets-Agrees Published (λ s. C.storage.get s.kitties_price i)
        (λ t. C.storage.get t.kitties_price i)
        (λ s t v. v.price i ∙ spared (C.storage.get s.kitties_price i))

  pub put_again :
      (i : ℕ) (price : Option ℕ) (m n : C.storage.Map ℕ)
      → Spares i
      → ((j : ℕ) → C.storage.get n j ≡ shown j (C.storage.get m j))
      → (j : ℕ) → C.storage.get (put C i price n) j ≡ shown j (C.storage.get (put C i price m) j)
  put_again i price m n spared same j =
      rw (get-put C i price n j, get-put C i price m j)
        (elim (Bool-cases (j == i)) [
          | inl here ↦ ground (arith, spared price)
          | inr there ↦ ground (arith, same j)
        ])
