-- ===== src/Kitties/Invariant.antt =====
-- The well-formedness of the storage of the kitties pallet (`pallets/kitties/src/lib.rs`), which
-- every call keeps.
use my_substrate_kitties.Base.{ℕ, ◌+◌, ◌≡◌, true, ◌&&◌, arith, ltb, is_some}
use my_substrate_kitties.Frame.Dispatch.{Result}
use my_substrate_kitties.Kitties.Types.{Error, Config, Block, State}
use my_substrate_kitties.Kitties.Calls.{Request}
use my_substrate_kitties.Kitties.Transition.{
  Transition, refused, payment_kept, created, bred, transfered, abandoned, adopted, priced,
  unpriced, sold, HasCountU32, count_of,
}

module _ (C : Config) where
  -- A kitty is there exactly under the ids from 1 to the count.
  abbrev pub IsNumbered : State C → Type 0
  IsNumbered s =
      (id : ℕ)
      → is_some (C.storage.get s.kitties id) ≡ (ltb 0 id && ltb id (count_of s.kitties_count + 1))

  -- Only a kitty has an owner, and only a kitty with an owner has a price.
  abbrev pub HasOwnedKitties : State C → Type 0
  HasOwnedKitties s =
      (id : ℕ)
      → is_some (C.storage.get s.kitties_owner id) ≡ true
      → is_some (C.storage.get s.kitties id) ≡ true

  abbrev pub HasOwnedPrices : State C → Type 0
  HasOwnedPrices s =
      (id : ℕ)
      → is_some (C.storage.get s.kitties_price id) ≡ true
      → is_some (C.storage.get s.kitties_owner id) ≡ true

  pub record IsValid (s : State C) : Type 0 where
    pub counted : HasCountU32 C s
    pub numbered : IsNumbered s
    pub owned_kitties : HasOwnedKitties s
    pub owned_prices : HasOwnedPrices s

module _ (C : Config) {block : Block} {origin : C.Origin} {s t : State C} where
  pub counted_step :
      {q : Request} {r : Result Error (Unit {0})}
      → Transition C block origin s t q r
      → HasCountU32 C s
      → HasCountU32 C t
  counted_step (refused e h) v = ground arith
  counted_step (payment_kept id buyer seller price e o w p c f h) v = ground arith
  counted_step (created who id kitty o n k h) v = ground arith
  counted_step (bred who id id1 id2 kitty k1 k2 o e1 e2 x n k h) v = ground arith
  counted_step (transfered who id new_owner o x w c h) v = ground arith
  counted_step (abandoned who id o x w h) v = ground arith
  counted_step (adopted who id o x w c h) v = ground arith
  counted_step (priced who id price o x w h) v = ground arith
  counted_step (unpriced who id o x w h) v = ground arith
  counted_step (sold id buyer seller price o x w p c d h) v = ground arith

  step-IsNumbered :
      {q : Request} {r : Result Error (Unit {0})}
      → Transition C block origin s t q r
      → IsNumbered C s
      → IsNumbered C t
  step-IsNumbered (refused e h) v j = ground (arith, v j)
  step-IsNumbered (payment_kept id buyer seller price e o w p c f h) v j = ground (arith, v j)
  step-IsNumbered (created who id kitty o n k h) v j =
      ground (arith, v j, C.storage.get-insert s.kitties id kitty j)
  step-IsNumbered (bred who id id1 id2 kitty k1 k2 o e1 e2 x n k h) v j =
      ground (arith, v j, C.storage.get-insert s.kitties id kitty j)
  step-IsNumbered (transfered who id new_owner o x w c h) v j = ground (arith, v j)
  step-IsNumbered (abandoned who id o x w h) v j = ground (arith, v j)
  step-IsNumbered (adopted who id o x w c h) v j = ground (arith, v j)
  step-IsNumbered (priced who id price o x w h) v j = ground (arith, v j)
  step-IsNumbered (unpriced who id o x w h) v j = ground (arith, v j)
  step-IsNumbered (sold id buyer seller price o x w p c d h) v j = ground (arith, v j)

  owned_kitties_step :
      {q : Request} {r : Result Error (Unit {0})}
      → Transition C block origin s t q r
      → HasOwnedKitties C s
      → HasOwnedKitties C t
  owned_kitties_step (refused e h) v j g = ground (arith, v j)
  owned_kitties_step (payment_kept id buyer seller price e o w p c f h) v j g = ground (arith, v j)
  owned_kitties_step (created who id kitty o n k h) v j g =
      ground (arith, v j, C.storage.get-insert s.kitties id kitty j)
  owned_kitties_step (bred who id id1 id2 kitty k1 k2 o e1 e2 x n k h) v j g =
      ground (arith, v j, C.storage.get-insert s.kitties id kitty j)
  owned_kitties_step (transfered who id new_owner o x w c h) v j g = ground (
    arith,
    v j,
    C.storage.get-insert s.kitties_owner id new_owner j,
    C.storage.contains_key_lem s.kitties id,
  )
  owned_kitties_step (abandoned who id o x w h) v j g =
      ground (arith, v j, C.storage.get-remove s.kitties_owner id j)
  owned_kitties_step (adopted who id o x w c h) v j g = ground (
    arith,
    v j,
    C.storage.get-insert s.kitties_owner id who j,
    C.storage.contains_key_lem s.kitties id,
  )
  owned_kitties_step (priced who id price o x w h) v j g = ground (arith, v j)
  owned_kitties_step (unpriced who id o x w h) v j g = ground (arith, v j)
  owned_kitties_step (sold id buyer seller price o x w p c d h) v j g = ground (
    arith,
    v j,
    C.storage.get-insert s.kitties_owner id buyer j,
    C.storage.contains_key_lem s.kitties id,
  )

  owned_prices_step :
      {q : Request} {r : Result Error (Unit {0})}
      → Transition C block origin s t q r
      → HasOwnedPrices C s
      → HasOwnedPrices C t
  owned_prices_step (refused e h) v j g = ground (arith, v j)
  owned_prices_step (payment_kept id buyer seller price e o w p c f h) v j g = ground (arith, v j)
  owned_prices_step (created who id kitty o n k h) v j g = ground (arith, v j)
  owned_prices_step (bred who id id1 id2 kitty k1 k2 o e1 e2 x n k h) v j g = ground (arith, v j)
  owned_prices_step (transfered who id new_owner o x w c h) v j g =
      ground (arith, v j, C.storage.get-insert s.kitties_owner id new_owner j)
  owned_prices_step (abandoned who id o x w h) v j g = ground (
    arith,
    v j,
    C.storage.get-remove s.kitties_owner id j,
    C.storage.get-remove s.kitties_price id j,
  )
  owned_prices_step (adopted who id o x w c h) v j g =
      ground (arith, v j, C.storage.get-insert s.kitties_owner id who j)
  owned_prices_step (priced who id price o x w h) v j g =
      ground (arith, v j, C.storage.get-insert s.kitties_price id price j)
  owned_prices_step (unpriced who id o x w h) v j g =
      ground (arith, v j, C.storage.get-remove s.kitties_price id j)
  owned_prices_step (sold id buyer seller price o x w p c d h) v j g = ground (
    arith,
    v j,
    C.storage.get-insert s.kitties_owner id buyer j,
    C.storage.get-remove s.kitties_price id j,
  )

  -- Every step of the contract, refused or not, leaves a well-formed storage well-formed.
  pub Transition-IsValid :
      {q : Request} {r : Result Error (Unit {0})}
      → Transition C block origin s t q r
      → IsValid C s
      → IsValid C t
  Transition-IsValid step v = record {
    counted = counted_step step v.counted;
    numbered = step-IsNumbered step v.numbered;
    owned_kitties = owned_kitties_step step v.owned_kitties;
    owned_prices = owned_prices_step step v.owned_prices;
  }
