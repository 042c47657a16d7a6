-- ===== src/Runtime/Ownership.antt =====
-- What an owner of a kitty who does nothing keeps in the composed runtime (`runtime/src/lib.rs`).
use my_substrate_kitties.Base.{
  ℕ, ◌≡◌, refl, ap, Bool, false, Option, some, List, [], ◌∷◌, ◌++◌, ◌⊎◌, inl, inr, All,
}
use my_substrate_kitties.Frame.Currency.{IsLawful}
use my_substrate_kitties.Kitties.Types.{Block}
use my_substrate_kitties.Kitties.Calls.{buy_request}
use my_substrate_kitties.Kitties.Ordering.Offers.{concerns}
use my_substrate_kitties.Kitties.Possession.{Keeps, IsPurchase, dispatch-Keeps}
use my_substrate_kitties.Runtime.Calls.{
  Host, kitties_config, State, Call, do_something_call, cause_error_call, kitties_call,
  elsewhere_call, apply, apply_all,
}
use my_substrate_kitties.Runtime.Soundness.{IsDecent, IsInOrder, apply-IsInOrder}

module _ (H : Host) (who id : ℕ) (asked : Option ℕ) where
  -- The call is about the owner or the price of the kitty.
  abbrev is_about : Call H → Bool
  is_about (kitties_call q) = concerns q id
  is_about _ = false

  -- The account signs no such call.
  abbrev pub QuietAll : List (Block × H.Origin × Call H) → Type 0
  QuietAll [] = Unit {0}
  QuietAll ((block, origin, call) ∷ calls) =
      (H.ensure_signed origin ≡ some who → is_about call ≡ false) × QuietAll calls

  abbrev pub Keeping : State H → Type 0
  Keeping s = Keeps (kitties_config H) who id asked s.kitties_module

  -- A call of the runtime that buys the kitty.
  abbrev pub Buys : Block → H.Origin → Call H → State H → Type 0
  Buys block origin call s =
      (call ≡ kitties_call (buy_request id))
      × IsPurchase (kitties_config H) who id asked block origin s.kitties_module

module _ (H : Host) (L : IsLawful H.balances) (who id : ℕ) (asked : Option ℕ) where
  apply-Keeps :
      (block : Block) (origin : H.Origin) (call : Call H) (s : State H)
      → IsInOrder H s
      → (H.ensure_signed origin ≡ some who → is_about H who id asked call ≡ false)
      → Keeping H who id asked s
      → Keeping H who id asked (apply H block origin call s)
        ⊎ Buys H who id asked block origin call s
  unfolding apply
  apply-Keeps block origin (do_something_call n) s v quiet k = inl k
  apply-Keeps block origin cause_error_call s v quiet k = inl k
  apply-Keeps block origin (elsewhere_call f) s v quiet k = inl k
  apply-Keeps block origin (kitties_call q) s v quiet k =
      elim (dispatch-Keeps (kitties_config H) L who id asked block origin q s.kitties_module
        v.kitties quiet k) [
          | inl kept ↦ inl kept
          | inr (e, bought) ↦ inr (ap kitties_call e, bought)
        ]

  -- Over a lawful currency and from a state in order, if no call of a pallet from elsewhere lowers a
  -- reserved balance: while the owner of a kitty signs no call about it, whatever others do in the
  -- runtime the owner keeps it, and keeps it for sale at the price asked, or not for sale, as it was; or
  -- one of the calls is a purchase of it by another signer, which finds the kitty still with the
  -- owner, succeeds, and pays the owner exactly the price asked.
  pub apply_all-Keeps :
      (calls : List (Block × H.Origin × Call H)) (s : State H)
      → All (λ (c : Block × H.Origin × Call H). IsDecent H c.2) calls
      → IsInOrder H s
      → QuietAll H who id asked calls
      → Keeping H who id asked s
      → Keeping H who id asked (apply_all H calls s)
        ⊎ ((before : List (Block × H.Origin × Call H)) × (block : Block) × (origin : H.Origin)
            × (call : Call H) × (after : List (Block × H.Origin × Call H)) × (calls
                ≡ before ++ ((block, origin, call) ∷ after))
            × Buys H who id asked block origin call (apply_all H before s))
  unfolding apply_all
  apply_all-Keeps [] s fits v quiet k = inl k
  apply_all-Keeps ((block, origin, call) ∷ calls) s (fit, fits) v (quiet, calm) k =
      elim (apply-Keeps block origin call s v quiet k) [
        | inl kept ↦
            elim (apply_all-Keeps calls _ fits (apply-IsInOrder H L block origin call s fit v) calm
              kept) [
                | inl still ↦ inl still
                | inr (before, b, o, c, after, split, bought) ↦
                    let first : Block × H.Origin × Call H = (block, origin, call) in
                    inr (first ∷ before, b, o, c, after, ap (λ l. first ∷ l) split, bought)
              ]
        | inr bought ↦ inr ([], block, origin, call, calls, refl, bought)
      ]
