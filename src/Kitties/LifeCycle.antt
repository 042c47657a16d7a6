-- ===== src/Kitties/LifeCycle.antt =====
-- The life of one kitty of the pallet (`pallets/kitties/src/lib.rs`) as a state machine.
pub mod States
use my_substrate_kitties.Base.{
  refl, ℕ, ◌≡◌, some, none, Option, inl, inr, List, [], ◌∷◌, arith, ◌==◌, Option-cases, Bool-cases,
}
use my_substrate_kitties.Frame.Dispatch.{Result}
use my_substrate_kitties.Frame.Currency.{IsLawful}
use my_substrate_kitties.Kitties.Types.{Kitty, Config, Block, State, Error}
use my_substrate_kitties.Kitties.Calls.{Request, dispatch, run}
use my_substrate_kitties.Kitties.Implements.{dispatch-Transition}
use my_substrate_kitties.Kitties.Invariant.{IsValid}
use my_substrate_kitties.Kitties.History.{IsSound, dispatch-IsSound}
use my_substrate_kitties.Kitties.Transition.{
  Transition, refused, payment_kept, created, bred, transfered, abandoned, adopted, priced,
  unpriced, sold,
}
use States.{
  Status, unborn, stray, kept, offered, status_of, status, Passage, stay, birth, adoption,
  desertion, desertion_offered, gift, gift_offered, offer, new_offer, withdrawal, no_withdrawal,
  sale, LifePath, here, next, passing, still,
}

module _ (C : Config) {block : Block} {origin : C.Origin} {s t : State C} (v : IsValid C s)
    (id : ℕ) where
  step-Passage :
      {q : Request} {r : Result Error (Unit {0})}
      → Transition C block origin s t q r
      → Passage C origin q r id (status C s id) (status C t id)
  step-Passage (refused e h) = still _ _ (rw h) (inl λ ok. ground arith)
  step-Passage (payment_kept i buyer seller price e o w p c f h) =
      still _ _ (rw h) (inl λ ok. ground arith)
  step-Passage (created who i kitty o n k h) = elim (Bool-cases (id == i)) [
    | inl same ↦
        passing _ _ unborn stray (ground (arith, v.numbered id))
          (ground
            (arith, v.numbered id, v.owned_kitties id, C.storage.get-insert s.kitties i kitty id))
          (birth who o (inl refl) refl)
    | inr other ↦ still _ _ (ground (arith, C.storage.get-insert s.kitties i kitty id)) (inr refl)
  ]
  step-Passage (bred who i id1 id2 kitty k1 k2 o e1 e2 x n k h) = elim (Bool-cases (id == i)) [
    | inl same ↦
        passing _ _ unborn stray (ground (arith, v.numbered id))
          (ground
            (arith, v.numbered id, v.owned_kitties id, C.storage.get-insert s.kitties i kitty id))
          (birth who o (inr (id1, id2, refl)) refl)
    | inr other ↦ still _ _ (ground (arith, C.storage.get-insert s.kitties i kitty id)) (inr refl)
  ]
  step-Passage (transfered who i new_owner o x w c h) = elim (Bool-cases (id == i)) [
    | inl same ↦ elim (Option-cases (C.storage.get s.kitties_price id)) [
      | inl closed ↦
          passing _ _ (kept who) (kept new_owner)
            (ground (arith, C.storage.contains_key_lem s.kitties id))
            (ground (
              arith,
              C.storage.contains_key_lem s.kitties id,
              C.storage.get-insert s.kitties_owner i new_owner id,
            ))
            (gift who new_owner o (ground arith) refl)
      | inr (old, open_at) ↦
          passing _ _ (offered who old) (offered new_owner old)
            (ground (arith, C.storage.contains_key_lem s.kitties id))
            (ground (
              arith,
              C.storage.contains_key_lem s.kitties id,
              C.storage.get-insert s.kitties_owner i new_owner id,
            ))
            (gift_offered who new_owner old o (ground arith) refl)
    ]
    | inr other ↦
        still _ _ (ground (arith, C.storage.get-insert s.kitties_owner i new_owner id))
          (inr (ground arith))
  ]
  step-Passage (abandoned who i o x w h) = elim (Bool-cases (id == i)) [
    | inl same ↦ elim (Option-cases (C.storage.get s.kitties_price id)) [
      | inl closed ↦
          passing _ _ (kept who) (stray) (ground (arith, C.storage.contains_key_lem s.kitties id))
            (ground (
              arith,
              C.storage.contains_key_lem s.kitties id,
              C.storage.get-remove s.kitties_owner i id,
              C.storage.get-remove s.kitties_price i id,
            ))
            (desertion who o (ground arith) refl)
      | inr (old, open_at) ↦
          passing _ _ (offered who old) (stray)
            (ground (arith, C.storage.contains_key_lem s.kitties id))
            (ground (
              arith,
              C.storage.contains_key_lem s.kitties id,
              C.storage.get-remove s.kitties_owner i id,
              C.storage.get-remove s.kitties_price i id,
            ))
            (desertion_offered who old o (ground arith) refl)
    ]
    | inr other ↦
        still _ _
          (ground (
            arith,
            C.storage.get-remove s.kitties_owner i id,
            C.storage.get-remove s.kitties_price i id,
          ))
          (inr (ground arith))
  ]
  step-Passage (adopted who i o x w c h) = elim (Bool-cases (id == i)) [
    | inl same ↦
        passing _ _ stray (kept who) (ground (arith, C.storage.contains_key_lem s.kitties id))
          (ground (
            arith,
            C.storage.contains_key_lem s.kitties id,
            v.owned_prices id,
            C.storage.get-insert s.kitties_owner i who id,
          ))
          (adoption who o (ground arith) refl)
    | inr other ↦
        still _ _ (ground (arith, C.storage.get-insert s.kitties_owner i who id))
          (inr (ground arith))
  ]
  step-Passage (priced who i price o x w h) = elim (Bool-cases (id == i)) [
    | inl same ↦ elim (Option-cases (C.storage.get s.kitties_price id)) [
      | inl closed ↦
          passing _ _ (kept who) (offered who price)
            (ground (arith, C.storage.contains_key_lem s.kitties id))
            (ground (
              arith,
              C.storage.contains_key_lem s.kitties id,
              C.storage.get-insert s.kitties_price i price id,
            ))
            (offer who price o (ground arith) refl)
      | inr (old, open_at) ↦
          passing _ _ (offered who old) (offered who price)
            (ground (arith, C.storage.contains_key_lem s.kitties id))
            (ground (
              arith,
              C.storage.contains_key_lem s.kitties id,
              C.storage.get-insert s.kitties_price i price id,
            ))
            (new_offer who old price o (ground arith) refl)
    ]
    | inr other ↦
        still _ _ (ground (arith, C.storage.get-insert s.kitties_price i price id))
          (inr (ground arith))
  ]
  step-Passage (unpriced who i o x w h) = elim (Bool-cases (id == i)) [
    | inl same ↦ elim (Option-cases (C.storage.get s.kitties_price id)) [
      | inl closed ↦
          passing _ _ (kept who) (kept who)
            (ground (arith, C.storage.contains_key_lem s.kitties id))
            (ground (
              arith,
              C.storage.contains_key_lem s.kitties id,
              C.storage.get-remove s.kitties_price i id,
            ))
            (no_withdrawal who o (ground arith) refl)
      | inr (old, open_at) ↦
          passing _ _ (offered who old) (kept who)
            (ground (arith, C.storage.contains_key_lem s.kitties id))
            (ground (
              arith,
              C.storage.contains_key_lem s.kitties id,
              C.storage.get-remove s.kitties_price i id,
            ))
            (withdrawal who old o (ground arith) refl)
    ]
    | inr other ↦
        still _ _ (ground (arith, C.storage.get-remove s.kitties_price i id)) (inr (ground arith))
  ]
  step-Passage (sold i buyer seller price o x w p c f h) = elim (Bool-cases (id == i)) [
    | inl same ↦
        passing _ _ (offered seller price) (kept buyer)
          (ground (arith, C.storage.contains_key_lem s.kitties id))
          (ground (
            arith,
            C.storage.contains_key_lem s.kitties id,
            C.storage.get-insert s.kitties_owner i buyer id,
            C.storage.get-remove s.kitties_price i id,
          ))
          (sale seller buyer price o (ground arith) refl)
    | inr other ↦
        still _ _
          (ground (
            arith,
            C.storage.get-insert s.kitties_owner i buyer id,
            C.storage.get-remove s.kitties_price i id,
          ))
          (inr (ground arith))
  ]

-- The calls of a history with their signers and the results that they have.
abbrev pub results :
    (C : Config)
    → List (Block × C.Origin × Request)
    → State C
    → List (C.Origin × Request × Result Error (Unit {0}))
results C [] s = []
results C ((block, origin, q) ∷ requests) s =
    let (r, t) = dispatch C block origin q s in (origin, q, r) ∷ results C requests t

module _ (C : Config) (L : IsLawful C.currency) where
  -- A call takes every kitty along the one passage of the state machine that fits the call, its signer
  -- and its result.
  pub dispatch-Passage :
      (block : Block) (origin : C.Origin) (q : Request) (s : State C) (id : ℕ)
      → IsValid C s
      → let (r, t) = dispatch C block origin q s in
        Passage C origin q r id (status C s id) (status C t id)
  dispatch-Passage block origin q s id v =
      step-Passage C v id (dispatch-Transition C L block origin s v.counted q)

  -- Over a lawful currency and from a sound storage, any history takes every kitty from its status
  -- to the status that it ends in, call by call: a call that fails leaves its status; one that
  -- succeeds and is about its owner or its price takes it along the passage for this call, signed by
  -- the account that the passage names (the owner for a gift, an offer, a withdrawal or a desertion,
  -- the new owner for an adoption or a sale); any other leaves its status too, unless the call
  -- creates or breeds and begins its life.
  pub run-LifePath :
      (requests : List (Block × C.Origin × Request)) (s : State C) (id : ℕ)
      → IsSound C s
      → LifePath C id (results C requests s) (status C s id) (status C (run C requests s) id)
  unfolding run
  run-LifePath [] s id h = here _
  run-LifePath ((block, origin, q) ∷ requests) s id h =
      next origin q _ (dispatch-Passage block origin q s id h.valid)
        (run-LifePath requests _ id (dispatch-IsSound C L block origin q s h))
