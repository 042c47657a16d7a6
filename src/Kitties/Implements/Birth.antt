-- ===== src/Kitties/Implements/Birth.antt =====
-- `create` and `breed` of the kitties pallet (`pallets/kitties/src/lib.rs`) make steps of `Transition`.
use my_substrate_kitties.Base.{
  ℕ, ◌+◌, ◌==◌, List, ◌≡◌, refl, ◌⊎◌, inl, inr, some, none, arith, Option-cases, Bool-cases,
}
use my_substrate_kitties.Frame.Dispatch.{ok, err, module_error}
use my_substrate_kitties.Kitties.Types.{Config, Block, State, Kitty, kitties_count_overflow}
use my_substrate_kitties.Kitties.Helpers.{u32_max, create_kitty, breed_dna, get_random_value}
use my_substrate_kitties.Kitties.Calls.{create, breed, create_request, breed_request}
use my_substrate_kitties.Kitties.Transition.{
  Transition, created, bred, HasCountU32, IsNext, count_of,
}
use my_substrate_kitties.Kitties.Implements.Rules.{atomic}

module _ (C : Config) (block : Block) (origin : C.Origin) (s : State C) where
  -- A kitty is made under the next id, unless the ids have run out.
  pub create_kitty-cases :
      HasCountU32 C s
      → (dna : List ℕ)
      → let id = count_of s.kitties_count + 1 in
        let kitty : Kitty = record { dna = dna; birth_time = block.now } in
        ((count_of s.kitties_count ≡ u32_max)
          × (create_kitty C block dna s ≡ (err (module_error kitties_count_overflow), s)))
        ⊎ (IsNext C s id
            × (create_kitty C block dna s ≡ (
              ok id,
              record s { kitties_count = some id; kitties = C.storage.insert id kitty s.kitties },
            )))
  unfolding create_kitty
  create_kitty-cases fits dna = elim (Bool-cases (count_of s.kitties_count == u32_max)) [
    | inl full ↦ inl (ground arith, ground arith)
    | inr room ↦ inr ((ground arith, ground arith), ground arith)
  ]

  pub create-Transition :
      HasCountU32 C s
      → let (r, t) = create C block origin s in Transition C block origin s t create_request r
  unfolding create
  create-Transition fits = elim (Option-cases (C.ensure_signed origin)) [
    | inl e ↦
        atomic C block origin s _ _ _ (λ h. ground arith) (λ h. ground arith) (λ h. ground arith)
    | inr (who, e) ↦
        atomic C block origin s _ _ _
          (λ h.
            created who (count_of s.kitties_count + 1) _ e (ground arith, ground arith) refl
              (ground arith))
          (λ h. ground arith) (λ h. ground arith)
  ]

  -- Without a signature, or with a kitty that is not there, nothing happens.
  breed_refused :
      (id1 id2 : ℕ)
      → ((C.ensure_signed origin ≡ none)
          ⊎ ((C.storage.get s.kitties id1 ≡ none) ⊎ (C.storage.get s.kitties id2 ≡ none)))
      → let (r, t) = breed C block origin id1 id2 s in
        Transition C block origin s t (breed_request id1 id2) r
  unfolding breed
  breed_refused id1 id2 missing =
      let known1 = C.storage.contains_key_lem s.kitties id1 in
      let known2 = C.storage.contains_key_lem s.kitties id2 in
      atomic C block origin s _ _ _ (λ h. ground arith) (λ h. ground arith) (λ h. ground arith)

  breed_known :
      HasCountU32 C s
      → (who id1 id2 : ℕ) (kitty1 kitty2 : Kitty) → C.ensure_signed origin ≡ some who
      → C.storage.get s.kitties id1 ≡ some kitty1
      → C.storage.get s.kitties id2 ≡ some kitty2
      → let (r, t) = breed C block origin id1 id2 s in
        Transition C block origin s t (breed_request id1 id2) r
  unfolding breed
  breed_known fits who id1 id2 kitty1 kitty2 e e1 e2 =
      let known1 = C.storage.contains_key_lem s.kitties id1 in
      let known2 = C.storage.contains_key_lem s.kitties id2 in
      let dna = breed_dna 16 0 (get_random_value C block who) kitty1.dna kitty2.dna in
      let made = create_kitty-cases fits dna in
      atomic C block origin s _ _ _
        (λ h.
          bred who (count_of s.kitties_count + 1) id1 id2 _ kitty1 kitty2 e e1 e2 (ground arith)
            (ground arith, ground arith) refl (ground arith))
        (λ h. ground arith) (λ h. ground arith)

  pub breed-Transition :
      HasCountU32 C s
      → (id1 id2 : ℕ)
      → let (r, t) = breed C block origin id1 id2 s in
        Transition C block origin s t (breed_request id1 id2) r
  breed-Transition fits id1 id2 = elim (Option-cases (C.ensure_signed origin)) [
    | inl e ↦ breed_refused id1 id2 (inl e)
    | inr (who, e) ↦ elim (Option-cases (C.storage.get s.kitties id1)) [
      | inl e1 ↦ breed_refused id1 id2 (inr (inl e1))
      | inr (kitty1, e1) ↦ elim (Option-cases (C.storage.get s.kitties id2)) [
        | inl e2 ↦ breed_refused id1 id2 (inr (inr e2))
        | inr (kitty2, e2) ↦ breed_known fits who id1 id2 kitty1 kitty2 e e1 e2
      ]
    ]
  ]
