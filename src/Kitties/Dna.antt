-- ===== src/Kitties/Dna.antt =====
-- Breeding in the kitties pallet (`pallets/kitties/src/lib.rs`) does not tell the parents apart.
use my_substrate_kitties.Base.{ℕ, ◌≡◌, ap, some, none, List, arith, Option-cases, ◌⊎◌, inl, inr}
use my_substrate_kitties.Frame.Dispatch.{Result}
use my_substrate_kitties.Kitties.Types.{Kitty, Config, Block, State, Error}
use my_substrate_kitties.Kitties.Helpers.{get_random_value, create_kitty}
use my_substrate_kitties.Kitties.Calls.{breed}
use my_substrate_kitties.Kitties.Breeding.{breed_dna_comm}

-- Two outcomes alike in the result, the kitties and their count.
abbrev pub IsAlike :
    (C : Config) → Result Error (Unit {0}) × State C → Result Error (Unit {0}) × State C → Type 0
IsAlike C (r, t) (r', t') =
    (r ≡ r') × (t.kitties ≡ t'.kitties) × (t.kitties_count ≡ t'.kitties_count)

module _ (C : Config) (block : Block) (origin : C.Origin) (id1 id2 : ℕ) (s : State C) where
  breed_comm_missing :
      ((C.ensure_signed origin ≡ none)
        ⊎ ((C.storage.get s.kitties id1 ≡ none) ⊎ (C.storage.get s.kitties id2 ≡ none)))
      → IsAlike C (breed C block origin id1 id2 s) (breed C block origin id2 id1 s)
  unfolding breed
  breed_comm_missing missing =
      let known1 = C.storage.contains_key_lem s.kitties id1 in
      let known2 = C.storage.contains_key_lem s.kitties id2 in ground arith

  breed_comm_known :
      (who : ℕ) (kitty1 kitty2 : Kitty)
      → C.ensure_signed origin ≡ some who
      → C.storage.get s.kitties id1 ≡ some kitty1
      → C.storage.get s.kitties id2 ≡ some kitty2
      → IsAlike C (breed C block origin id1 id2 s) (breed C block origin id2 id1 s)
  unfolding breed
  breed_comm_known who kitty1 kitty2 e e1 e2 =
      let known1 = C.storage.contains_key_lem s.kitties id1 in
      let known2 = C.storage.contains_key_lem s.kitties id2 in
      let dna = breed_dna_comm 16 0 (get_random_value C block who) kitty1.dna kitty2.dna in
      let made = ap (λ (x : List ℕ). create_kitty C block x s) dna in
      (ground arith, ground arith, ground arith)

  -- Breeding two kitties in either order ends alike, and leaves the same kitties and the same count.
  pub breed_comm : IsAlike C (breed C block origin id1 id2 s) (breed C block origin id2 id1 s)
  breed_comm = elim (Option-cases (C.ensure_signed origin)) [
    | inl e ↦ breed_comm_missing (inl e)
    | inr (who, e) ↦ elim (Option-cases (C.storage.get s.kitties id1)) [
      | inl e1 ↦ breed_comm_missing (inr (inl e1))
      | inr (kitty1, e1) ↦ elim (Option-cases (C.storage.get s.kitties id2)) [
        | inl e2 ↦ breed_comm_missing (inr (inr e2))
        | inr (kitty2, e2) ↦ breed_comm_known who kitty1 kitty2 e e1 e2
      ]
    ]
  ]
