-- ===== src/Kitties/Reasons.antt =====
-- What the errors of the kitties pallet (`pallets/kitties/src/lib.rs`) tell the caller.
use my_substrate_kitties.Base.{
  ℕ, ◌≡◌, ◌≢◌, ◌⊎◌, inl, inr, some, none, true, false, arith, Option-cases,
}
use my_substrate_kitties.Frame.Dispatch.{err, module_error}
use my_substrate_kitties.Kitties.Types.{
  Kitty, Config, Block, State, gender, Error, kitties_count_overflow, kitty_not_exists,
  not_owner_of_kitty, can_not_adopt_kitty_with_an_owner, can_not_breed_with_same_gender,
  kitty_not_for_sell, no_need_to_buy_kitty_without_an_owner,
}
use my_substrate_kitties.Kitties.Helpers.{u32_max, create_kitty}
use my_substrate_kitties.Kitties.Calls.{
  Request, create_request, transfer_request, breed_request, abandon_request, adopt_request,
  clear_price_request, buy_request, set_price_request, create, transfer, breed, abandon, adopt,
  set_price, clear_price, buy, dispatch,
}
use my_substrate_kitties.Kitties.Transition.{count_of}

module _ (C : Config) (s : State C) (who : ℕ) where
  abbrev IsMissing : ℕ → Type 0
  IsMissing id = C.storage.contains_key s.kitties id ≡ false

  abbrev IsNotOwner : ℕ → Type 0
  IsNotOwner id = C.storage.get s.kitties_owner id ≢ some who

  -- The state of affairs in which a call by `who` may end with an error of the pallet.
  abbrev pub Reason : Request → Error → Type 0
  Reason create_request kitties_count_overflow = count_of s.kitties_count ≡ u32_max
  Reason (transfer_request id new_owner) kitty_not_exists = IsMissing id
  Reason (transfer_request id new_owner) not_owner_of_kitty = IsNotOwner id
  Reason (breed_request id1 id2) kitties_count_overflow = count_of s.kitties_count ≡ u32_max
  Reason (breed_request id1 id2) kitty_not_exists = IsMissing id1 ⊎ IsMissing id2
  Reason (breed_request id1 id2) can_not_breed_with_same_gender =
      (kitty1 : Kitty) × (C.storage.get s.kitties id1 ≡ some kitty1)
      × (kitty2 : Kitty) × (C.storage.get s.kitties id2 ≡ some kitty2)
      × (gender kitty1 ≡ gender kitty2)
  Reason (abandon_request id) kitty_not_exists = IsMissing id
  Reason (abandon_request id) not_owner_of_kitty = IsNotOwner id
  Reason (adopt_request id) kitty_not_exists = IsMissing id
  Reason (adopt_request id) can_not_adopt_kitty_with_an_owner =
      C.storage.contains_key s.kitties_owner id ≡ true
  Reason (clear_price_request id) kitty_not_exists = IsMissing id
  Reason (clear_price_request id) not_owner_of_kitty = IsNotOwner id
  Reason (buy_request id) kitty_not_exists = IsMissing id
  Reason (buy_request id) kitty_not_for_sell = C.storage.get s.kitties_price id ≡ none
  Reason (buy_request id) no_need_to_buy_kitty_without_an_owner =
      C.storage.get s.kitties_owner id ≡ none
  Reason (set_price_request id price) kitty_not_exists = IsMissing id
  Reason (set_price_request id price) not_owner_of_kitty = IsNotOwner id
  Reason _ _ = ⊥

module _ (C : Config) (block : Block) (origin : C.Origin) (s : State C) (who : ℕ)
    (o : C.ensure_signed origin ≡ some who) where
  breed-Reason :
      (id1 id2 : ℕ) (e : Error)
      → (breed C block origin id1 id2 s).0 ≡ err (module_error e)
      → Reason C s who (breed_request id1 id2) e
  unfolding breed create_kitty
  breed-Reason id1 id2 kitties_count_overflow h = ground arith
  breed-Reason id1 id2 kitty_not_exists h = ground arith
  breed-Reason id1 id2 can_not_breed_with_same_gender h =
      let known1 = C.storage.contains_key_lem s.kitties id1 in
      let known2 = C.storage.contains_key_lem s.kitties id2 in
      elim (Option-cases (C.storage.get s.kitties id1)) [
        | inl e1 ↦ absurd (ground arith)
        | inr (kitty1, e1) ↦ elim (Option-cases (C.storage.get s.kitties id2)) [
          | inl e2 ↦ absurd (ground arith)
          | inr (kitty2, e2) ↦ (kitty1, e1, kitty2, e2, ground arith)
        ]
      ]
  breed-Reason id1 id2 _ h = ground arith

  -- A signed call that ends with an error of the pallet has the reason that the error names: each
  -- call has its own errors, and each error holds of the storage that the call found.
  pub dispatch-Reason :
      (q : Request) (e : Error)
      → (dispatch C block origin q s).0 ≡ err (module_error e)
      → Reason C s who q e
  unfolding dispatch create transfer abandon adopt set_price clear_price buy
  dispatch-Reason create_request kitties_count_overflow h = ground arith
  dispatch-Reason create_request _ h = ground arith
  dispatch-Reason (transfer_request id new_owner) kitty_not_exists h = ground arith
  dispatch-Reason (transfer_request id new_owner) not_owner_of_kitty h = ground arith
  dispatch-Reason (transfer_request id new_owner) _ h = ground arith
  dispatch-Reason (breed_request id1 id2) e h = breed-Reason id1 id2 e h
  dispatch-Reason (abandon_request id) kitty_not_exists h = ground arith
  dispatch-Reason (abandon_request id) not_owner_of_kitty h = ground arith
  dispatch-Reason (abandon_request id) _ h = ground arith
  dispatch-Reason (adopt_request id) kitty_not_exists h = ground arith
  dispatch-Reason (adopt_request id) _ h = ground arith
  dispatch-Reason (clear_price_request id) kitty_not_exists h = ground arith
  dispatch-Reason (clear_price_request id) not_owner_of_kitty h = ground arith
  dispatch-Reason (clear_price_request id) _ h = ground arith
  dispatch-Reason (buy_request id) kitty_not_exists h = ground arith
  dispatch-Reason (buy_request id) _ h = ground arith
  dispatch-Reason (set_price_request id price) kitty_not_exists h = ground arith
  dispatch-Reason (set_price_request id price) not_owner_of_kitty h = ground arith
  dispatch-Reason (set_price_request id price) _ h = ground arith
