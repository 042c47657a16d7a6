-- ===== src/Kitties/Exit.antt =====
-- How an account leaves the kitties pallet (`pallets/kitties/src/lib.rs`): no deposit is ever stuck.
use my_substrate_kitties.Base.{
  ℕ, zero, suc, ◌+◌, ◌*◌, ◌≤◌, ◌<◌, ◌≡◌, ◌≢◌, refl, ◌∙◌, ap, some, List, [], ◌∷◌, ◌++◌, map, arith,
  inl, inr, Option, Option-cases, All, ◌==◌, Bool-cases,
}
use my_substrate_kitties.Frame.Currency.{IsLawful}
use my_substrate_kitties.Kitties.Types.{Config, Block, State, genesis}
use my_substrate_kitties.Kitties.Calls.{Request, abandon_request, abandon, dispatch, run}
use my_substrate_kitties.Kitties.Transition.{Owns, count_of}
use my_substrate_kitties.Kitties.Holdings.{holdings, owned_upto}
use my_substrate_kitties.Kitties.Deposits.{reserved}
use my_substrate_kitties.Kitties.History.{
  IsSound, genesis-IsSound, dispatch-IsSound, run-IsSound, run-append, run_deposits,
}
use my_substrate_kitties.Kitties.Colony.{countdown}
use my_substrate_kitties.Kitties.Sale.{free}
use my_substrate_kitties.Kitties.Wealth.{wealth, dispatch-keeps-wealth}

module _ (C : Config) (block : Block) (origin : C.Origin) where
  -- The calls that abandon some kitties, whoever owns them.
  abbrev pub abandonments : List ℕ → List (Block × C.Origin × Request)
  abandonments ids = map (λ id. (block, origin, abandon_request id)) ids

module _ (C : Config) (L : IsLawful C.currency) (block : Block) (origin : C.Origin) (who : ℕ)
    (signed : C.ensure_signed origin ≡ some who) where
  -- What the signer still owns afterwards is another kitty, and was owned before.
  abandon-Owns :
      (id j : ℕ) (s : State C)
      → IsSound C s
      → Owns C (abandon C origin id s).1 who j
      → (j ≢ id) × Owns C s who j
  unfolding abandon
  abandon-Owns id j s sound h = elim (Bool-cases (j == id)) [
    | inl same ↦ absurd (
        ground (
          arith,
          C.storage.get-remove s.kitties_owner id j,
          sound.valid.owned_kitties id,
          C.storage.contains_key_lem s.kitties id,
        ))
    | inr other ↦ (λ e. ground arith, ground (arith, C.storage.get-remove s.kitties_owner id j))
  ]

  run-Owns :
      (ids : List ℕ) (j : ℕ) (s : State C)
      → IsSound C s
      → Owns C (run C (abandonments C block origin ids) s) who j
      → All (λ id. j ≢ id) ids × Owns C s who j
  unfolding run dispatch
  run-Owns [] j s sound h = (tt, h)
  run-Owns (id ∷ ids) j s sound h =
      let (others, owned) =
        run-Owns ids j _ (dispatch-IsSound C L block origin (abandon_request id) s sound) h in
      let (differ, before) = abandon-Owns id j s sound owned in ((differ, others), before)

  run-wealth :
      (ids : List ℕ) (a : ℕ) (s : State C)
      → IsSound C s
      → wealth C (run C (abandonments C block origin ids) s) a ≡ wealth C s a
  unfolding run
  run-wealth [] a s sound = refl
  run-wealth (id ∷ ids) a s sound =
      run-wealth ids a _ (dispatch-IsSound C L block origin (abandon_request id) s sound)
      ∙ dispatch-keeps-wealth C L block origin (abandon_request id) s a sound.valid (λ i e. cc)

-- An account that owns none of the ids counted.
none_owned :
    (owner : ℕ → Option ℕ) (n who : ℕ)
    → ((j : ℕ) → 0 < j → j ≤ n → owner j ≢ some who)
    → owned_upto owner n who ≡ 0
unfolding owned_upto
none_owned owner zero who h = refl
none_owned owner (suc n) who h =
    let rest = none_owned owner n who (λ j low high. h j low (omega arith)) in
    let last : owner (suc n) ≢ some who = h (suc n) (omega arith) (omega arith) in
    elim (Option-cases (owner (suc n))) [
      | inl free ↦ ground arith
      | inr (a, e) ↦ elim (Bool-cases (who == a)) [
        | inl same ↦ absurd (last (ground arith))
        | inr other ↦ ground arith
      ]
    ]

met : (n j : ℕ) → 0 < j → j ≤ n → ¬ All (λ id. j ≢ id) (countdown n)
met zero j low high h = omega arith
met (suc n) j low high (differ, h) = elim (Bool-cases (j == suc n)) [
  | inl same ↦ differ (ground arith)
  | inr other ↦ met n j low (ground arith) h
]

module _ (C : Config) (L : IsLawful C.currency) (block : Block) (origin : C.Origin) (who : ℕ)
    (signed : C.ensure_signed origin ≡ some who) where
  open C use {holding_deposit_for_one_kitty as d}

  run-ne-Owns :
      (t : State C)
      → IsSound C t
      → (j : ℕ)
      → C.storage.get
          (run C
            (abandonments C block origin (countdown (count_of t.kitties_count)))
            t).kitties_owner
          j
        ≢ some who
  run-ne-Owns t sound j owned =
      let (differ, before) = run-Owns C L block origin who signed _ j t sound owned in
      let known = sound.valid.owned_kitties j in
      let numbered = sound.valid.numbered j in
      met (count_of t.kitties_count) j (ground arith) (ground arith) differ

  -- Over a lawful currency, after any history that starts from the empty storage, an account can leave:
  -- when it has signed a call of `abandon` for every id up to the count, it owns no kitty, its
  -- reserved balance is what it was at the start, and its free balance has grown by one deposit for
  -- each kitty that it owned.
  pub abandon_all :
      (requests : List (Block × C.Origin × Request)) (b : C.currency.Balances)
      → let t = run C requests (genesis C b) in
        let u = run C (abandonments C block origin (countdown (count_of t.kitties_count))) t in
        ((j : ℕ) → C.storage.get u.kitties_owner j ≢ some who)
        × (reserved C u who ≡ C.currency.reserved_balance b who)
        × (free C u who ≡ free C t who + d * holdings C t who)
  abandon_all requests b =
      let t = run C requests (genesis C b) in
      let leave = abandonments C block origin (countdown (count_of t.kitties_count)) in
      let u = run C leave t in
      let sound = run-IsSound C L requests (genesis C b) (genesis-IsSound C b) in
      let gone = run-ne-Owns t sound in
      let nothing : holdings C u who ≡ 0 = none_owned _ _ who (λ j low high. gone j) in
      let back = run_deposits C L (requests ++ leave) b who in
      let before = run_deposits C L requests b who in
      let kept =
        run-wealth C L block origin who signed (countdown (count_of t.kitties_count)) who t sound in
      let restored : reserved C u who ≡ C.currency.reserved_balance b who = omega (
        arith,
        (rw (run-append C requests leave (genesis C b)) at back),
        ap (λ (k : ℕ). d * k) nothing,
      ) in
      (gone, restored, omega (arith, restored, before, kept))
