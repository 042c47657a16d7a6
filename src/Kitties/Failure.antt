-- ===== src/Kitties/Failure.antt =====
-- Failed calls of the kitties pallet (`pallets/kitties/src/lib.rs`), and the events of calls.
use my_substrate_kitties.Base.{ℕ, ◌≡◌, ◌≢◌, refl, [], ◌∷◌, ◌++◌, arith, ◌⊎◌, inl, inr}
use my_substrate_kitties.Frame.Dispatch.{Result, ok}
use my_substrate_kitties.Frame.Currency.{IsLawful}
use my_substrate_kitties.Kitties.Types.{
  Event, Config, Block, State, Error, kitty_created, kitty_born, kitty_transfered, kitty_abandoned,
  kitty_adopted, kitty_price_set, kitty_price_cleared, kitty_sold,
}
use my_substrate_kitties.Kitties.Calls.{Request, buy_request, dispatch}
use my_substrate_kitties.Kitties.Implements.{dispatch-Transition}
use my_substrate_kitties.Kitties.Transition.{
  Transition, refused, payment_kept, created, bred, transfered, abandoned, adopted, priced,
  unpriced, sold, HasCountU32,
}

module _ (C : Config) {block : Block} {origin : C.Origin} {s t : State C} where
  failed_step :
      {q : Request} (r : Result Error (Unit {0}))
      → Transition C block origin s t q r
      → r ≢ ok tt
      → (t ≡ record s { balances = t.balances }) × ((t ≡ s) ⊎ ((id : ℕ) × (q ≡ buy_request id)))
  failed_step r (refused e h) bad = (rw h, inl h)
  failed_step r (payment_kept id buyer seller price e o w p c f h) bad = (rw h, inr (id, refl))
  failed_step r (created who id kitty o n k h) bad = absurd (bad refl)
  failed_step r (bred who id id1 id2 kitty k1 k2 o e1 e2 x n k h) bad = absurd (bad refl)
  failed_step r (transfered who id new_owner o x w c h) bad = absurd (bad refl)
  failed_step r (abandoned who id o x w h) bad = absurd (bad refl)
  failed_step r (adopted who id o x w c h) bad = absurd (bad refl)
  failed_step r (priced who id price o x w h) bad = absurd (bad refl)
  failed_step r (unpriced who id o x w h) bad = absurd (bad refl)
  failed_step r (sold id buyer seller price o x w p c f h) bad = absurd (bad refl)

  event_step :
      {q : Request} (r : Result Error (Unit {0}))
      → Transition C block origin s t q r
      → ((r ≡ ok tt) × (e : Event) × (t.events ≡ s.events ++ (e ∷ [])))
        ⊎ ((r ≢ ok tt) × (t.events ≡ s.events))
  event_step r (refused e h) = inr (λ bad. cc, ground arith)
  event_step r (payment_kept id buyer seller price e o w p c f h) = inr (λ bad. cc, ground arith)
  event_step r (created who id kitty o n k h) = inl (refl, kitty_created id, ground arith)
  event_step r (bred who id id1 id2 kitty k1 k2 o e1 e2 x n k h) =
      inl (refl, kitty_born id id1 id2, ground arith)
  event_step r (transfered who id new_owner o x w c h) =
      inl (refl, kitty_transfered id who new_owner, ground arith)
  event_step r (abandoned who id o x w h) = inl (refl, kitty_abandoned id, ground arith)
  event_step r (adopted who id o x w c h) = inl (refl, kitty_adopted id who, ground arith)
  event_step r (priced who id price o x w h) = inl (refl, kitty_price_set id price, ground arith)
  event_step r (unpriced who id o x w h) = inl (refl, kitty_price_cleared id, ground arith)
  event_step r (sold id buyer seller price o x w p c f h) =
      inl (refl, kitty_sold id seller buyer price, ground arith)

module _ (C : Config) (L : IsLawful C.currency) (block : Block) (origin : C.Origin) (q : Request)
    (s : State C) where
  -- Over a lawful currency and with a count that is a `u32`, a call that fails leaves everything
  -- but the balances as it was, and the balances too unless it is a `buy`.
  pub dispatch_failed :
      HasCountU32 C s
      → (dispatch C block origin q s).0 ≢ ok tt
      → let t = (dispatch C block origin q s).1 in
        (t ≡ record s { balances = t.balances }) × ((t ≡ s) ⊎ ((id : ℕ) × (q ≡ buy_request id)))
  dispatch_failed fits bad = failed_step C _ (dispatch-Transition C L block origin s fits q) bad

  -- Over a lawful currency and with a count that is a `u32`, a call that succeeds deposits one
  -- event, after those that are there; one that does not deposits none.
  pub dispatch_events :
      HasCountU32 C s
      → let (r, t) = dispatch C block origin q s in
        ((r ≡ ok tt) × (e : Event) × (t.events ≡ s.events ++ (e ∷ [])))
        ⊎ ((r ≢ ok tt) × (t.events ≡ s.events))
  dispatch_events fits = event_step C _ (dispatch-Transition C L block origin s fits q)
