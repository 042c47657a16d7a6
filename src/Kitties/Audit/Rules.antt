-- ===== src/Kitties/Audit/Rules.antt =====
-- The payments of a call of the kitties pallet (`pallets/kitties/src/lib.rs`), and the rules by
-- which its events are shown to tell of them.
use my_substrate_kitties.Base.{
  ℕ, ◌+◌, ◌≡◌, refl, sym, ap, ◌∙◌, Option, some, List, [], ◌∷◌, ◌++◌, arith, if◌then◌else◌,
}
use mathlib.Core.List.{append-nil}
use my_substrate_kitties.Frame.Dispatch.{Result, DispatchError, ok, err, panic}
use my_substrate_kitties.Frame.Currency.{Outcome, done, failed, keep_alive, IsLawful}
use my_substrate_kitties.Kitties.Types.{Config, State, Error, Event, kitty_sold}
use my_substrate_kitties.Kitties.Calls.{Request, buy_request}
use my_substrate_kitties.Kitties.Transition.{paid}
use my_substrate_kitties.Kitties.Wealth.{wealth, wealth_in, wealth-paid}
use my_substrate_kitties.Kitties.Audit.Payments.{Payment, paid_by, paid_to, sales, sales-append}

module _ (C : Config) (s : State C) where
  abbrev agreed : Outcome → Payment → List Payment
  agreed done payment = payment ∷ []
  agreed (failed e) payment = []

  -- The payment that the currency lets through, where there are a buyer, a seller and a price.
  abbrev bargain : Option ℕ → Option ℕ → Option ℕ → List Payment
  bargain (some buyer) (some seller) (some price) =
      agreed (C.currency.transfer buyer seller price keep_alive s.balances).0
        (record { payer = buyer; payee = seller; amount = price })
  bargain _ _ _ = []

  -- The payment that a call makes.
  abbrev pub payments : C.Origin → Request → List Payment
  payments origin (buy_request id) =
      if C.storage.contains_key s.kitties id
      then bargain (C.ensure_signed origin) (C.storage.get s.kitties_owner id)
          (C.storage.get s.kitties_price id)
      else []
  payments origin _ = []

-- What is announced of the payments of a call with a result, and what is not.
abbrev pub announced : Result Error (Unit {0}) → List Payment → List Payment
announced (ok _) ps = ps
announced (err _) ps = []
announced panic ps = []

abbrev pub silent : Result Error (Unit {0}) → List Payment → List Payment
silent (ok _) ps = []
silent (err _) ps = ps
silent panic ps = ps

-- A call made these payments, and its events tell of them if it succeeded.
pub record IsAudited (C : Config) (ps : List Payment) (r : Result Error (Unit {0})) (s t : State C)
    : Type 0 where
  pub moved : (a : ℕ) → wealth C t a + paid_by a ps ≡ wealth C s a + paid_to a ps
  pub told : sales t.events ≡ sales s.events ++ announced r ps

module _ (C : Config) (L : IsLawful C.currency) (s t : State C) where
  no_payment : (r : Result Error (Unit {0})) → announced r [] ≡ []
  no_payment (ok _) = refl
  no_payment (err _) = refl
  no_payment panic = refl

  -- What is announced when a call fails, and when a kitty is sold.
  pub told_nothing :
      (ps : List Payment) (r : Result Error (Unit {0})) (e : DispatchError Error)
      → r ≡ err e
      → t.events ≡ s.events
      → sales t.events ≡ sales s.events ++ announced r ps
  told_nothing ps r e bad same = rw (bad, same) (sym (append-nil (sales s.events)))

  pub told_sale :
      (id buyer seller price : ℕ) (r : Result Error (Unit {0}))
      → r ≡ ok tt
      → t.events ≡ s.events ++ (kitty_sold id seller buyer price ∷ [])
      → sales t.events
        ≡ sales s.events
          ++ announced r (record { payer = buyer; payee = seller; amount = price } ∷ [])
  unfolding sales
  told_sale id buyer seller price r good more = rw (good, more) (sales-append s.events _)

  pub silent_event :
      (e : Event) → sales (e ∷ []) ≡ [] → sales (s.events ++ (e ∷ [])) ≡ sales s.events
  silent_event e quiet =
      sales-append s.events (e ∷ [])
      ∙ ap (λ ps. sales s.events ++ ps) quiet
      ∙ append-nil (sales s.events)

  -- No payment is made, and no purchase is announced.
  pub idle :
      (ps : List Payment) (r : Result Error (Unit {0}))
      → ps ≡ []
      → ((a : ℕ) → wealth C t a ≡ wealth C s a)
      → sales t.events ≡ sales s.events
      → IsAudited C ps r s t
  unfolding paid_by paid_to
  idle ps r nothing same quiet = rw nothing (record {
    moved = λ a. omega (arith, same a);
    told = rw (no_payment r, append-nil (sales s.events)) quiet;
  })

  -- A payment was made.
  pub settled :
      (buyer seller price : ℕ) (r : Result Error (Unit {0}))
      → (C.currency.transfer buyer seller price keep_alive s.balances).0 ≡ done
      → ((a : ℕ) → wealth C t a ≡ wealth_in C (paid C buyer seller price s.balances) a)
      → let payment : Payment = record { payer = buyer; payee = seller; amount = price } in
        sales t.events ≡ sales s.events ++ announced r (payment ∷ [])
        → IsAudited C (payment ∷ []) r s t
  unfolding paid_by paid_to
  settled buyer seller price r c same told = record {
    moved = λ a. ground (
      arith,
      same a,
      wealth-paid C L buyer seller price s.balances a c,
      L.transfer_done buyer seller price keep_alive s.balances c,
    );
    told = told;
  }
