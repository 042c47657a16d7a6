-- ===== src/Kitties/Audit/Histories.antt =====
-- The balances after a history of the kitties pallet (`pallets/kitties/src/lib.rs`), accounted for
-- by its events.
use my_substrate_kitties.Base.{ℕ, ◌+◌, ◌*◌, ◌≡◌, ap, List, [], ◌∷◌, ◌++◌, arith}
use my_substrate_kitties.Frame.Dispatch.{Result, ok, err, panic}
use my_substrate_kitties.Frame.Currency.{IsLawful}
use my_substrate_kitties.Kitties.Types.{Config, Block, State, Error, genesis}
use my_substrate_kitties.Kitties.Calls.{Request, dispatch, run}
use my_substrate_kitties.Kitties.Sale.{free}
use my_substrate_kitties.Kitties.History.{IsSound, genesis-IsSound, dispatch-IsSound, run_deposits}
use my_substrate_kitties.Kitties.Holdings.{holdings}
use my_substrate_kitties.Kitties.Wealth.{wealth}
use my_substrate_kitties.Kitties.Audit.Rules.{payments, announced, silent}
use my_substrate_kitties.Kitties.Audit.Calls.{dispatch-IsAudited}
use my_substrate_kitties.Kitties.Audit.Payments.{
  Payment, paid_by, paid_to, paid_by-append, paid_to-append, sales,
}

module _ (C : Config) where
  -- The payments of calls that failed all the same, in a history.
  unfoldable pub lost : List (Block × C.Origin × Request) → State C → List Payment
  lost [] s = []
  lost ((block, origin, q) ∷ requests) s =
      let (r, t) = dispatch C block origin q s in
      let later = lost requests t in silent r (payments C s origin q) ++ later

  module _ (L : IsLawful C.currency) where
    split_payments :
        (a : ℕ) (r : Result Error (Unit {0})) (ps : List Payment)
        → (paid_by a ps ≡ paid_by a (announced r ps) + paid_by a (silent r ps))
          × (paid_to a ps ≡ paid_to a (announced r ps) + paid_to a (silent r ps))
    unfolding paid_by paid_to
    split_payments a (ok _) ps = (omega arith, omega arith)
    split_payments a (err _) ps = (omega arith, omega arith)
    split_payments a panic ps = (omega arith, omega arith)

    pub run-wealth :
        (requests : List (Block × C.Origin × Request)) (s : State C) (a : ℕ)
        → IsSound C s
        → let t = run C requests s in
          let quiet = lost requests s in
          wealth C t a + paid_by a (sales t.events) + paid_by a quiet + paid_to a (sales s.events)
          ≡ wealth C s a + paid_to a (sales t.events) + paid_to a quiet + paid_by a (sales s.events)
    unfolding run lost paid_by paid_to
    run-wealth [] s a sound = omega arith
    run-wealth ((block, origin, q) ∷ requests) s a sound =
        let (r, t) = dispatch C block origin q s in
        let ps = payments C s origin q in
        let v = dispatch-IsAudited C L block origin s sound.valid q in
        let (by, to) = split_payments a r ps in
        omega (
          arith,
          run-wealth requests t a (dispatch-IsSound C L block origin q s sound),
          v.moved a,
          by,
          to,
          ap (paid_by a) v.told,
          ap (paid_to a) v.told,
          paid_by-append a (sales s.events) (announced r ps),
          paid_to-append a (sales s.events) (announced r ps),
          paid_by-append a (silent r ps) (lost requests t),
          paid_to-append a (silent r ps) (lost requests t),
        )

    -- Over a lawful currency, after any history that starts from the empty storage, failed calls
    -- included, these two sums are equal for every account: its free balance, one deposit for each
    -- kitty that it owns, what it paid in the purchases that the events tell of and what it paid in
    -- calls that failed; and its free balance at the start, what it was paid in those purchases and
    -- what it was paid in calls that failed.
    pub run_free :
        (requests : List (Block × C.Origin × Request)) (b : C.currency.Balances) (a : ℕ)
        → let t = run C requests (genesis C b) in
          let quiet = lost requests (genesis C b) in
          let owned = C.holding_deposit_for_one_kitty * holdings C t a in
          free C t a + owned + paid_by a (sales t.events) + paid_by a quiet
          ≡ C.currency.free_balance b a + paid_to a (sales t.events) + paid_to a quiet
    unfolding sales paid_by paid_to
    run_free requests b a = omega (
      arith,
      run-wealth requests (genesis C b) a (genesis-IsSound C b),
      run_deposits C L requests b a,
    )
