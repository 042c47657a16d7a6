-- ===== src/Runtime/Tests.antt =====
-- The theorems about the composed runtime (`runtime/src/lib.rs`) at concrete calls, over the concrete
-- storage map and currency.
use my_substrate_kitties.Base.{arith, ℕ, ◌≡◌, Option, none, some, List, refl, [], ◌∷◌, ◌++◌, ◌⊎◌}
use my_substrate_kitties.Frame.Storage.Assoc.{assoc_map}
use my_substrate_kitties.Frame.Currency.Ledger.{ledger, ledger-IsLawful}
use my_substrate_kitties.Kitties.Types.{Block, genesis}
use my_substrate_kitties.Kitties.Calls.{
  create_request, adopt_request, set_price_request, buy_request, create, adopt, set_price, dispatch,
}
use my_substrate_kitties.Kitties.History.{genesis-IsSound}
use my_substrate_kitties.Runtime.Calls.{
  Host, kitties_config, State, Call, do_something_call, cause_error_call, kitties_call,
  elsewhere_call, apply, apply_all,
}
use my_substrate_kitties.Runtime.Soundness.{IsInOrder, apply_all-IsInOrder}
use my_substrate_kitties.Runtime.Ownership.{Keeping, Buys, apply_all-Keeps}

abbrev host : Host
host = record {
  Origin = Option ℕ;
  ensure_signed = λ origin. origin;
  balances = ledger;
  storage = assoc_map;
  encode = λ (seed, sender, index). seed.0 ∷ sender ∷ [];
  blake2_128 = λ bytes. bytes;
}

abbrev start : State host
start = record {
  template_module = record { something = none; events = [] };
  kitties_module =
      genesis (kitties_config host) (record { free = λ a. 20_000_000_000_000; reserved = λ a. 0 });
}

abbrev first : Block
first = record { random_seed = (1, 0); extrinsic_index = some 0; now = 1 }

abbrev mixed : List (Block × Option ℕ × Call host)
mixed =
    (first, some 1, kitties_call create_request)
    ∷ (first, some 1, do_something_call 42)
    ∷ (first, some 2, kitties_call (adopt_request 1))
    ∷ (first, none, cause_error_call)
    ∷ (first, none, elsewhere_call (λ b. b))
    ∷ (first, some 3, cause_error_call)
    ∷ []

start-IsInOrder : IsInOrder host start
start-IsInOrder = record {
  kitties = genesis-IsSound (kitties_config host) start.kitties_module.balances;
  template = λ n e. absurd (ground arith);
}

apply_all-IsInOrder_example : IsInOrder host (apply_all host mixed start)
apply_all-IsInOrder_example =
    apply_all-IsInOrder host ledger-IsLawful mixed start
      (tt, (omega arith, (tt, (tt, (λ b a. omega arith, (tt, tt)))))) start-IsInOrder

-- Account 2 has a kitty for sale.
abbrev adoption : List (Block × Option ℕ × Call host)
adoption =
    (first, some 1, kitties_call create_request)
    ∷ (first, some 2, kitties_call (adopt_request 1))
    ∷ (first, some 2, kitties_call (set_price_request 1 7))
    ∷ []

abbrev adopted : State host
adopted = apply_all host adoption start

adopted-IsInOrder : IsInOrder host adopted
adopted-IsInOrder =
    apply_all-IsInOrder host ledger-IsLawful adoption start (tt, (tt, (tt, tt))) start-IsInOrder

abbrev others : List (Block × Option ℕ × Call host)
others =
    (first, some 2, do_something_call 5)
    ∷ (first, some 1, kitties_call create_request)
    ∷ (first, none, elsewhere_call (λ b. b))
    ∷ (first, some 3, kitties_call (buy_request 1))
    ∷ []

apply_all-Keeps_example :
    Keeping host 2 1 (some 7) (apply_all host others adopted)
    ⊎ ((before : List (Block × Option ℕ × Call host)) × (block : Block) × (origin : Option ℕ)
        × (call : Call host) × (after : List (Block × Option ℕ × Call host)) × (others
            ≡ before ++ ((block, origin, call) ∷ after))
        × Buys host 2 1 (some 7) block origin call (apply_all host before adopted))
unfolding apply apply_all dispatch create adopt set_price
apply_all-Keeps_example =
    apply_all-Keeps host ledger-IsLawful 2 1 (some 7) others adopted
      (omega arith, (tt, (λ b a. omega arith, (tt, tt)))) adopted-IsInOrder
      (λ e. refl, (λ e. refl, (λ e. refl, (λ e. cc, tt)))) (refl, refl)
