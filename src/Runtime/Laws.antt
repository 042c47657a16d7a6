-- ===== src/Runtime/Laws.antt =====
-- The pallets of this repository side by side in the runtime (`runtime/src/lib.rs`): the storage of
-- the kitties stays well formed under any calls.
use my_substrate_kitties.Base.{List, [], ◌∷◌}
use my_substrate_kitties.Frame.Currency.{IsLawful}
use my_substrate_kitties.Kitties.Types.{Block}
use my_substrate_kitties.Kitties.Invariant.{IsValid, Transition-IsValid}
use my_substrate_kitties.Kitties.Implements.{dispatch-Transition}
use my_substrate_kitties.Runtime.Calls.{
  Host, kitties_config, State, Call, do_something_call, cause_error_call, kitties_call,
  elsewhere_call, apply, apply_all,
}

module _ (H : Host) where
  apply-IsValid :
      (L : IsLawful H.balances) (block : Block) (origin : H.Origin) (call : Call H) (s : State H)
      → IsValid (kitties_config H) s.kitties_module
      → IsValid (kitties_config H) (apply H block origin call s).kitties_module
  unfolding apply
  apply-IsValid L block origin (do_something_call n) s v = v
  apply-IsValid L block origin cause_error_call s v = v
  apply-IsValid L block origin (kitties_call q) s v =
      Transition-IsValid (kitties_config H)
        (dispatch-Transition (kitties_config H) L block origin s.kitties_module v.counted q) v
  apply-IsValid L block origin (elsewhere_call f) s v = record {
    counted = v.counted;
    numbered = v.numbered;
    owned_kitties = v.owned_kitties;
    owned_prices = v.owned_prices;
  }

  -- Over a lawful currency, a well-formed storage of the kitties stays well formed under any calls of
  -- the runtime, whatever those of pallets from elsewhere do to the balances.
  pub apply_all-IsValid :
      (L : IsLawful H.balances) (calls : List (Block × H.Origin × Call H)) (s : State H)
      → IsValid (kitties_config H) s.kitties_module
      → IsValid (kitties_config H) (apply_all H calls s).kitties_module
  unfolding apply_all
  apply_all-IsValid L [] s v = v
  apply_all-IsValid L ((block, origin, call) ∷ calls) s v =
      apply_all-IsValid L calls _ (apply-IsValid L block origin call s v)
