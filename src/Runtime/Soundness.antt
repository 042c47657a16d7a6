-- ===== src/Runtime/Soundness.antt =====
-- What the composed runtime (`runtime/src/lib.rs`) keeps of the state of both pallets.
use my_substrate_kitties.Base.{ℕ, ◌≤◌, List, [], ◌∷◌, All, arith}
use my_substrate_kitties.Frame.Currency.{IsLawful}
use my_substrate_kitties.Kitties.Types.{Block}
use my_substrate_kitties.Kitties.History.{IsSound, dispatch-IsSound}
use my_substrate_kitties.Template.{u32_max, do_something, cause_error}
use my_substrate_kitties.Template.Laws.{HasU32}
use my_substrate_kitties.Runtime.Calls.{
  Host, kitties_config, State, Call, do_something_call, cause_error_call, kitties_call,
  elsewhere_call, apply, apply_all,
}

module _ (H : Host) where
  -- An argument of `do_something` is a `u32`, and a call of a pallet from elsewhere takes nothing out
  -- of reserve.
  abbrev pub IsDecent : Call H → Type 0
  IsDecent (do_something_call n) = n ≤ u32_max
  IsDecent cause_error_call = Unit
  IsDecent (kitties_call q) = Unit
  IsDecent (elsewhere_call f) =
      (b : H.balances.Balances) (a : ℕ)
      → H.balances.reserved_balance b a ≤ H.balances.reserved_balance (f b) a

  -- Both pallets in order: a sound storage of the kitties, and a number that is a `u32`.
  pub record IsInOrder (s : State H) : Type 0 where
    pub kitties : IsSound (kitties_config H) s.kitties_module
    pub template : HasU32 s.template_module

  pub apply-IsInOrder :
      (L : IsLawful H.balances) (block : Block) (origin : H.Origin) (call : Call H) (s : State H)
      → IsDecent call
      → IsInOrder s
      → IsInOrder (apply H block origin call s)
  unfolding apply do_something cause_error
  apply-IsInOrder L block origin (do_something_call n) s fits v = record {
    kitties = v.kitties;
    template = λ m e. ground (arith, v.template m);
  }
  apply-IsInOrder L block origin cause_error_call s fits v = record {
    kitties = v.kitties;
    template = λ m e. ground (arith, v.template m);
  }
  apply-IsInOrder L block origin (kitties_call q) s fits v = record {
    kitties = dispatch-IsSound (kitties_config H) L block origin q s.kitties_module v.kitties;
    template = v.template;
  }
  apply-IsInOrder L block origin (elsewhere_call f) s grows v = record {
    kitties = record {
      valid = record {
        counted = v.kitties.valid.counted;
        numbered = v.kitties.valid.numbered;
        owned_kitties = v.kitties.valid.owned_kitties;
        owned_prices = v.kitties.valid.owned_prices;
      };
      backed = λ a. omega (arith, v.kitties.backed a, grows s.kitties_module.balances a);
    };
    template = v.template;
  }

  -- Over a lawful currency, any sequence of calls of the runtime keeps both pallets in order, if the
  -- numbers stored by `do_something` are `u32` and no call of a pallet from elsewhere lowers a
  -- reserved balance.
  pub apply_all-IsInOrder :
      IsLawful H.balances
      → (calls : List (Block × H.Origin × Call H)) (s : State H)
      → All (λ (c : Block × H.Origin × Call H). IsDecent c.2) calls
      → IsInOrder s
      → IsInOrder (apply_all H calls s)
  unfolding apply_all
  apply_all-IsInOrder L [] s fits v = v
  apply_all-IsInOrder L ((block, origin, call) ∷ calls) s fits v =
      apply_all-IsInOrder L calls _ fits.1 (apply-IsInOrder L block origin call s fits.0 v)
