-- ===== src/Runtime/Calls.antt =====
-- The runtime as `construct_runtime!` of `runtime/src/lib.rs` composes it, as far as the pallets of
-- this repository see it: a call belongs to the template pallet, to the kitties pallet or to a pallet
-- from elsewhere, of which these two can only notice what it does to the balances.
use my_substrate_kitties.Base.{ℕ, Option, List, [], ◌∷◌}
use my_substrate_kitties.Frame.Storage.{StorageMap}
use my_substrate_kitties.Frame.Currency.{Currency}
use my_substrate_kitties.Kitties.Types.{Config as KittiesConfig, State as KittiesState, Block}
use my_substrate_kitties.Kitties.Calls.{Request, dispatch}
use my_substrate_kitties.Template.{
  Config as TemplateConfig, State as TemplateState, do_something, cause_error,
}
use my_substrate_kitties.Runtime.{holding_deposit_for_one_kitty}

-- What the runtime has from elsewhere: `System`, `Balances`, the storage and the host's functions.
pub record Host : Type 1 where
  pub Origin : Type 0
  pub ensure_signed : Origin → Option ℕ
  pub balances : Currency
  pub storage : StorageMap
  pub encode : (ℕ × ℕ) × ℕ × Option ℕ → List ℕ
  pub blake2_128 : List ℕ → List ℕ

module _ (H : Host) where
  -- `impl pallet_template::Config for Runtime`
  abbrev pub template_config : TemplateConfig
  template_config = record { Origin = H.Origin; ensure_signed = H.ensure_signed }

  -- `impl pallet_kitties::Config for Runtime`
  abbrev pub kitties_config : KittiesConfig
  kitties_config = record {
    Origin = H.Origin;
    ensure_signed = H.ensure_signed;
    currency = H.balances;
    storage = H.storage;
    holding_deposit_for_one_kitty = holding_deposit_for_one_kitty;
    encode = H.encode;
    blake2_128 = H.blake2_128;
  }

  -- The storage of `TemplateModule`, and that of `KittiesModule` with the balances.
  pub record State : Type 0 where
    pub template_module : TemplateState
    pub kitties_module : KittiesState kitties_config

  pub data Call : Type 0 where
    do_something_call : ℕ → Call
    cause_error_call : Call
    kitties_call : Request → Call
    elsewhere_call : (H.balances.Balances → H.balances.Balances) → Call

  -- What a call leaves, whether it succeeds or not.
  unfoldable pub apply : Block → H.Origin → Call → State → State
  apply block origin (do_something_call n) s = record s {
    template_module = (do_something template_config origin n s.template_module).1;
  }
  apply block origin cause_error_call s = record s {
    template_module = (cause_error template_config origin s.template_module).1;
  }
  apply block origin (kitties_call q) s = record s {
    kitties_module = (dispatch kitties_config block origin q s.kitties_module).1;
  }
  apply block origin (elsewhere_call f) s = record s {
    kitties_module = record s.kitties_module { balances = f s.kitties_module.balances };
  }

  unfoldable pub apply_all : List (Block × H.Origin × Call) → State → State
  apply_all [] s = s
  apply_all ((block, origin, call) ∷ calls) s = apply_all calls (apply block origin call s)
