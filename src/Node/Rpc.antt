-- ===== src/Node/Rpc.antt =====
-- The RPC extensions of the node, `node/src/rpc.rs`. The handler and the extensions themselves come
-- from Substrate: they are parameters.
use Prim.Native.String.{String}
use my_substrate_kitties.Base.{◌≡◌, Option, none, some, arith}

-- `jsonrpc_core::IoHandler`, and the extensions that the node registers: what `to_delegate` makes of
-- `FullSystem::new` and of `TransactionPayment::new`.
pub record Substrate : Type 1 where
  pub Client : Type 0
  pub Pool : Type 0
  pub DenyUnsafe : Type 0
  pub Delegate : Type 0
  pub IoHandler : Type 0
  pub default : IoHandler
  pub extend_with : IoHandler → Delegate → IoHandler
  pub full_system : Client → Pool → DenyUnsafe → Delegate
  pub transaction_payment : Client → Delegate

pub record FullDeps (S : Substrate) : Type 0 where
  pub client : S.Client
  pub pool : S.Pool
  pub deny_unsafe : S.DenyUnsafe

unfoldable pub create_full : (S : Substrate) → FullDeps S → S.IoHandler
create_full S deps =
    S.extend_with (S.extend_with S.default (S.full_system deps.client deps.pool deps.deny_unsafe))
      (S.transaction_payment deps.client)

-- The method of that name that a handler calls, and the one that a delegate offers. The documentation
-- of `extend_with`: the methods of the delegate are added, and replace those of the same name.
pub record Methods (S : Substrate) : Type 1 where
  pub Method : Type 0
  pub calls : S.IoHandler → String → Option Method
  pub offers : S.Delegate → String → Option Method
  pub calls-default : (name : String) → calls S.default name ≡ none
  pub calls-extend_with :
      (io : S.IoHandler) (d : S.Delegate) (name : String)
      → calls (S.extend_with io d) name
        ≡ elim (offers d name) [ none ↦ calls io name | some m ↦ some m ]

-- The handler calls a method of the payment extension if that offers the name, else the one of the
-- system extension, else none.
pub calls-create_full :
    (S : Substrate) (M : Methods S) (deps : FullDeps S) (name : String)
    → M.calls (create_full S deps) name ≡ elim (M.offers (S.transaction_payment deps.client) name) [
      | none ↦ M.offers (S.full_system deps.client deps.pool deps.deny_unsafe) name
      | some m ↦ some m
    ]
unfolding create_full
calls-create_full S M deps name =
    let system = S.full_system deps.client deps.pool deps.deny_unsafe in
    ground (
      arith,
      M.calls-default name,
      M.calls-extend_with S.default system name,
      M.calls-extend_with (S.extend_with S.default system) (S.transaction_payment deps.client) name,
    )
