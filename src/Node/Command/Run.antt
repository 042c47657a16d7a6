-- ===== src/Node/Command/Run.antt =====
-- `run` of `node/src/command.rs` to its end: the runner that `sc_cli` makes, the parts that a job
-- needs, and the work of the subcommand, with the error that each of them may end it with.
use Prim.Native.String.{String}
use mathlib.Core.Path.{subst}
use my_substrate_kitties.Base.{
  sym, ℕ, ◌≡◌, ◌↔◌, refl, Bool, true, false, Option, none, some, List, [], arith,
}
use my_substrate_kitties.Node.Service.Types as Service
use my_substrate_kitties.Node.Service.Types.{Configuration, Effect, ServiceError}
use my_substrate_kitties.Node.Command.{
  Subcommand, key, build_spec, check_block, export_blocks, export_state, import_blocks, purge_chain,
  revert, benchmark, Job, keys, over_config, over_parts, node, not_enabled, run, assemble,
}
use my_substrate_kitties.Node.Service.Script.{carry_out, partial_script, full_script, light_script}
use my_substrate_kitties.Node.Command.Carried.{
  unless_remote, node_carries_out, carries_out, assemble_carried,
}

-- `sc_cli::Error`: an error of `sc_cli` itself, of the service, or the message of a refusal.
pub data CliError : Type 0 where
  cli : ℕ → CliError
  service : ServiceError → CliError
  input : String → CliError

-- What `sc_cli` does: whether a runner can be made, and how the subcommand's own work, or the node
-- that runs until it exits, ends; an error has a code.
pub record SubstrateCli : Type 0 where
  pub create_runner : Option ℕ
  pub work : Job → Option ℕ

abbrev ended : Option ℕ → Option CliError
ended none = none
ended (some code) = some (cli code)

-- Under a runner: the parts, then the work.
abbrev over_runner : SubstrateCli → Job → Service.Result (Unit {0}) × List Effect → Option CliError
over_runner sc job (Service.err e, trace) = some (service e)
over_runner sc job (Service.ok _, trace) = ended (sc.work job)

module _ (sc : SubstrateCli) (outcome : ℕ → Effect → Option ℕ) (slot_duration : ℕ → ℕ)
    (config : Configuration) where
  unfoldable pub perform : Job → Option CliError
  perform keys = ended (sc.work keys)
  perform (not_enabled message) = some (input message)
  perform job = elim sc.create_runner [
    | some code ↦ some (cli code)
    | none ↦ over_runner sc job (assemble outcome slot_duration job config [])
  ]

module _ (sc : SubstrateCli) (outcome : ℕ → Effect → Option ℕ) (slot_duration : ℕ → ℕ)
    (config : Configuration) where
  -- A runner is made, and the work of a job ends well.
  abbrev pub Runs : Job → Type 0
  Runs job = (sc.create_runner ≡ none) × (sc.work job ≡ none)

  -- All calls for the parts of a full node succeed, and no remote keystore is named.
  abbrev pub HasParts : Type 0
  HasParts =
      (config.keystore_remote ≡ none)
      × ((carry_out outcome (partial_script slot_duration config) []).0 ≡ Service.ok tt)

  abbrev pub IsUp : Service.Role → Type 0
  IsUp Service.light = (carry_out outcome (light_script slot_duration config) []).0 ≡ Service.ok tt
  IsUp _ =
      (config.keystore_remote ≡ none)
      × ((carry_out outcome (full_script slot_duration config) []).0 ≡ Service.ok tt)

  -- What each subcommand, and the node without one, needs to end without an error.
  abbrev pub Needs : Bool → Option Subcommand → Type 0
  Needs b (some key) = sc.work keys ≡ none
  Needs b (some build_spec) = Runs (over_config build_spec)
  Needs b (some check_block) = Runs (over_parts check_block) × HasParts
  Needs b (some export_blocks) = Runs (over_parts export_blocks) × HasParts
  Needs b (some export_state) = Runs (over_parts export_state) × HasParts
  Needs b (some import_blocks) = Runs (over_parts import_blocks) × HasParts
  Needs b (some purge_chain) = Runs (over_config purge_chain)
  Needs b (some revert) = Runs (over_parts revert) × HasParts
  Needs true (some benchmark) = Runs (over_config benchmark)
  Needs false (some benchmark) = ⊥
  Needs b none = Runs node × IsUp config.role

  -- A job over a runner ends well exactly when the runner is made, its calls succeed and its work
  -- ends well.
  over_runner_ok_iff :
      (job : Job) (r : Service.Result (Unit {0})) (trace : List Effect)
      → (elim sc.create_runner [
        | some code ↦ some (cli code)
        | none ↦ over_runner sc job (r, trace)
      ]
          ≡ none)
        ↔ (Runs job × (r ≡ Service.ok tt))
  over_runner_ok_iff job r trace =
      (λ h. ((ground arith, ground arith), ground arith), λ h. ground arith)

  -- The same, with the calls of the list written out for the job.
  carried_iff :
      (job : Job)
      → (elim sc.create_runner [
        | some code ↦ some (cli code)
        | none ↦ over_runner sc job (assemble outcome slot_duration job config [])
      ]
          ≡ none)
        ↔ (Runs job × ((carries_out outcome slot_duration config job).0 ≡ Service.ok tt))
  carried_iff job =
      let done = carries_out outcome slot_duration config job in
      subst
        (λ d.
          (elim sc.create_runner [ some code ↦ some (cli code) | none ↦ over_runner sc job d ]
            ≡ none)
          ↔ (Runs job × (done.0 ≡ Service.ok tt)))
        (sym (assemble_carried outcome slot_duration config job))
        (over_runner_ok_iff job done.0 done.1)

  parts_iff :
      (done : Service.Result (Unit {0}) × List Effect)
      → ((unless_remote config.keystore_remote done).0 ≡ Service.ok tt)
        ↔ ((config.keystore_remote ≡ none) × (done.0 ≡ Service.ok tt))
  parts_iff done = (λ h. (ground arith, ground arith), λ h. ground arith)

  node_iff :
      (role : Service.Role)
      → ((node_carries_out outcome slot_duration config role).0 ≡ Service.ok tt) ↔ IsUp role
  node_iff Service.light = (λ h. h, λ h. h)
  node_iff Service.full = parts_iff _
  node_iff Service.authority = parts_iff _

  over_config_iff :
      (command : Subcommand)
      → (perform sc outcome slot_duration config (over_config command) ≡ none)
        ↔ Runs (over_config command)
  unfolding perform
  over_config_iff command =
      let ends = carried_iff (over_config command) in (λ h. (ends.0 h).0, λ h. ends.1 (h, refl))

  over_parts_iff :
      (command : Subcommand)
      → (perform sc outcome slot_duration config (over_parts command) ≡ none)
        ↔ (Runs (over_parts command) × HasParts)
  unfolding perform
  over_parts_iff command =
      let ends = carried_iff (over_parts command) in
      let whole = parts_iff (carry_out outcome (partial_script slot_duration config) []) in
      (λ h. let e = ends.0 h in (e.0, whole.0 e.1), λ h. ends.1 (h.0, whole.1 h.1))

  over_node_iff :
      (perform sc outcome slot_duration config node ≡ none) ↔ (Runs node × IsUp config.role)
  unfolding perform
  over_node_iff =
      let ends = carried_iff node in
      let whole = node_iff config.role in
      (λ h. let e = ends.0 h in (e.0, whole.0 e.1), λ h. ends.1 (h.0, whole.1 h.1))

  -- The command line ends without an error exactly when what its subcommand needs is there: for the
  -- keys, that their work ends well; for build-spec and purge-chain, and for a benchmark in a build
  -- with benchmarks, a runner and work that ends well; for check-block, export-blocks, export-state,
  -- import-blocks and revert, besides, that all calls for the parts of a full node succeed and no
  -- remote keystore is named; and without a subcommand, besides, that all calls of the node of the
  -- role succeed, a full one without a remote keystore. A benchmark in another build never does.
  pub run-perform_iff :
      (benchmarks : Bool) (subcommand : Option Subcommand)
      → (perform sc outcome slot_duration config (run benchmarks subcommand) ≡ none)
        ↔ Needs benchmarks subcommand
  unfolding run perform
  run-perform_iff b (some key) = (λ h. ground arith, λ h. ground arith)
  run-perform_iff b (some build_spec) = over_config_iff build_spec
  run-perform_iff b (some check_block) = over_parts_iff check_block
  run-perform_iff b (some export_blocks) = over_parts_iff export_blocks
  run-perform_iff b (some export_state) = over_parts_iff export_state
  run-perform_iff b (some import_blocks) = over_parts_iff import_blocks
  run-perform_iff b (some purge_chain) = over_config_iff purge_chain
  run-perform_iff b (some revert) = over_parts_iff revert
  run-perform_iff true (some benchmark) = over_config_iff benchmark
  run-perform_iff false (some benchmark) = (λ h. ground arith, λ h. ground arith)
  run-perform_iff b none = over_node_iff
