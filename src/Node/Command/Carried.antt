-- ===== src/Node/Command/Carried.antt =====
-- What `node/src/command.rs` assembles for each job, call by call, as the lists of
-- `Node/Service/Script` have it.
use Prim.Native.String.{String}
use my_substrate_kitties.Base.{
  ℕ, ◌≡◌, refl, ◌∙◌, Option, none, some, inl, inr, List, [], Option-cases,
}
use my_substrate_kitties.Node.Service.Types.{
  Role, light, full, authority, Configuration, Effect, Result, ok, err, other,
}
use my_substrate_kitties.Node.Service.Laws.{new_full_remote_keystore}
use my_substrate_kitties.Node.Service.Script.{carry_out, partial_script, full_script, light_script}
use my_substrate_kitties.Node.Service.Carried.{partial_carried, full_carried, light_carried}
use my_substrate_kitties.Node.Command.{
  Job, keys, over_config, over_parts, node, not_enabled, run_node, assemble,
}
use my_substrate_kitties.Node.Command.Laws.{over_parts_keystore}

-- A remote keystore is refused before the first call.
abbrev pub unless_remote :
    Option String → Result (Unit {0}) × List Effect → Result (Unit {0}) × List Effect
unless_remote none done = done
unless_remote (some url) done = (err (other "Remote Keystores are not supported."), [])

module _ (outcome : ℕ → Effect → Option ℕ) (slot_duration : ℕ → ℕ) (config : Configuration) where
  -- What a node in a role has to do.
  abbrev pub node_carries_out : Role → Result (Unit {0}) × List Effect
  node_carries_out light = carry_out outcome (light_script slot_duration config) []
  node_carries_out full =
      unless_remote config.keystore_remote (carry_out outcome (full_script slot_duration config) [])
  node_carries_out authority =
      unless_remote config.keystore_remote (carry_out outcome (full_script slot_duration config) [])

  -- What a job has to do.
  abbrev pub carries_out : Job → Result (Unit {0}) × List Effect
  carries_out keys = (ok tt, [])
  carries_out (over_config command) = (ok tt, [])
  carries_out (over_parts command) =
      unless_remote config.keystore_remote
        (carry_out outcome (partial_script slot_duration config) [])
  carries_out node = node_carries_out config.role
  carries_out (not_enabled message) = (ok tt, [])

  full_node :
      run_node outcome slot_duration full config []
      ≡ unless_remote config.keystore_remote
          (carry_out outcome (full_script slot_duration config) [])
  unfolding run_node
  full_node = elim (Option-cases config.keystore_remote) [
    | inl k ↦ full_carried outcome slot_duration config k ∙ rw k refl
    | inr (url, k) ↦ new_full_remote_keystore outcome slot_duration config url [] k ∙ rw k refl
  ]

  by_role : (role : Role) → run_node outcome slot_duration role config [] ≡ node_carries_out role
  unfolding run_node
  by_role light = light_carried outcome slot_duration config _ _ _ refl refl refl
  by_role full = full_node
  by_role authority = full_node

  -- For every job, and whatever each call of the client returns by its number, the assembly makes
  -- exactly the calls of the list written out for it, in order and with the objects that the earlier
  -- calls returned, up to the first call that fails, whose error is the result; if none fails, the
  -- result is a success. Parts of a full node and a node that is not a light client are refused
  -- before the first call if the configuration names a remote keystore; jobs without parts make no
  -- call.
  pub assemble_carried :
      (job : Job) → assemble outcome slot_duration job config [] ≡ carries_out job
  unfolding assemble
  assemble_carried keys = refl
  assemble_carried (over_config command) = refl
  assemble_carried (over_parts command) = elim (Option-cases config.keystore_remote) [
    | inl k ↦ partial_carried outcome slot_duration config _ k refl ∙ rw k refl
    | inr (url, k) ↦ over_parts_keystore outcome slot_duration command config [] k ∙ rw k refl
  ]
  assemble_carried node = by_role config.role
  assemble_carried (not_enabled message) = refl
