-- ===== src/Node/Service/Laws.antt =====
-- What the assembly of `node/src/service.rs` guarantees, whatever the Substrate client does.
use Prim.Native.String.{String}
use my_substrate_kitties.Base.{
  ℕ, ◌≡◌, ◌↔◌, Bool, true, false, not, ◌||◌, Option, none, some, List, [], ◌∷◌, arith,
}
use my_substrate_kitties.Node.Service.Types.{
  Configuration, other, Effect, ok, err, is_authority, start_network, start_aura, run_grandpa_voter,
  spawn_tasks, full_extensions,
}
use my_substrate_kitties.Node.Service.Partial.{new_partial}
use my_substrate_kitties.Node.Service.Full.{new_full, over_components, author_blocks, vote}
use my_substrate_kitties.Node.Service.Light.{new_light}

abbrev pub starts_network : Effect → Bool
starts_network (start_network _) = true
starts_network _ = false

abbrev pub authors_blocks : Effect → Bool
authors_blocks (start_aura _ _ _ _ _ _ _ _) = true
authors_blocks _ = false

abbrev pub votes : Effect → Bool
votes (run_grandpa_voter _ _ _) = true
votes _ = false

-- Tasks are spawned with the RPC extensions of `node/src/rpc.rs`.
abbrev pub extends_rpc : Effect → Bool
extends_rpc (spawn_tasks (full_extensions _ _) _ _ _ _ _) = true
extends_rpc _ = false

-- Whether a call of a kind was made.
abbrev pub made : (Effect → Bool) → List Effect → Bool
made kind [] = false
made kind (e ∷ trace) = kind e || made kind trace

module _ (outcome : ℕ → Effect → Option ℕ) (slot_duration : ℕ → ℕ) (config : Configuration) where
  -- A full node whose configuration names a remote keystore is refused before any call is made,
  -- with the error of `new_partial`.
  pub new_full_remote_keystore :
      (url : String) (trace : List Effect)
      → config.keystore_remote ≡ some url
      → new_full outcome slot_duration config trace
        ≡ (err (other "Remote Keystores are not supported."), trace)
  unfolding new_full new_partial over_components author_blocks vote
  new_full_remote_keystore url trace h = ground arith

  -- A full node starts the network exactly when its assembly succeeds.
  pub new_full-starts_network :
      let (r, trace) = new_full outcome slot_duration config [] in
      (r ≡ ok tt) ↔ (made starts_network trace ≡ true)
  unfolding new_full new_partial over_components author_blocks vote
  new_full-starts_network = (λ h. ground arith, λ h. ground arith)

  -- In a full node that starts, block authoring runs exactly if it is an authority, and the GRANDPA
  -- voter exactly if GRANDPA is not disabled; it has the RPC extensions.
  pub new_full_tasks :
      (new_full outcome slot_duration config []).0 ≡ ok tt
      → let trace = (new_full outcome slot_duration config []).1 in
        (made authors_blocks trace ≡ is_authority config.role)
        × (made votes trace ≡ not config.disable_grandpa)
        × (made extends_rpc trace ≡ true)
  unfolding new_full new_partial over_components author_blocks vote
  new_full_tasks h = (ground arith, ground arith, ground arith)

  -- A light client starts the network exactly when its assembly succeeds.
  new_light-starts_network :
      let (r, trace) = new_light outcome slot_duration config [] in
      (r ≡ ok tt) ↔ (made starts_network trace ≡ true)
  unfolding new_light
  new_light-starts_network = (λ h. ground arith, λ h. ground arith)

  new_light-authors_blocks :
      made authors_blocks (new_light outcome slot_duration config []).1 ≡ false
  unfolding new_light
  new_light-authors_blocks = ground arith

  new_light-votes : made votes (new_light outcome slot_duration config []).1 ≡ false
  unfolding new_light
  new_light-votes = ground arith

  new_light-extends_rpc : made extends_rpc (new_light outcome slot_duration config []).1 ≡ false
  unfolding new_light
  new_light-extends_rpc = ground arith

  -- A light client starts the network exactly when its assembly succeeds; it never authors blocks,
  -- never votes and has no RPC extensions, whatever role its configuration names and whether it
  -- succeeds or not.
  pub new_light_lem :
      let (r, trace) = new_light outcome slot_duration config [] in
      ((r ≡ ok tt) ↔ (made starts_network trace ≡ true))
      × (made authors_blocks trace ≡ false)
      × (made votes trace ≡ false)
      × (made extends_rpc trace ≡ false)
  new_light_lem =
      (new_light-starts_network, new_light-authors_blocks, new_light-votes, new_light-extends_rpc)

-- If no call fails, a full node without a remote keystore starts.
pub new_full_succeeds :
    (slot_duration : ℕ → ℕ) (config : Configuration)
    → config.keystore_remote ≡ none
    → (new_full (λ n e. none) slot_duration config []).0 ≡ ok tt
unfolding new_full new_partial over_components author_blocks vote
new_full_succeeds slot_duration config h = ground arith

-- The assembly of a light client is the same whatever remote keystore its configuration names.
pub new_light_ignores_keystore :
    (outcome : ℕ → Effect → Option ℕ) (slot_duration : ℕ → ℕ) (config : Configuration)
    (keystore : Option String)
    → new_light outcome slot_duration (record config { keystore_remote = keystore }) []
      ≡ new_light outcome slot_duration config []
unfolding new_light
new_light_ignores_keystore outcome slot_duration config keystore = ground arith
