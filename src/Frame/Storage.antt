-- ===== src/Frame/Storage.antt =====
-- `frame_support::StorageMap` with `OptionQuery` and `u32` keys, as an interface: the operations
-- that `pallets/kitties/src/lib.rs` calls, with what FRAME documents of them as laws.
pub mod Assoc
pub mod Counting
use my_substrate_kitties.Base.{ℕ, Bool, Option, none, some, ◌≡◌, is_some, ◌==◌, if◌then◌else◌}

pub record StorageMap : Type 1 where
  pub Map : Type 0 → Type 0
  pub empty : {V : Type 0} → Map V
  pub get : {V : Type 0} → Map V → ℕ → Option V
  pub contains_key : {V : Type 0} → Map V → ℕ → Bool
  pub insert : {V : Type 0} → ℕ → V → Map V → Map V
  pub remove : {V : Type 0} → ℕ → Map V → Map V
  pub get-empty : {V : Type 0} (k : ℕ) → get (empty {V = V}) k ≡ none
  pub contains_key_lem : {V : Type 0} (m : Map V) (k : ℕ) → contains_key m k ≡ is_some (get m k)
  pub get-insert :
      {V : Type 0} (m : Map V) (k : ℕ) (v : V) (j : ℕ)
      → get (insert k v m) j ≡ (if j == k then some v else get m j)
  pub get-remove :
      {V : Type 0} (m : Map V) (k : ℕ) (j : ℕ)
      → get (remove k m) j ≡ (if j == k then none else get m j)
