-- ===== src/Frame/Storage/Assoc.antt =====
-- A storage map kept as a list of entries: it runs in the tests, and shows that the laws of
-- `StorageMap` can hold.
use my_substrate_kitties.Base.{
  ℕ, Option, none, some, List, [], ◌∷◌, ◌≡◌, refl, arith, is_some, ◌==◌, if◌then◌else◌,
}
use my_substrate_kitties.Frame.Storage.{StorageMap}

module _ {V : Type 0} where
  abbrev lookup : List (ℕ × V) → ℕ → Option V
  lookup [] k = none
  lookup ((j, v) ∷ m) k = if k == j then some v else lookup m k

  abbrev erase : ℕ → List (ℕ × V) → List (ℕ × V)
  erase k [] = []
  erase k ((j, v) ∷ m) = let rest = erase k m in if k == j then rest else (j, v) ∷ rest

  abbrev put : ℕ → V → List (ℕ × V) → List (ℕ × V)
  put k v m = (k, v) ∷ erase k m

  pub lookup-erase :
      (m : List (ℕ × V)) (k j : ℕ) → lookup (erase k m) j ≡ (if j == k then none else lookup m j)
  lookup-erase [] k j = ground arith
  lookup-erase ((i, v) ∷ m) k j = ground (arith, lookup-erase m k j)

  pub lookup-put :
      (m : List (ℕ × V)) (k : ℕ) (v : V) (j : ℕ)
      → lookup (put k v m) j ≡ (if j == k then some v else lookup m j)
  lookup-put m k v j = ground (arith, lookup-erase m k j)

abbrev pub assoc_map : StorageMap
assoc_map = record {
  Map = λ V. List (ℕ × V);
  empty = [];
  get = λ m k. lookup m k;
  contains_key = λ m k. is_some (lookup m k);
  insert = λ k v m. put k v m;
  remove = λ k m. erase k m;
  get-empty = λ k. refl;
  contains_key_lem = λ m k. refl;
  get-insert = λ m k v j. lookup-put m k v j;
  get-remove = λ m k j. lookup-erase m k j;
}
