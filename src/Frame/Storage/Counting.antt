-- ===== src/Frame/Storage/Counting.antt =====
-- A storage map that counts how often it is written.
use my_substrate_kitties.Base.{ℕ, ◌+◌}
use my_substrate_kitties.Frame.Storage.{StorageMap}

abbrev pub counting : StorageMap → StorageMap
counting M = record {
  Map = λ V. ℕ × M.Map V;
  empty = (0, M.empty);
  get = λ m k. M.get m.1 k;
  contains_key = λ m k. M.contains_key m.1 k;
  insert = λ k v m. (m.0 + 1, M.insert k v m.1);
  remove = λ k m. (m.0 + 1, M.remove k m.1);
  get-empty = λ k. M.get-empty k;
  contains_key_lem = λ m k. M.contains_key_lem m.1 k;
  get-insert = λ m k v j. M.get-insert m.1 k v j;
  get-remove = λ m k j. M.get-remove m.1 k j;
}
