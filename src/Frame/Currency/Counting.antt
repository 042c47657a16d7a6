-- ===== src/Frame/Currency/Counting.antt =====
-- A currency that counts how often it is called to move an amount.
use my_substrate_kitties.Base.{ℕ, ◌+◌}
use my_substrate_kitties.Frame.Currency.{Currency}

abbrev pub counting : Currency → Currency
counting K = record {
  Balances = ℕ × K.Balances;
  free_balance = λ b a. K.free_balance b.1 a;
  reserved_balance = λ b a. K.reserved_balance b.1 a;
  reserve = λ a v b. let (r, b') = K.reserve a v b.1 in (r, (b.0 + 1, b'));
  unreserve = λ a v b. let (r, b') = K.unreserve a v b.1 in (r, (b.0 + 1, b'));
  transfer = λ a c v x b. let (r, b') = K.transfer a c v x b.1 in (r, (b.0 + 1, b'));
}
