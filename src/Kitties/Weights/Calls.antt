-- ===== src/Kitties/Weights/Calls.antt =====
-- What the calls of the kitties pallet (`pallets/kitties/src/lib.rs`) cost.
use my_substrate_kitties.Base.{
  ℕ, not, List, ◌%◌, ◌^◌, Option, ◌==◌, refl, ◌+◌, ◌≤◌, arith, none, some,
}
use my_substrate_kitties.Frame.Currency.{keep_alive}
use my_substrate_kitties.Frame.Dispatch.Cost.{
  Spent, ◌then◌, ◌then_pay◌, ◌then_write◌, ◌and◌, more_Spends,
}
use my_substrate_kitties.Kitties.Types.{
  Config, Block, State, Kitty, gender, can_not_breed_with_same_gender, kitty_created,
  kitty_transfered, kitty_born, kitty_abandoned, kitty_adopted, kitty_price_set,
  kitty_price_cleared, kitty_sold, can_not_adopt_kitty_with_an_owner, kitty_not_for_sell,
  no_need_to_buy_kitty_without_an_owner, kitties_count_overflow,
}
use my_substrate_kitties.Kitties.Helpers.{
  Call, transfer_kitty, next_count, get_next_kitty_id, create_kitty, breed_kitty, same_gender,
  get_random_value, breed_dna, u32_max,
}
use my_substrate_kitties.Kitties.Calls.{
  Request, create_request, transfer_request, breed_request, abandon_request, adopt_request,
  clear_price_request, buy_request, set_price_request, create, transfer, breed, abandon, adopt,
  set_price, clear_price, buy, dispatch,
}
use my_substrate_kitties.Kitties.Weights.{map_writes, moves, declared_writes, weight, cost}
use my_substrate_kitties.Kitties.Weights.Steps.{
  D, Costs, finally, signed, checked, found, read, exists, owned_by, paying, depositing,
  giving_back, event, write_owner, clear_owner, write_price, remove_price, write_kitty, write_count,
  returning, unwrapped,
}

at_least : (q : Request) → declared_writes q ≤ (cost q).0
at_least create_request = omega arith
at_least (transfer_request id new_owner) = omega arith
at_least (breed_request id1 id2) = omega arith
at_least (abandon_request id) = omega arith
at_least (adopt_request id) = omega arith
at_least (clear_price_request id) = omega arith
at_least (buy_request id) = omega arith
at_least (set_price_request id price) = omega arith

module _ (C : Config) where
  handing_over : (id owner new_owner : ℕ) → Costs C 1 2 1 (transfer_kitty (D C) id owner new_owner)
  unfolding transfer_kitty
  handing_over id owner new_owner = depositing C new_owner then_pay λ _.
      finally C (giving_back C owner and λ _. write_owner C id new_owner)

  numbering : (o : Option ℕ) → Costs C 0 0 0 (next_count (D C) o)
  unfolding next_count
  numbering none = finally C (returning C 1)
  numbering (some count) = checked C (not (count == u32_max)) kitties_count_overflow then λ _.
      finally C (returning C ((count + 1) % 2 ^ 32))

  creating : (block : Block) (dna : List ℕ) → Costs C 1 0 0 (create_kitty (D C) block dna)
  unfolding create_kitty get_next_kitty_id
  creating block dna =
      (read C (λ s. s.kitties_count) then numbering then λ (count : ℕ).
      let both : ℕ × ℕ = (count, count) in finally C (returning C both))
      then λ p. finally C (
          write_kitty C p.0 (record { dna = dna; birth_time = block.now })
          and (λ _. write_count C p.1)
          and λ _. returning C p.0)

  breeding : (block : Block) (id1 id2 who : ℕ) → Costs C 1 0 0 (breed_kitty (D C) block id1 id2 who)
  unfolding breed_kitty
  breeding block id1 id2 who =
      read C (λ s. (D C).storage.get s.kitties id1) then unwrapped C then λ (kitty1 : Kitty).
      read C (λ s. (D C).storage.get s.kitties id2) then unwrapped C then λ (kitty2 : Kitty).
      checked C (not (same_gender (gender kitty1) (gender kitty2))) can_not_breed_with_same_gender
      then λ _.
          creating block (breed_dna 16 0 (get_random_value (D C) block who) kitty1.dna kitty2.dna)

  module _ (block : Block) (origin : C.Origin) where
    create_costs : Costs C 1 0 0 (create (D C) block origin)
    unfolding create
    create_costs = signed C (C.ensure_signed origin) then λ who.
        creating block (get_random_value (D C) block who) then_write λ id.
        event C (kitty_created id)

    transfer_costs : (id new_owner : ℕ) → Costs C 1 2 1 (transfer (D C) origin id new_owner)
    unfolding transfer
    transfer_costs id new_owner = signed C (C.ensure_signed origin) then λ who.
        exists C id then λ _. owned_by C id who then λ _.
        handing_over id who new_owner then_write λ _. event C (kitty_transfered id who new_owner)

    breed_costs : (id1 id2 : ℕ) → Costs C 1 0 0 (breed (D C) block origin id1 id2)
    unfolding breed
    breed_costs id1 id2 = signed C (C.ensure_signed origin) then λ who. exists C id1 then λ _.
        exists C id2 then λ _.
        breeding block id1 id2 who then_write λ id. event C (kitty_born id id1 id2)

    abandon_costs : (id : ℕ) → Costs C 2 1 0 (abandon (D C) origin id)
    unfolding abandon
    abandon_costs id = signed C (C.ensure_signed origin) then λ who. exists C id then λ _.
        owned_by C id who then λ _. finally C (
          giving_back C who and λ _.
          clear_owner C id and λ _. remove_price C id and λ _. event C (kitty_abandoned id))

    adopt_costs : (id : ℕ) → Costs C 1 1 1 (adopt (D C) origin id)
    unfolding adopt
    adopt_costs id = signed C (C.ensure_signed origin) then λ who. exists C id then λ _.
        (read C (λ s. (D C).storage.contains_key s.kitties_owner id) then λ owned.
        checked C (not owned) can_not_adopt_kitty_with_an_owner)
        then λ _. depositing C who then_pay λ _.
            finally C (write_owner C id who and λ _. event C (kitty_adopted id who))

    set_price_costs : (id price : ℕ) → Costs C 1 0 0 (set_price (D C) origin id price)
    unfolding set_price
    set_price_costs id price = signed C (C.ensure_signed origin) then λ who. exists C id then λ _.
        owned_by C id who then λ _.
        finally C (write_price C id price and λ _. event C (kitty_price_set id price))

    clear_price_costs : (id : ℕ) → Costs C 1 0 0 (clear_price (D C) origin id)
    unfolding clear_price
    clear_price_costs id = signed C (C.ensure_signed origin) then λ who. exists C id then λ _.
        owned_by C id who then λ _.
        finally C (remove_price C id and λ _. event C (kitty_price_cleared id))

    buy_costs : (id : ℕ) → Costs C 2 3 2 (buy (D C) origin id)
    unfolding buy
    buy_costs id = signed C (C.ensure_signed origin) then λ buyer. exists C id then λ _.
        (read C (λ s. (D C).storage.get s.kitties_owner id) then λ o.
        found C o no_need_to_buy_kitty_without_an_owner)
        then λ owner.
            (read C (λ s. (D C).storage.get s.kitties_price id) then λ o.
            found C o kitty_not_for_sell)
            then λ price.
                paying C ((D C).currency.transfer buyer owner price keep_alive) (λ b. refl)
                then_pay λ _. handing_over id owner buyer then_write λ _.
                    remove_price C id and λ _. event C (kitty_sold id owner buyer price)

    most :
        {A : Type 0} {n k : ℕ} {m : Call (D C) A} (f : ℕ)
        → f ≤ 2
        → Costs C n k f m
        → Costs C n k 2 m
    most f h c = more_Spends (map_writes C) (moves C) f 2 h c

    costs : (q : Request) → Costs C (cost q).0 (cost q).1 2 (dispatch (D C) block origin q)
    unfolding dispatch
    costs create_request = most 0 (omega arith) create_costs
    costs (transfer_request id new_owner) = most 1 (omega arith) (transfer_costs id new_owner)
    costs (breed_request id1 id2) = most 0 (omega arith) (breed_costs id1 id2)
    costs (abandon_request id) = most 0 (omega arith) (abandon_costs id)
    costs (adopt_request id) = most 1 (omega arith) (adopt_costs id)
    costs (clear_price_request id) = most 0 (omega arith) (clear_price_costs id)
    costs (buy_request id) = buy_costs id
    costs (set_price_request id price) = most 0 (omega arith) (set_price_costs id price)

  -- Whatever the weight of `k` writes is, if it does not fall with `k`: over a storage map and a
  -- currency that count, a call that succeeds makes the writes to the maps and the calls of the
  -- currency that `cost` tells, one that fails makes no write to a map and at most two calls of the
  -- currency; and the weight that a call declares is at most 10_000 more than that of its writes to
  -- the maps.
  pub dispatch_costs :
      (writes : ℕ → ℕ) (block : Block) (origin : C.Origin) (q : Request) (s : State (D C))
      → ((m n : ℕ) → m ≤ n → writes m ≤ writes n)
      → Spent (map_writes C) (moves C) (cost q).0 (cost q).1 2 s (dispatch (D C) block origin q s)
        × (weight writes q ≤ 10_000 + writes (cost q).0)
  dispatch_costs writes block origin q s mono =
      let low = mono (declared_writes q) (cost q).0 (at_least q) in
      ((costs block origin q).at s, omega (arith, low))
