-- ===== src/Kitties/Ordering/Calls.antt =====
-- The calls of the kitties pallet (`pallets/kitties/src/lib.rs`) over a storage that shows some prices in
-- another way.
use my_substrate_kitties.Base.{ℕ, ◌+◌, ◌%◌, ◌^◌, not, Option, none, some, List, ◌==◌}
use my_substrate_kitties.Frame.Currency.{keep_alive}
use my_substrate_kitties.Frame.Dispatch.{pure, ◌>>=◌}
use my_substrate_kitties.Frame.Dispatch.Agree.{bind-Agrees, pure-Agrees, unwrap-Agrees}
use my_substrate_kitties.Kitties.Types.{
  Kitty, gender, Config, Block, Event, kitties_count_overflow, kitty_not_exists, not_owner_of_kitty,
  can_not_breed_with_same_gender, kitty_created, kitty_transfered, kitty_born, kitty_abandoned,
  kitty_adopted, kitty_price_set, kitty_price_cleared, kitty_sold,
  can_not_adopt_kitty_with_an_owner, kitty_not_for_sell, no_need_to_buy_kitty_without_an_owner,
}
use my_substrate_kitties.Kitties.Helpers.{
  Call, u32_max, same_gender, breed_dna, get_random_value, next_count, get_next_kitty_id,
  create_kitty, breed_kitty, ensure_owner, transfer_kitty,
}
use my_substrate_kitties.Kitties.Calls.{
  ensure_exists, Request, create_request, transfer_request, breed_request, abandon_request,
  adopt_request, clear_price_request, buy_request, set_price_request, create, transfer, breed,
  abandon, adopt, set_price, clear_price, buy, dispatch,
}
use my_substrate_kitties.Kitties.Ordering.Unmoved.{
  Published, Spares, Unmoved, signed, checked, found, read_count, read_known, read_kitty,
  read_owned, read_owner, read_price,
}
use my_substrate_kitties.Kitties.Ordering.Writes.{
  write_price, write_event, write_count, write_kitty, write_owner, clear_owner, paying, giving_back,
}

module _ (C : Config) (shown : ℕ → Option ℕ → Option ℕ) (more : List Event) where
  abbrev Calm : {A : Type 0} → Call C A → Type 0
  Calm = Unmoved C shown more

  infixl 5 ◌then◌
  abbrev ◌then◌ :
      {A B : Type 0} {m : Call C A} {f : A → Call C B}
      → Calm m
      → ((a : A) → Calm (f a))
      → Calm (m >>= f)
  h then k = bind-Agrees (Published C shown more) h k

  calm : {A : Type 0} (a : A) → Calm (pure a)
  calm a = pure-Agrees (Published C shown more) a

  exists : (i : ℕ) → Calm (ensure_exists C i)
  exists i = read_known C shown more i then λ known. checked C shown more known kitty_not_exists

  owned_by : (i who : ℕ) → Calm (ensure_owner C i who)
  unfolding ensure_owner
  owned_by i who =
      read_owner C shown more i then (λ o. found C shown more o not_owner_of_kitty) then λ owner.
      checked C shown more (who == owner) not_owner_of_kitty

  handing_over : (i owner new_owner : ℕ) → Calm (transfer_kitty C i owner new_owner)
  unfolding transfer_kitty
  handing_over i owner new_owner =
      paying C shown more (C.currency.reserve new_owner C.holding_deposit_for_one_kitty) then λ _.
      giving_back C shown more owner then λ _. write_owner C shown more i new_owner

  numbering : (o : Option ℕ) → Calm (next_count C o)
  unfolding next_count
  numbering none = calm 1
  numbering (some count) =
      checked C shown more (not (count == u32_max)) kitties_count_overflow then λ _.
      calm ((count + 1) % 2 ^ 32)

  creating : (block : Block) (dna : List ℕ) → Calm (create_kitty C block dna)
  unfolding create_kitty get_next_kitty_id
  creating block dna =
      (read_count C shown more then numbering then λ (count : ℕ). calm (count, count)) then λ p.
      write_kitty C shown more p.0 (record { dna = dna; birth_time = block.now })
      then (λ _. write_count C shown more p.1)
      then λ _. calm p.0

  breeding : (block : Block) (id1 id2 who : ℕ) → Calm (breed_kitty C block id1 id2 who)
  unfolding breed_kitty get_random_value
  breeding block id1 id2 who =
      read_kitty C shown more id1
      then (λ o. unwrap-Agrees (Published C shown more) o)
      then λ (kitty1 : Kitty).
          read_kitty C shown more id2
          then (λ o. unwrap-Agrees (Published C shown more) o)
          then λ (kitty2 : Kitty).
              checked C shown more (not (same_gender (gender kitty1) (gender kitty2)))
                can_not_breed_with_same_gender
              then λ _.
                  creating block
                    (breed_dna 16 0 (get_random_value C block who) kitty1.dna kitty2.dna)

  create-Unmoved : (block : Block) (origin : C.Origin) → Calm (create C block origin)
  unfolding create get_random_value
  create-Unmoved block origin = signed C shown more (C.ensure_signed origin) then λ who.
      creating block (get_random_value C block who) then λ i.
      write_event C shown more (kitty_created i)

  transfer-Unmoved : (origin : C.Origin) (i new_owner : ℕ) → Calm (transfer C origin i new_owner)
  unfolding transfer
  transfer-Unmoved origin i new_owner = signed C shown more (C.ensure_signed origin) then λ who.
      exists i then λ _. owned_by i who then λ _. handing_over i who new_owner then λ _.
      write_event C shown more (kitty_transfered i who new_owner)

  breed-Unmoved :
      (block : Block) (origin : C.Origin) (id1 id2 : ℕ) → Calm (breed C block origin id1 id2)
  unfolding breed
  breed-Unmoved block origin id1 id2 = signed C shown more (C.ensure_signed origin) then λ who.
      exists id1 then λ _. exists id2 then λ _.
      breeding block id1 id2 who then λ i. write_event C shown more (kitty_born i id1 id2)

  adopt-Unmoved : (origin : C.Origin) (i : ℕ) → Calm (adopt C origin i)
  unfolding adopt
  adopt-Unmoved origin i = signed C shown more (C.ensure_signed origin) then λ who.
      exists i then λ _.
      (read_owned C shown more i then λ owned.
      checked C shown more (not owned) can_not_adopt_kitty_with_an_owner)
      then λ _.
          paying C shown more (C.currency.reserve who C.holding_deposit_for_one_kitty) then λ _.
          write_owner C shown more i who then λ _. write_event C shown more (kitty_adopted i who)

  module _ (i : ℕ) (spared : Spares C shown more i) where
    abandon-Unmoved : (origin : C.Origin) → Calm (abandon C origin i)
    unfolding abandon
    abandon-Unmoved origin = signed C shown more (C.ensure_signed origin) then λ who.
        exists i then λ _. owned_by i who then λ _. giving_back C shown more who then λ _.
        clear_owner C shown more i then λ _. write_price C shown more i none spared then λ _.
        write_event C shown more (kitty_abandoned i)

    set_price-Unmoved : (origin : C.Origin) (price : ℕ) → Calm (set_price C origin i price)
    unfolding set_price
    set_price-Unmoved origin price = signed C shown more (C.ensure_signed origin) then λ who.
        exists i then λ _. owned_by i who then λ _.
        write_price C shown more i (some price) spared then λ _.
        write_event C shown more (kitty_price_set i price)

    clear_price-Unmoved : (origin : C.Origin) → Calm (clear_price C origin i)
    unfolding clear_price
    clear_price-Unmoved origin = signed C shown more (C.ensure_signed origin) then λ who.
        exists i then λ _. owned_by i who then λ _. write_price C shown more i none spared then λ _.
        write_event C shown more (kitty_price_cleared i)

    buy-Unmoved : (origin : C.Origin) → Calm (buy C origin i)
    unfolding buy
    buy-Unmoved origin = signed C shown more (C.ensure_signed origin) then λ buyer.
        exists i then λ _.
        (read_owner C shown more i then λ o.
        found C shown more o no_need_to_buy_kitty_without_an_owner)
        then λ owner.
            (read_price C shown more i spared then λ o. found C shown more o kitty_not_for_sell)
            then λ price.
                paying C shown more (C.currency.transfer buyer owner price keep_alive) then λ _.
                handing_over i owner buyer then λ _.
                write_price C shown more i none spared then λ _.
                write_event C shown more (kitty_sold i owner buyer price)

  -- The prices that a call reads or writes are shown as they are.
  abbrev pub IsSpared : Request → Type 0
  IsSpared create_request = Unit {0}
  IsSpared (transfer_request i new_owner) = Unit {0}
  IsSpared (breed_request id1 id2) = Unit {0}
  IsSpared (abandon_request i) = Spares C shown more i
  IsSpared (adopt_request i) = Unit {0}
  IsSpared (set_price_request i price) = Spares C shown more i
  IsSpared (clear_price_request i) = Spares C shown more i
  IsSpared (buy_request i) = Spares C shown more i

  pub dispatch-Unmoved :
      (block : Block) (origin : C.Origin) (q : Request)
      → IsSpared q
      → Calm (dispatch C block origin q)
  unfolding dispatch
  dispatch-Unmoved block origin create_request h = create-Unmoved block origin
  dispatch-Unmoved block origin (transfer_request i new_owner) h =
      transfer-Unmoved origin i new_owner
  dispatch-Unmoved block origin (breed_request id1 id2) h = breed-Unmoved block origin id1 id2
  dispatch-Unmoved block origin (abandon_request i) h = abandon-Unmoved i h origin
  dispatch-Unmoved block origin (adopt_request i) h = adopt-Unmoved origin i
  dispatch-Unmoved block origin (set_price_request i price) h = set_price-Unmoved i h origin price
  dispatch-Unmoved block origin (clear_price_request i) h = clear_price-Unmoved i h origin
  dispatch-Unmoved block origin (buy_request i) h = buy-Unmoved i h origin
