-- ===== src/Kitties/Ordering/Offers.antt =====
-- The calls of the kitties pallet (`pallets/kitties/src/lib.rs`) that set or clear a price, as one: what
-- they test, and what they write.
use mathlib.Core.List.{Perm, append_assoc, perm_append_comm}
use mathlib.Core.List.Perm
use my_substrate_kitties.Base.{
  ℕ, ◌≡◌, refl, Bool, false, Option, none, some, List, [], ◌∷◌, ◌++◌, arith, ◌==◌, if◌then◌else◌,
}
use my_substrate_kitties.Frame.Dispatch.{Result, ok, err, panic, signed_by, ◌>>=◌, ◌>>◌}
use my_substrate_kitties.Kitties.Types.{
  Event, Error, kitty_price_set, kitty_price_cleared, Config, Block, State,
}
use my_substrate_kitties.Kitties.Helpers.{Call, ensure_owner}
use my_substrate_kitties.Kitties.Calls.{
  Request, create_request, transfer_request, breed_request, abandon_request, adopt_request,
  clear_price_request, buy_request, set_price_request, ensure_exists, set_price, clear_price,
  dispatch,
}

-- The call that asks a price for a kitty, or takes it off the market.
abbrev pub offering : ℕ → Option ℕ → Request
offering id none = clear_price_request id
offering id (some price) = set_price_request id price

abbrev pub offered : ℕ → Option ℕ → Event
offered id none = kitty_price_cleared id
offered id (some price) = kitty_price_set id price

pub move_last :
    (es more : List Event) (e : Event) → Perm (es ++ more ++ (e ∷ [])) (es ++ (e ∷ []) ++ more)
move_last es more e =
    let moved : Perm (es ++ (more ++ (e ∷ []))) (es ++ ((e ∷ []) ++ more)) =
      Perm.append_left es (perm_append_comm more (e ∷ [])) in
    rw (append_assoc es more (e ∷ []), append_assoc es (e ∷ []) more) moved

-- A call that is about the owner or the price of a kitty.
abbrev pub concerns : Request → ℕ → Bool
concerns create_request id = false
concerns (transfer_request id' new_owner) id = id == id'
concerns (breed_request id1 id2) id = false
concerns (abandon_request id') id = id == id'
concerns (adopt_request id') id = id == id'
concerns (clear_price_request id') id = id == id'
concerns (buy_request id') id = id == id'
concerns (set_price_request id' price) id = id == id'

-- Two storages with the same kitties, count, owners, prices and balances, whose events are the same
-- up to their order.
pub record SameUpToOrder (C : Config) (s t : State C) : Type 0 where
  pub count : t.kitties_count ≡ s.kitties_count
  pub kitties : t.kitties ≡ s.kitties
  pub owner : t.kitties_owner ≡ s.kitties_owner
  pub balances : t.balances ≡ s.balances
  pub price : (id : ℕ) → C.storage.get t.kitties_price id ≡ C.storage.get s.kitties_price id
  pub events : Perm t.events s.events

-- The second storage is the first one, but for the prices, which are shown in another way, and for
-- more events.
pub record Alike (C : Config) (shown : ℕ → Option ℕ → Option ℕ) (more : List Event) (s t : State C)
    : Type 0 where
  pub count : t.kitties_count ≡ s.kitties_count
  pub kitties : t.kitties ≡ s.kitties
  pub owner : t.kitties_owner ≡ s.kitties_owner
  pub balances : t.balances ≡ s.balances
  pub price :
      (id : ℕ) → C.storage.get t.kitties_price id ≡ shown id (C.storage.get s.kitties_price id)
  pub events : Perm t.events (s.events ++ more)

-- How an offer shows the prices.
abbrev pub with_offer : ℕ → Option ℕ → ℕ → Option ℕ → Option ℕ
with_offer id offer j price = if j == id then offer else price

abbrev pub as_is : ℕ → Option ℕ → Option ℕ
as_is j price = price

module _ (C : Config) where
  pub same_state : (s : State C) → SameUpToOrder C s s
  same_state s = record {
    count = refl;
    kitties = refl;
    owner = refl;
    balances = refl;
    price = λ id. refl;
    events = Perm.refl s.events;
  }

  abbrev pub put : ℕ → Option ℕ → C.storage.Map ℕ → C.storage.Map ℕ
  put id none prices = C.storage.remove id prices
  put id (some price) prices = C.storage.insert id price prices

  pub get-put :
      (id : ℕ) (offer : Option ℕ) (m : C.storage.Map ℕ) (j : ℕ)
      → C.storage.get (put id offer m) j ≡ (if j == id then offer else C.storage.get m j)
  get-put id none m j = C.storage.get-remove m id j
  get-put id (some price) m j = C.storage.get-insert m id price j

  -- What an offer writes.
  abbrev pub publish : ℕ → Option ℕ → State C → State C
  publish id offer s = record s {
    kitties_price = put id offer s.kitties_price;
    events = s.events ++ (offered id offer ∷ []);
  }

  -- What it tests before.
  unfoldable pub guard : C.Origin → ℕ → Call C (Unit {0})
  unfolding ensure_owner
  guard origin id = do
    who ← signed_by (C.ensure_signed origin)
    ensure_exists C id
    ensure_owner C id who

  abbrev pub verdict : C.Origin → ℕ → State C → Result Error (Unit {0})
  verdict origin id s = (guard origin id s).0

  abbrev pub settle :
      Result Error (Unit {0}) → State C → State C → Result Error (Unit {0}) × State C
  settle (ok u) s t = (ok u, t)
  settle (err e) s t = (err e, s)
  settle panic s t = (panic, s)

  pub offering_lem :
      (block : Block) (origin : C.Origin) (id : ℕ) (offer : Option ℕ) (s : State C)
      → dispatch C block origin (offering id offer) s
        ≡ settle (verdict origin id s) s (publish id offer s)
  unfolding dispatch set_price clear_price guard ensure_owner
  offering_lem block origin id none s = ground arith
  offering_lem block origin id (some price) s = ground arith

  -- The tests read whether there is the kitty, and its owner.
  pub verdict_same :
      (origin : C.Origin) (id : ℕ) (s t : State C)
      → C.storage.contains_key t.kitties id ≡ C.storage.contains_key s.kitties id
      → C.storage.get t.kitties_owner id ≡ C.storage.get s.kitties_owner id
      → verdict origin id t ≡ verdict origin id s
  unfolding guard ensure_owner
  verdict_same origin id s t known owner = ground arith
