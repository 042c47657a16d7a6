-- ===== src/Kitties/Ordering/Shuffle.antt =====
-- Offers of the kitties pallet (`pallets/kitties/src/lib.rs`) among other calls: what a history leaves,
-- but for the order of its events.
use my_substrate_kitties.Base.{ℕ, ◌≡◌, false, Option, List, [], ◌∷◌, ◌++◌, map, All}
use my_substrate_kitties.Frame.Currency.{IsLawful}
use my_substrate_kitties.Kitties.Types.{Config, Block, State}
use my_substrate_kitties.Kitties.Calls.{Request, dispatch, run}
use my_substrate_kitties.Kitties.History.{run-append}
use my_substrate_kitties.Kitties.Invariant.{counted_step}
use my_substrate_kitties.Kitties.Implements.{dispatch-Transition}
use my_substrate_kitties.Kitties.Transition.{HasCountU32, Exists}
use my_substrate_kitties.Kitties.Ordering.Offers.{offering, concerns, SameUpToOrder, same_state}
use my_substrate_kitties.Kitties.Ordering.Alike.{run-SameUpToOrder}
use my_substrate_kitties.Kitties.Ordering.Swap.{step-Exists}
use my_substrate_kitties.Kitties.Ordering.Moving.{run_comm, SameUpToOrder-trans}

-- An interleaving of two sequences, of which `f` reads the first: each keeps its own order.
pub data Shuffle {ℓ} {A B : Type ℓ} (f : A → B) : List A → List B → List B → Type ℓ where
  done : Shuffle f [] [] []
  left :
      (x : A) {xs : List A} {ys zs : List B} → Shuffle f xs ys zs → Shuffle f (x ∷ xs) ys (f x ∷ zs)
  right :
      (y : B) {xs : List A} {ys zs : List B} → Shuffle f xs ys zs → Shuffle f xs (y ∷ ys) (y ∷ zs)

-- A call that sets or clears a price, signed and in a block.
pub record Offer (C : Config) : Type 0 where
  pub block : Block
  pub origin : C.Origin
  pub kitty : ℕ
  pub price : Option ℕ

module _ (C : Config) where
  abbrev pub made : Offer C → Block × C.Origin × Request
  made o = (o.block, o.origin, offering o.kitty o.price)

  -- The kitty of the offer exists, and none of the calls is about its owner or its price.
  abbrev pub Apart : State C → List (Block × C.Origin × Request) → Offer C → Type 0
  Apart s others o = Exists C s o.kitty × All (λ call. concerns call.2 o.kitty ≡ false) others

module _ (C : Config) (L : IsLawful C.currency) where
  Apart-step :
      (block : Block) (origin : C.Origin) (q : Request) (s : State C)
      (others : List (Block × C.Origin × Request))
      → HasCountU32 C s
      → (offers : List (Offer C)) → All (Apart C s others) offers
      → All (Apart C (dispatch C block origin q s).1 others) offers
  Apart-step block origin q s others counted [] h = tt
  Apart-step block origin q s others counted (o ∷ offers) ((x, free), h) =
      let step = dispatch-Transition C L block origin s counted q in
      ((step-Exists C o.kitty step x, free), Apart-step block origin q s others counted offers h)

  -- A call makes way for offers that it is not about.
  make_way :
      (block : Block) (origin : C.Origin) (q : Request) (offers : List (Offer C))
      (later : List (Block × C.Origin × Request)) (s : State C)
      → HasCountU32 C s
      → All (Apart C s ((block, origin, q) ∷ [])) offers
      → SameUpToOrder C
          (run C ((block, origin, q) ∷ (map (made C) offers ++ later)) s)
          (run C (map (made C) offers ++ ((block, origin, q) ∷ later)) s)
  unfolding run
  make_way block origin q [] later s counted h = same_state C _
  make_way block origin q (o ∷ offers) later s counted ((x, (free, _)), h) =
      let rest = map (made C) offers ++ later in
      let call : Block × C.Origin × Request = (block, origin, q) in
      let step = dispatch-Transition C L o.block o.origin s counted (offering o.kitty o.price) in
      let swapped =
        run_comm C L o.block o.origin o.kitty o.price rest (call ∷ []) s counted x (free, tt) in
      SameUpToOrder-trans C swapped (
        make_way block origin q offers later _ (counted_step C step counted)
          (Apart-step o.block o.origin (offering o.kitty o.price) s (call ∷ []) counted offers h))

  -- The first call apart from offers, and the calls after it.
  first_Apart :
      (call : Block × C.Origin × Request) (others : List (Block × C.Origin × Request)) (s : State C)
      (offers : List (Offer C))
      → All (Apart C s (call ∷ others)) offers
      → All (Apart C s (call ∷ [])) offers × All (Apart C s others) offers
  first_Apart call others s [] h = (tt, tt)
  first_Apart call others s (o ∷ offers) ((x, (free, rest)), h) =
      let (one, more) = first_Apart call others s offers h in
      (((x, (free, tt)), one), ((x, rest), more))

  shuffled_first :
      (offers : List (Offer C)) (others calls : List (Block × C.Origin × Request)) (s : State C)
      → HasCountU32 C s
      → All (Apart C s others) offers
      → Shuffle (made C) offers others calls
      → SameUpToOrder C (run C calls s) (run C (map (made C) offers ++ others) s)
  unfolding run
  shuffled_first offers others calls s counted h done = same_state C _
  shuffled_first offers others calls s counted h (left o {xs} shuffled) =
      let q = offering o.kitty o.price in
      let step = dispatch-Transition C L o.block o.origin s counted q in
      shuffled_first xs others _ _ (counted_step C step counted)
        (Apart-step o.block o.origin q s others counted xs h.1) shuffled
  shuffled_first offers others calls s counted h (right (block, origin, q) {xs} {ys} shuffled) =
      let step = dispatch-Transition C L block origin s counted q in
      let (one, more) = first_Apart (block, origin, q) ys s offers h in
      SameUpToOrder-trans C
        (shuffled_first offers ys _ _ (counted_step C step counted)
          (Apart-step block origin q s ys counted offers more) shuffled)
        (make_way block origin q offers ys s counted one)

  -- Over a lawful currency, with a count that is a u32: offers are calls that set or clear the price of
  -- a kitty that exists; however they come between other calls, none of which is about the owner or
  -- the price of such a kitty, and whatever calls come later, the history leaves the same kitties,
  -- count, owners, prices and balances as if all offers came first, and the same events, but for
  -- their order.
  pub run-Shuffle :
      (offers : List (Offer C)) (others calls later : List (Block × C.Origin × Request))
      (s : State C)
      → HasCountU32 C s
      → All (Apart C s others) offers
      → Shuffle (made C) offers others calls
      → SameUpToOrder C
          (run C (calls ++ later) s)
          (run C (map (made C) offers ++ others ++ later) s)
  run-Shuffle offers others calls later s counted h shuffled =
      rw (run-append C calls later s, run-append C (map (made C) offers ++ others) later s)
        (run-SameUpToOrder C later _ _ (shuffled_first offers others calls s counted h shuffled))
