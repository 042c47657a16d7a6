-- ===== src/Frame/Dispatch/Cost.antt =====
-- Actions with two counters of the storage, one for writes and one for moves: what an action adds to
-- them, if it succeeds and if it does not.
use my_substrate_kitties.Base.{
  ℕ, ◌+◌, ◌≡◌, ◌≤◌, refl, Bool, true, false, Option, none, some, arith, ap, ◌∙◌,
}
use my_substrate_kitties.Frame.Dispatch.{
  Result, ok, err, panic, Action, pure, gets, unwrap, some_or_fail, signed_by, modify, ensure,
  ◌>>=◌,
}

module _ {S E : Type 0} (writes moves : S → ℕ) where
  -- With success `n` writes and `k` moves, otherwise no write and at most `f` moves.
  abbrev pub Spent : {A : Type 0} → ℕ → ℕ → ℕ → S → Result E A × S → Type 0
  Spent n k f s (ok _, t) = (writes t ≡ writes s + n) × (moves t ≡ moves s + k)
  Spent n k f s (err _, t) = (writes t ≡ writes s) × (moves t ≤ moves s + f)
  Spent n k f s (panic, t) = (writes t ≡ writes s) × (moves t ≤ moves s + f)

  pub record Spends {A : Type 0} (n k f : ℕ) (m : Action S E A) : Type 0 where
    pub at : (s : S) → Spent n k f s (m s)

  -- An action that cannot fail.
  pub record Pays {A : Type 0} (n k : ℕ) (m : Action S E A) : Type 0 where
    pub value : S → A
    pub left : S → S
    pub runs : (s : S) → m s ≡ (ok (value s), left s)
    pub pays : (s : S) → (writes (left s) ≡ writes s + n) × (moves (left s) ≡ moves s + k)

  pub Pays-Spends : {A : Type 0} {n k : ℕ} {m : Action S E A} (f : ℕ) → Pays n k m → Spends n k f m
  Pays-Spends f p = record { at = λ s. rw (p.runs s) (p.pays s) }

  pub pure-Pays : {A : Type 0} (a : A) → Pays 0 0 (pure a)
  pure-Pays a = record {
    value = λ s. a;
    left = λ s. s;
    runs = λ s. refl;
    pays = λ s. (omega arith, omega arith);
  }

  pub modify-Pays :
      {n k : ℕ} (g : S → S)
      → ((s : S) → (writes (g s) ≡ writes s + n) × (moves (g s) ≡ moves s + k))
      → Pays n k (modify g)
  modify-Pays g h = record { value = λ s. tt; left = g; runs = λ s. refl; pays = h }

  pub bind-Pays :
      {A B : Type 0} {n k n' k' : ℕ} {m : Action S E A} {g : A → Action S E B}
      → Pays n k m
      → ((a : A) → Pays n' k' (g a))
      → Pays (n + n') (k + k') (m >>= g)
  bind-Pays {g} p q = record {
    value = λ s. (q (p.value s)).value (p.left s);
    left = λ s. (q (p.value s)).left (p.left s);
    runs = λ s. ap (λ x. ((λ _. x) >>= g) s) (p.runs s) ∙ (q (p.value s)).runs (p.left s);
    pays = λ s.
        let first = p.pays s in
        let second = (q (p.value s)).pays (p.left s) in
        (omega (arith, first.0, second.0), omega (arith, first.1, second.1));
  }

  -- A test, which only reads.
  pub ensure-Spends : (b : Bool) (e : E) → Spends 0 0 0 (ensure b e)
  ensure-Spends true e = record { at = λ s. (omega arith, omega arith) }
  ensure-Spends false e = record { at = λ s. (refl, omega arith) }

  pub some_or_fail-Spends : {A : Type 0} (o : Option A) (e : E) → Spends 0 0 0 (some_or_fail o e)
  some_or_fail-Spends none e = record { at = λ s. (refl, omega arith) }
  some_or_fail-Spends (some a) e = record { at = λ s. (omega arith, omega arith) }

  pub signed_by-Spends : {A : Type 0} (o : Option A) → Spends {A = A} 0 0 0 (signed_by o)
  signed_by-Spends none = record { at = λ s. (refl, omega arith) }
  signed_by-Spends (some a) = record { at = λ s. (omega arith, omega arith) }

  pub unwrap-Spends : {A : Type 0} (o : Option A) → Spends {A = A} 0 0 0 (unwrap o)
  unwrap-Spends none = record { at = λ s. (refl, omega arith) }
  unwrap-Spends (some a) = record { at = λ s. (omega arith, omega arith) }

  pub gets-Spends : {A : Type 0} (g : S → A) → Spends {A = A} 0 0 0 (gets g)
  gets-Spends g = record { at = λ s. (omega arith, omega arith) }

  shift :
      {A : Type 0} (k n' k' f' : ℕ) (s t : S) (x : Result E A × S)
      → (writes t ≡ writes s + 0) × (moves t ≡ moves s + k)
      → Spent n' k' f' t x
      → Spent n' (k + k') (k + f') s x
  shift k n' k' f' s t (ok a, u) h spent =
      (omega (arith, h.0, spent.0), omega (arith, h.1, spent.1))
  shift k n' k' f' s t (err e, u) h spent =
      (omega (arith, h.0, spent.0), omega (arith, h.1, spent.1))
  shift k n' k' f' s t (panic, u) h spent =
      (omega (arith, h.0, spent.0), omega (arith, h.1, spent.1))

  -- What comes after an action that does not write.
  spent_after :
      {A B : Type 0} (k f n' k' f' : ℕ) (g : A → Action S E B)
      → ((a : A) → Spends n' k' f' (g a))
      → f ≤ k + f'
      → (s : S) (x : Result E A × S) → Spent 0 k f s x
      → Spent n' (k + k') (k + f') s (((λ _. x) >>= g) s)
  spent_after k f n' k' f' g h low s (err e, t) spent = (spent.0, omega (arith, spent.1))
  spent_after k f n' k' f' g h low s (panic, t) spent = (spent.0, omega (arith, spent.1))
  spent_after k f n' k' f' g h low s (ok a, t) spent =
      shift k n' k' f' s t (g a t) spent ((h a).at t)

  -- What comes after any action, if it cannot fail.
  spent_before :
      {A B : Type 0} (n k f n' k' : ℕ) (g : A → Action S E B)
      → ((a : A) → Pays n' k' (g a))
      → (s : S) (x : Result E A × S) → Spent n k f s x
      → Spent (n + n') (k + k') f s (((λ _. x) >>= g) s)
  spent_before n k f n' k' g h s (err e, t) spent = spent
  spent_before n k f n' k' g h s (panic, t) spent = spent
  spent_before n k f n' k' g h s (ok a, t) spent =
      let p = (h a).pays t in
      rw ((h a).runs t) (omega (arith, spent.0, p.0), omega (arith, spent.1, p.1))

  pub then_Spends :
      {A B : Type 0} {n' k' : ℕ} (k f f' : ℕ) {m : Action S E A} {g : A → Action S E B}
      → f ≤ k + f'
      → Spends 0 k f m
      → ((a : A) → Spends n' k' f' (g a))
      → Spends n' (k + k') (k + f') (m >>= g)
  then_Spends {n'} {k'} k f f' {m} {g} low first rest = record {
    at = λ s. spent_after k f n' k' f' g rest low s (m s) (first.at s);
  }

  -- After a test.
  pub test_Spends :
      {A B : Type 0} {n k f : ℕ} {m : Action S E A} {g : A → Action S E B}
      → Spends 0 0 0 m
      → ((a : A) → Spends n k f (g a))
      → Spends n k f (m >>= g)
  test_Spends {n} {k} {f} {m} {g} first rest = record {
    at = λ s.
        let spent = spent_after 0 0 n k f g rest (omega arith) s (m s) (first.at s) in
        let more : 0 + k ≡ k = omega arith in
        let most : 0 + f ≡ f = omega arith in rw (more, most) at spent;
  }

  more :
      {A : Type 0} (n k f f' : ℕ) (s : S) (x : Result E A × S)
      → f ≤ f'
      → Spent n k f s x
      → Spent n k f' s x
  more n k f f' s (ok a, t) h spent = spent
  more n k f f' s (err e, t) h spent = (spent.0, omega (arith, h, spent.1))
  more n k f f' s (panic, t) h spent = (spent.0, omega (arith, h, spent.1))

  pub more_Spends :
      {A : Type 0} {n k : ℕ} (f f' : ℕ) {m : Action S E A}
      → f ≤ f'
      → Spends n k f m
      → Spends n k f' m
  more_Spends {n} {k} f f' {m} h c = record { at = λ s. more n k f f' s (m s) h (c.at s) }

  pub then_Pays :
      {A B : Type 0} {n k n' k' : ℕ} (f : ℕ) {m : Action S E A} {g : A → Action S E B}
      → Spends n k f m
      → ((a : A) → Pays n' k' (g a))
      → Spends (n + n') (k + k') f (m >>= g)
  then_Pays {n} {k} {n'} {k'} f {m} {g} first rest = record {
    at = λ s. spent_before n k f n' k' g rest s (m s) (first.at s);
  }

-- The same as operators.
module _ {S E : Type 0} {writes moves : S → ℕ} {A B : Type 0} where
  infixl 5 ◌then◌ ◌then_pay◌ ◌then_write◌ ◌and◌
  -- After a test.
  abbrev pub ◌then◌ :
      {n k f : ℕ} {m : Action S E A} {g : A → Action S E B}
      → Spends writes moves 0 0 0 m
      → ((a : A) → Spends writes moves n k f (g a))
      → Spends writes moves n k f (m >>= g)
  h then rest = test_Spends writes moves h rest

  -- After a move that may fail.
  abbrev pub ◌then_pay◌ :
      {n k f : ℕ} {m : Action S E A} {g : A → Action S E B}
      → Spends writes moves 0 1 1 m
      → ((a : A) → Spends writes moves n k f (g a))
      → Spends writes moves n (1 + k) (1 + f) (m >>= g)
  ◌then_pay◌ {f} h rest = then_Spends writes moves 1 1 f (omega arith) h rest

  -- After anything, where nothing can fail any more.
  abbrev pub ◌then_write◌ :
      {n k n' k' f : ℕ} {m : Action S E A} {g : A → Action S E B}
      → Spends writes moves n k f m
      → ((a : A) → Pays writes moves n' k' (g a))
      → Spends writes moves (n + n') (k + k') f (m >>= g)
  ◌then_write◌ {f} h rest = then_Pays writes moves f h rest

  abbrev pub ◌and◌ :
      {n k n' k' : ℕ} {m : Action S E A} {g : A → Action S E B}
      → Pays writes moves n k m
      → ((a : A) → Pays writes moves n' k' (g a))
      → Pays writes moves (n + n') (k + k') (m >>= g)
  h and rest = bind-Pays writes moves h rest
