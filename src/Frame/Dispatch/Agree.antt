-- ===== src/Frame/Dispatch/Agree.antt =====
-- Actions that agree over two storages: from related storages they return the same and leave related
-- storages.
use my_substrate_kitties.Base.{Bool, true, false, Option, none, some, ◌≡◌, refl, ap, arith}
use my_substrate_kitties.Frame.Dispatch.{
  DispatchError, Result, ok, err, panic, Action, pure, gets, throw, unwrap, some_or_fail, signed_by,
  modify, ensure, ◌>>=◌,
}

module _ {S T E : Type 0} (V : S → T → Type 0) where
  pub record Agrees {A : Type 0} (m : Action S E A) (n : Action T E A) : Type 0 where
    pub at : (s : S) (t : T) → V s t → ((n t).0 ≡ (m s).0) × V (m s).1 (n t).1

  after :
      {A B : Type 0} (f : A → Action S E B) (g : A → Action T E B)
      → ((a : A) → Agrees (f a) (g a))
      → (r r' : Result E A) (s : S) (t : T) → r' ≡ r
      → V s t
      → let m : Action S E B = (λ _. (r, s)) >>= f in
        let n : Action T E B = (λ _. (r', t)) >>= g in ((n t).0 ≡ (m s).0) × V (m s).1 (n t).1
  after f g h (ok a) (ok a') s t e v = let same : a' ≡ a = ground arith in rw same ((h a).at s t v)
  after f g h (err x) (err y) s t e v = let same : y ≡ x = ground arith in (ap err same, v)
  after f g h panic panic s t e v = (refl, v)
  after f g h _ _ s t e v = absurd (ground arith)

  pub bind-Agrees :
      {A B : Type 0} {m : Action S E A} {n : Action T E A} {f : A → Action S E B}
      {g : A → Action T E B}
      → Agrees m n
      → ((a : A) → Agrees (f a) (g a))
      → Agrees (m >>= f) (n >>= g)
  bind-Agrees {m} {n} {f} {g} h k = record {
    at =
        λ s t v. let step = h.at s t v in after f g k (m s).0 (n t).0 (m s).1 (n t).1 step.0 step.1;
  }

  pub pure-Agrees : {A : Type 0} (a : A) → Agrees (pure a) (pure a)
  pure-Agrees a = record { at = λ s t v. (refl, v) }

  pub throw-Agrees : {A : Type 0} (e : DispatchError E) → Agrees {A = A} (throw e) (throw e)
  throw-Agrees e = record { at = λ s t v. (refl, v) }

  pub ensure-Agrees : (b : Bool) (e : E) → Agrees (ensure b e) (ensure b e)
  ensure-Agrees true e = record { at = λ s t v. (refl, v) }
  ensure-Agrees false e = record { at = λ s t v. (refl, v) }

  pub some_or_fail-Agrees :
      {A : Type 0} (o : Option A) (e : E) → Agrees (some_or_fail o e) (some_or_fail o e)
  some_or_fail-Agrees none e = record { at = λ s t v. (refl, v) }
  some_or_fail-Agrees (some a) e = record { at = λ s t v. (refl, v) }

  pub signed_by-Agrees : {A : Type 0} (o : Option A) → Agrees {A = A} (signed_by o) (signed_by o)
  signed_by-Agrees none = record { at = λ s t v. (refl, v) }
  signed_by-Agrees (some a) = record { at = λ s t v. (refl, v) }

  pub unwrap-Agrees : {A : Type 0} (o : Option A) → Agrees {A = A} (unwrap o) (unwrap o)
  unwrap-Agrees none = record { at = λ s t v. (refl, v) }
  unwrap-Agrees (some a) = record { at = λ s t v. (refl, v) }

  pub gets-Agrees :
      {A : Type 0} (f : S → A) (g : T → A)
      → ((s : S) (t : T) → V s t → g t ≡ f s)
      → Agrees {A = A} (gets f) (gets g)
  gets-Agrees f g h = record { at = λ s t v. (ap ok (h s t v), v) }

  pub modify-Agrees :
      (f : S → S) (g : T → T)
      → ((s : S) (t : T) → V s t → V (f s) (g t))
      → Agrees (modify f) (modify g)
  modify-Agrees f g h = record { at = λ s t v. (refl, h s t v) }
