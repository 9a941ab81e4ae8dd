-- ===== src/Service/Ensures.antt =====
-- What a call of the service ensures: an invariant of the state is kept, whatever the call returns;
-- a value that it returns has a property; and it does not panic.
use iot_ephemeral_value_stor.Base.{Text, Result, ok, err, panic}
use iot_ephemeral_value_stor.Service.{M, pure, wrapped, wrapped_call, ◌>>=◌}

abbrev pub Returns : {A : Type 0} → (A → Type 0) → Result A → Type 0
Returns Q (ok a) = Q a
Returns Q (err e) = Unit
Returns Q panic = ⊥

module _ {S : Type 0} (P : S → Type 1) where
  abbrev pub Ensures : {A : Type 0} → M S A → (A → Type 0) → Type 1
  Ensures m Q = (s : S) → P s → P (m s).1 × Returns Q (m s).0

  pub Ensures-pure : {A : Type 0} (Q : A → Type 0) (r : Result A) → Returns Q r → Ensures (pure r) Q
  Ensures-pure Q r h s p = (p, h)

  continued :
      {A B : Type 0} (Q : A → Type 0) (R : B → Type 0) (f : A → M S B) (r : Result A) (s : S)
      → ((a : A) → Q a → Ensures (f a) R)
      → P s
      → Returns Q r
      → P ((pure r >>= f) s).1 × Returns R ((pure r >>= f) s).0
  continued Q R f (ok a) s h p q = h a q s p
  continued Q R f (err e) s h p q = (p, tt)
  continued Q R f panic s h p q = absurd q

  pub Ensures-bind :
      {A B : Type 0} (Q : A → Type 0) (R : B → Type 0) (m : M S A) (f : A → M S B)
      → Ensures m Q
      → ((a : A) → Q a → Ensures (f a) R)
      → Ensures (m >>= f) R
  Ensures-bind Q R m f hm hf s p = continued Q R f (m s).0 (m s).1 hf (hm s p).0 (hm s p).1

  pub Returns-wrapped :
      {A : Type 0} (Q : A → Type 0) (context : Text) (r : Result A)
      → Returns Q r
      → Returns Q (wrapped context r)
  Returns-wrapped Q context (ok a) h = h
  Returns-wrapped Q context (err e) h = tt
  Returns-wrapped Q context panic h = absurd h

  pub Ensures-wrapped_call :
      {A : Type 0} (Q : A → Type 0) (context : Text) (m : M S A)
      → Ensures m Q
      → Ensures (wrapped_call context m) Q
  Ensures-wrapped_call Q context m h s p = ((h s p).0, Returns-wrapped Q context (m s).0 (h s p).1)

  -- The end of a call that writes.
  pub Ensures-last :
      {A B : Type 0} (context : Text) (m : M S A) (b : B)
      → Ensures m (λ _. Unit)
      → Ensures (wrapped_call context m >>= λ _. pure (ok b)) (λ _. Unit)
  Ensures-last context m b h =
      Ensures-bind (λ _. Unit) (λ _. Unit) (wrapped_call context m) (λ _. pure (ok b))
        (Ensures-wrapped_call (λ _. Unit) context m h) (λ _ _. Ensures-pure (λ _. Unit) (ok b) tt)
