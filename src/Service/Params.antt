-- ===== src/Service/Params.antt =====
-- The map that a request's parameters become.
use iot_ephemeral_value_stor.Base.{
  ℕ, ◌≡◌, refl, ap, ◌∙◌, Bool, true, Option, none, some, [], ◌∷◌, Text, text_eq, if◌then◌else◌, All,
  arith, Result, ok, err, panic,
}
use iot_ephemeral_value_stor.Json.{Value, Fields, str, lookup, insert}
use iot_ephemeral_value_stor.Json.Entries.{lookup-insert}
use iot_ephemeral_value_stor.Json.Sorted.{IsSorted, insert-IsSorted, or_else}
use iot_ephemeral_value_stor.Codec.{ArePlain}
use iot_ephemeral_value_stor.Codec.Plain.{insert-ArePlain}
use iot_ephemeral_value_stor.Service.{Params, copy_params, M, pure, wrapped, wrapped_call, ◌>>=◌}

-- The value of a parameter.
unfoldable pub value_of : Text → Params → Option Text
value_of key [] = none
value_of key ((k, v) ∷ params) =
    or_else (value_of key params) (if text_eq k key then some v else none)

abbrev pub as_value : Option Text → Option Value
as_value none = none
as_value (some v) = some (str v)

pub lookup-copy_params :
    (key : Text) (m : Fields) (params : Params)
    → lookup key (copy_params m params) ≡ or_else (as_value (value_of key params)) (lookup key m)
unfolding copy_params value_of
lookup-copy_params key m [] = refl
lookup-copy_params key m ((k, v) ∷ params) =
    lookup-copy_params key (insert k (str v) m) params
    ∙ ground (arith, lookup-insert k key (str v) m)

pub copy_params-IsSorted :
    (m : Fields) (params : Params) → IsSorted m → IsSorted (copy_params m params)
unfolding copy_params
copy_params-IsSorted m [] h = h
copy_params-IsSorted m ((k, v) ∷ params) h =
    copy_params-IsSorted (insert k (str v) m) params (insert-IsSorted k (str v) m tt h)

-- Names and values are valid UTF-8.
abbrev pub AreValid : (Text → Bool) → Params → Type 0
AreValid valid = All (λ p. (valid p.0 ≡ true) × (valid p.1 ≡ true))

pub copy_params-ArePlain :
    (valid : Text → Bool) (n : ℕ) (m : Fields) (params : Params)
    → AreValid valid params
    → ArePlain valid n m
    → ArePlain valid n (copy_params m params)
unfolding copy_params
copy_params-ArePlain valid n m [] v h = h
copy_params-ArePlain valid n m ((k, x) ∷ params) v h =
    copy_params-ArePlain valid n (insert k (str x) m) params v.1
      (insert-ArePlain valid n k (str x) m v.0.0 v.0.1 h)

-- A call that ends by returning a value leaves the state of the call before.
pub last_state :
    {S A B : Type 0} (m : M S A) (context : Text) (b : B) (s : S)
    → ((wrapped_call context m >>= λ _. pure (ok b)) s).1 ≡ (m s).1
last_state {S = S} {A = A} {B = B} m context b s = of_result (m s).0
  where
    of_result :
        (r : Result A)
        → (elim (wrapped context r) as (λ _. Result B × S) [
          | ok a ↦ (ok b, (m s).1)
          | err e ↦ (err e, (m s).1)
          | panic ↦ (panic, (m s).1)
        ]).1
          ≡ (m s).1
    of_result (ok a) = refl
    of_result (err e) = refl
    of_result panic = refl

-- A read that succeeds hands its value on and leaves the state.
pub then_read :
    {S A B : Type 0} (read : S → Result A) (context : Text) (f : A → M S B) (s : S) (a : A)
    → read s ≡ ok a
    → ((λ s'. (wrapped context (read s'), s')) >>= f) s ≡ f a s
then_read {S = S} {A = A} {B = B} read context f s a e =
    ap (λ r. ((pure {S = S} (wrapped context r)) >>= f) s) e

-- A call that ends by returning a value returns it, if the call before succeeds.
pub last_ok :
    {S A B : Type 0} (m : M S A) (context : Text) (b : B) (s s' : S) (a : A)
    → m s ≡ (ok a, s')
    → (wrapped_call context m >>= λ _. pure (ok b)) s ≡ (ok b, s')
last_ok {S = S} {A = A} {B = B} m context b s s' a e =
    ap (λ r. (wrapped_call context (λ (_ : S). r) >>= λ _. pure (ok b)) s) e
