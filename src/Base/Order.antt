-- ===== src/Base/Order.antt =====
-- The order of Go strings, byte by byte, in which encoding/json and package sort put them.
use Prim.Native.Nat.{compare, Ordering}
use mathlib.Core.Path.{◌≡◌, refl}
use mathlib.Core.Logic.{◌↔◌, ◌⊎◌, ◌≢◌, inl, inr}
use iot_ephemeral_value_stor.Base.Tests.{Bool-cases}
use mathlib.Core.Bool.{Bool, true, false}
use mathlib.Core.List.{[], ◌∷◌}
use native.Mathlib.Omega.{arith}
use iot_ephemeral_value_stor.Base.Strings.{Text}

unfoldable pub compare_text : Text → Text → Ordering
compare_text [] [] = Ordering.eq
compare_text [] (b ∷ t) = Ordering.lt
compare_text (a ∷ s) [] = Ordering.gt
compare_text (a ∷ s) (b ∷ t) = elim (compare a b) [
  | Ordering.lt ↦ Ordering.lt
  | Ordering.eq ↦ compare_text s t
  | Ordering.gt ↦ Ordering.gt
]

pub compare_text_refl : (s : Text) → compare_text s s ≡ Ordering.eq
unfolding compare_text
compare_text_refl [] = refl
compare_text_refl (a ∷ s) = ground (arith, compare_text_refl s)

pub eq_of_compare_text : (s t : Text) → compare_text s t ≡ Ordering.eq → s ≡ t
unfolding compare_text
eq_of_compare_text [] [] h = refl
eq_of_compare_text [] (b ∷ t) h = ground arith
eq_of_compare_text (a ∷ s) [] h = ground arith
eq_of_compare_text (a ∷ s) (b ∷ t) h = ground (arith, eq_of_compare_text s t)

pub compare_text_flip :
    (s t : Text) → (compare_text s t ≡ Ordering.lt) ↔ (compare_text t s ≡ Ordering.gt)
unfolding compare_text
compare_text_flip [] [] = ground arith
compare_text_flip [] (b ∷ t) = ground arith
compare_text_flip (a ∷ s) [] = ground arith
compare_text_flip (a ∷ s) (b ∷ t) = ground (arith, compare_text_flip s t)

pub compare_text_trans :
    (s t u : Text)
    → compare_text s t ≡ Ordering.lt
    → compare_text t u ≡ Ordering.lt
    → compare_text s u ≡ Ordering.lt
unfolding compare_text
compare_text_trans [] [] u h k = ground arith
compare_text_trans [] (b ∷ t) [] h k = ground arith
compare_text_trans [] (b ∷ t) (c ∷ u) h k = refl
compare_text_trans (a ∷ s) [] u h k = ground arith
compare_text_trans (a ∷ s) (b ∷ t) [] h k = ground arith
compare_text_trans (a ∷ s) (b ∷ t) (c ∷ u) h k = ground (arith, compare_text_trans s t u)

-- `==` on strings.
abbrev pub text_eq : Text → Text → Bool
text_eq s t = elim (compare_text s t) [ Ordering.eq ↦ true | _ ↦ false ]

pub text_eq_iff : (s t : Text) → (text_eq s t ≡ true) ↔ (s ≡ t)
text_eq_iff s t =
    (λ h. eq_of_compare_text s t (ground arith), λ e. ground (arith, compare_text_refl t))

pub text_eq_refl : (s : Text) → text_eq s s ≡ true
text_eq_refl s = (text_eq_iff s s).1 refl

pub text_eq_ne : (s t : Text) → s ≢ t → text_eq s t ≡ false
text_eq_ne s t h = ground (arith, eq_of_compare_text s t)

pub text_cases : (s t : Text) → (s ≡ t) ⊎ (s ≢ t)
text_cases s t = elim (Bool-cases (text_eq s t)) [
  | inl hit ↦ inl ((text_eq_iff s t).0 hit)
  | inr miss ↦ inr (λ e. ground (arith, (text_eq_iff s t).1 e))
]
