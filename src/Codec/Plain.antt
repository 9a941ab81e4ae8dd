-- ===== src/Codec/Plain.antt =====
-- Maps of strings and maps stay such under the operations of the program.
use iot_ephemeral_value_stor.Base.{
  ℕ, zero, suc, ◌+◌, ◌≤◌, ◌≡◌, Bool, true, some, List, [], ◌∷◌, Text, All, ◌⊎◌, arith, text_eq, inl,
  inr, Bool-cases, length,
}
use iot_ephemeral_value_stor.Json.{
  Value, Fields, null, bool, number, str, arr, obj, end, field, lookup, insert, put_all,
}
use iot_ephemeral_value_stor.Data.{map_or_empty, merge_data_at_path}
use iot_ephemeral_value_stor.Data.View.{merge_at, merge_data_at_path-eq, target}
use iot_ephemeral_value_stor.Codec.{Codec, IsPlain, ArePlain, max_nested}

-- Whether so many maps inside one another suffice is decided.
mutual
  IsPlain-cases :
      (valid : Text → Bool) (n k : ℕ) (v : Value)
      → IsPlain valid n v
      → IsPlain valid k v ⊎ (IsPlain valid k v → ⊥)
  IsPlain-cases valid n k (str t) p = inl p
  IsPlain-cases valid n k null p = absurd p
  IsPlain-cases valid n k (bool b) p = absurd p
  IsPlain-cases valid n k (number t) p = absurd p
  IsPlain-cases valid n k (arr xs) p = absurd p
  IsPlain-cases valid zero k (obj m) p = absurd p
  IsPlain-cases valid (suc n) zero (obj m) p = inr (λ h. h)
  IsPlain-cases valid (suc n) (suc k) (obj m) p = ArePlain-cases valid n k m p

  pub ArePlain-cases :
      (valid : Text → Bool) (n k : ℕ) (m : Fields)
      → ArePlain valid n m
      → ArePlain valid k m ⊎ (ArePlain valid k m → ⊥)
  ArePlain-cases valid n k end h = inl tt
  ArePlain-cases valid n k (field j v m) h = elim (IsPlain-cases valid n k v h.1) [
    | inl p ↦ elim (ArePlain-cases valid n k m h.2) [
      | inl ps ↦ inl (h.0, p, ps)
      | inr deep ↦ inr (λ g. deep g.2)
    ]
    | inr deep ↦ inr (λ g. deep g.1)
  ]

-- A path of valid UTF-8 at which a patch does not nest maps too deeply to be decoded.
abbrev pub IsPatchPath : Codec → Text → Type 0
IsPatchPath codec path = (codec.valid_text path ≡ true) × (length (target path) ≤ max_nested)

module _ (valid : Text → Bool) where
  pub insert-ArePlain :
      (n : ℕ) (key : Text) (v : Value) (m : Fields)
      → valid key ≡ true
      → IsPlain valid n v
      → ArePlain valid n m
      → ArePlain valid n (insert key v m)
  unfolding insert
  insert-ArePlain n key v end k p h = (k, p, tt)
  insert-ArePlain n key v (field j w m) k p h = ground (arith, insert-ArePlain n key v m k p h.2)

  pub put_all-ArePlain :
      (n : ℕ) (m other : Fields)
      → ArePlain valid n m
      → ArePlain valid n other
      → ArePlain valid n (put_all m other)
  unfolding put_all
  put_all-ArePlain n m end h k = h
  put_all-ArePlain n m (field key v other) h k =
      put_all-ArePlain n (insert key v m) other (insert-ArePlain n key v m k.0 k.1 h) k.2

  lookup-ArePlain :
      (n : ℕ) (key : Text) (m : Fields)
      → ArePlain valid (suc n) m
      → ArePlain valid n (map_or_empty (lookup key m))
  unfolding lookup
  lookup-ArePlain n key end h = tt
  lookup-ArePlain n key (field k v m) h = elim (Bool-cases (text_eq k key)) [
    | inl hit ↦ rw hit (of_value v h.1)
    | inr miss ↦ rw miss (lookup-ArePlain n key m h.2)
  ]
    where
      of_value : (v : Value) → IsPlain valid (suc n) v → ArePlain valid n (map_or_empty (some v))
      of_value (obj m) p = p
      of_value _ p = tt

  -- More maps inside one another may be allowed.
  mutual
    raise-IsPlain : (n k : ℕ) (v : Value) → n ≤ k → IsPlain valid n v → IsPlain valid k v
    raise-IsPlain n k (str t) l p = p
    raise-IsPlain n k null l p = absurd p
    raise-IsPlain n k (bool b) l p = absurd p
    raise-IsPlain n k (number t) l p = absurd p
    raise-IsPlain n k (arr xs) l p = absurd p
    raise-IsPlain zero k (obj m) l p = absurd p
    raise-IsPlain (suc n) zero (obj m) l p = absurd (omega arith)
    raise-IsPlain (suc n) (suc k) (obj m) l p = raise n k m (omega arith) p

    raise : (n k : ℕ) (m : Fields) → n ≤ k → ArePlain valid n m → ArePlain valid k m
    raise n k end l h = tt
    raise n k (field j v m) l h = (h.0, raise-IsPlain n k v l h.1, raise n k m l h.2)

  -- Data of strings goes as deep as the path, and needs no maps of its own.
  merge_at-ArePlain :
      (n : ℕ) (segments : List Text) (m new_data : Fields)
      → All (λ t. valid t ≡ true) segments
      → length segments ≤ n
      → ArePlain valid n m
      → ArePlain valid zero new_data
      → ArePlain valid n (merge_at m segments new_data)
  unfolding merge_at
  merge_at-ArePlain n [] m new_data v d h k =
      put_all-ArePlain n m new_data h (raise zero n new_data (omega arith) k)
  merge_at-ArePlain zero (s ∷ segments) m new_data v d h k = absurd (omega arith)
  merge_at-ArePlain (suc n) (s ∷ segments) m new_data v d h k =
      insert-ArePlain (suc n) s _ m v.0
        (merge_at-ArePlain n segments (map_or_empty (lookup s m)) new_data v.1 (omega arith)
          (lookup-ArePlain n s m h) k)
        h

valid_target :
    (codec : Codec) (path : Text)
    → codec.valid_text path ≡ true
    → All (λ t. codec.valid_text t ≡ true) (target path)
valid_target codec [] v = tt
valid_target codec (c ∷ path) v = codec.valid_text-split (c ∷ path) v

-- A patch at a valid path of parameters, which are strings, keeps a document of strings and maps one.
pub merge_data_at_path-ArePlain :
    (codec : Codec) (m new_data : Fields) (path : Text)
    → IsPatchPath codec path
    → ArePlain codec.valid_text max_nested m
    → ArePlain codec.valid_text zero new_data
    → ArePlain codec.valid_text max_nested (merge_data_at_path m path new_data)
merge_data_at_path-ArePlain codec m new_data path v h k = rw merge_data_at_path-eq (
    merge_at-ArePlain codec.valid_text max_nested (target path) m new_data
      (valid_target codec path v.0) v.1 h k)

-- At any valid path it keeps a map of strings and maps one, but may nest it deeper.
pub merge_data_at_path-nested :
    (codec : Codec) (n : ℕ) (m new_data : Fields) (path : Text)
    → codec.valid_text path ≡ true
    → ArePlain codec.valid_text n m
    → ArePlain codec.valid_text zero new_data
    → ArePlain codec.valid_text (n + length (target path)) (merge_data_at_path m path new_data)
merge_data_at_path-nested codec n m new_data path v h k = rw merge_data_at_path-eq (
    merge_at-ArePlain codec.valid_text (n + length (target path)) (target path) m new_data
      (valid_target codec path v) (omega arith)
      (raise codec.valid_text n (n + length (target path)) m (omega arith) h) k)
