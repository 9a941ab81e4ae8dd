-- ===== src/Json/Sorted.antt =====
-- Well-formed values: the keys of every map rise strictly, so no key stands twice.
use Prim.Native.Nat.{Ordering}
use iot_ephemeral_value_stor.Base.{
  ◌≡◌, refl, ◌≢◌, Option, none, some, Text, text_eq, compare_text, compare_text_refl,
  eq_of_compare_text, compare_text_flip, compare_text_trans, arith, inl, inr, Bool-cases,
}
use iot_ephemeral_value_stor.Json.{
  Value, Items, Fields, null, bool, number, str, arr, obj, nil, cons, end, field, lookup, insert,
  put_all,
}
use iot_ephemeral_value_stor.Json.Entries.{lookup-insert, insert_comm}

-- The key stands before every key of the map.
abbrev pub Above : Text → Fields → Type 0
Above key end = Unit
Above key (field k v m) = (compare_text key k ≡ Ordering.lt) × Above key m

abbrev mutual
  pub IsWellFormed : Value → Type 0
  IsWellFormed null = Unit
  IsWellFormed (bool b) = Unit
  IsWellFormed (number t) = Unit
  IsWellFormed (str t) = Unit
  IsWellFormed (arr xs) = AreWellFormed xs
  IsWellFormed (obj m) = IsSorted m

  pub AreWellFormed : Items → Type 0
  AreWellFormed nil = Unit
  AreWellFormed (cons v xs) = IsWellFormed v × AreWellFormed xs

  pub IsSorted : Fields → Type 0
  IsSorted end = Unit
  IsSorted (field k v m) = Above k m × IsWellFormed v × IsSorted m

pub Above-mono :
    (key other : Text) (m : Fields)
    → compare_text key other ≡ Ordering.lt
    → Above other m
    → Above key m
Above-mono key other end h a = tt
Above-mono key other (field k v m) h a =
    (compare_text_trans key other k h a.0, Above-mono key other m h a.1)

pub lookup_of_Above : (key : Text) (m : Fields) → Above key m → lookup key m ≡ none
unfolding lookup
lookup_of_Above key end a = refl
lookup_of_Above key (field k v m) a =
    ground (arith, compare_text_flip key k, lookup_of_Above key m a.1)

Above-insert :
    (key other : Text) (v : Value) (m : Fields)
    → compare_text key other ≡ Ordering.lt
    → Above key m
    → Above key (insert other v m)
unfolding insert
Above-insert key other v end h a = (h, tt)
Above-insert key other v (field k w m) h a = ground (arith, Above-insert key other v m h a.1)

pub insert-IsSorted :
    (key : Text) (v : Value) (m : Fields) → IsWellFormed v → IsSorted m → IsSorted (insert key v m)
unfolding insert
insert-IsSorted key v end h s = (tt, h, tt)
insert-IsSorted key v (field k w m) h s = ground (
  arith,
  insert-IsSorted key v m h s.2,
  Above-insert k key v m,
  compare_text_flip k key,
  compare_text_flip key k,
  Above-mono key k m,
  eq_of_compare_text key k,
)

pub lookup-IsWellFormed :
    (key : Text) (m : Fields) (v : Value) → IsSorted m → lookup key m ≡ some v → IsWellFormed v
unfolding lookup
lookup-IsWellFormed key end v s e = absurd (ground arith)
lookup-IsWellFormed key (field k w m) v s e = elim (Bool-cases (text_eq k key)) [
  | inl hit ↦ let same : w ≡ v = ground arith in rw same at (s.1)
  | inr miss ↦ lookup-IsWellFormed key m v s.2 (ground arith)
]

pub put_all-IsSorted : (m other : Fields) → IsSorted m → IsSorted other → IsSorted (put_all m other)
unfolding put_all
put_all-IsSorted m end h k = h
put_all-IsSorted m (field key v other) h k =
    put_all-IsSorted (insert key v m) other (insert-IsSorted key v m k.1 h) k.2

abbrev pub or_else {ℓ} : {A : Type ℓ} → Option A → Option A → Option A
or_else none o = o
or_else (some a) o = some a

-- Merging by keys: the second map's entries win, the others stay.
pub lookup-put_all :
    (key : Text) (m other : Fields)
    → IsSorted other
    → lookup key (put_all m other) ≡ or_else (lookup key other) (lookup key m)
unfolding lookup put_all
lookup-put_all key m end h = refl
lookup-put_all key m (field k v other) h = ground (
  arith,
  lookup-put_all key (insert k v m) other h.2,
  lookup-insert k key v m,
  lookup_of_Above k other h.0,
  eq_of_compare_text k key,
)

-- An entry written first is the same as written last, unless the other map has the key.
pub put_all-insert :
    (key : Text) (v : Value) (m other : Fields)
    → lookup key other ≡ none
    → put_all (insert key v m) other ≡ insert key v (put_all m other)
unfolding lookup put_all
put_all-insert key v m end h = refl
put_all-insert key v m (field k w other) h =
    let apart : k ≢ key = λ e. ground (arith, compare_text_refl key) in
    rw (insert_comm k key w v m apart) (put_all-insert key v (insert k w m) other (ground arith))
