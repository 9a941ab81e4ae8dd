-- ===== src/Json/Entries.antt =====
-- Laws of lookup and insertion. None of them needs the order of the keys.
use iot_ephemeral_value_stor.Base.{
  ◌≡◌, refl, ◌≢◌, some, Text, text_eq, compare_text_refl, eq_of_compare_text, compare_text_flip,
  compare_text_trans, if◌then◌else◌, arith,
}
use iot_ephemeral_value_stor.Json.{Value, Fields, end, field, lookup, insert}

pub lookup-insert :
    (key other : Text) (v : Value) (m : Fields)
    → lookup other (insert key v m) ≡ (if text_eq key other then some v else lookup other m)
unfolding lookup insert
lookup-insert key other v end = refl
lookup-insert key other v (field k w m) = ground (
  arith,
  lookup-insert key other v m,
  eq_of_compare_text key k,
  eq_of_compare_text k other,
  eq_of_compare_text key other,
  compare_text_refl key,
  compare_text_refl other,
)

pub lookup-insert_self :
    (key : Text) (v : Value) (m : Fields) → lookup key (insert key v m) ≡ some v
lookup-insert_self key v m = ground (arith, lookup-insert key key v m, compare_text_refl key)

pub lookup-insert_ne :
    (key other : Text) (v : Value) (m : Fields)
    → key ≢ other
    → lookup other (insert key v m) ≡ lookup other m
lookup-insert_ne key other v m h =
    ground (arith, lookup-insert key other v m, eq_of_compare_text key other)

-- The last write to a key counts.
pub insert-insert_self :
    (key : Text) (v w : Value) (m : Fields) → insert key v (insert key w m) ≡ insert key v m
unfolding insert
insert-insert_self key v w end = ground (arith, compare_text_refl key)
insert-insert_self key v w (field k x m) =
    ground (arith, compare_text_refl key, insert-insert_self key v w m)

-- Writes to two keys may change places.
pub insert_comm :
    (key other : Text) (v w : Value) (m : Fields)
    → key ≢ other
    → insert key v (insert other w m) ≡ insert other w (insert key v m)
unfolding insert
insert_comm key other v w end h =
    ground (
      arith,
      eq_of_compare_text key other,
      compare_text_flip key other,
      compare_text_flip other key,
    )
insert_comm key other v w (field k x m) h = ground (
  arith,
  insert_comm key other v w m h,
  eq_of_compare_text key other,
  compare_text_flip key other,
  compare_text_flip other key,
  eq_of_compare_text key k,
  eq_of_compare_text other k,
  compare_text_flip key k,
  compare_text_flip other k,
  compare_text_flip k key,
  compare_text_flip k other,
  compare_text_trans key k other,
  compare_text_trans other k key,
)
