-- ===== src/Json.antt =====
-- The values that encoding/json decodes into `interface{}`, and Go maps with string keys.
-- A map is an association list in the order of its keys: then two maps with the same entries are
-- equal, and a `range` loop runs in that order, which is one of those that Go may choose.
pub mod Entries
pub mod Sorted
use Prim.Native.Nat.{Ordering}
use iot_ephemeral_value_stor.Base.{
  Bool, Option, none, some, Text, text_eq, compare_text, if◌then◌else◌,
}

-- `map[string]interface{}` is `Fields`, and `[]interface{}` is `Items`. No code looks into a
-- number, which stays the text that it is printed as.
mutual
  pub data Value : Type 0 where
    null : Value
    bool : Bool → Value
    number : Text → Value
    str : Text → Value
    arr : Items → Value
    obj : Fields → Value

  pub data Items : Type 0 where
    nil : Items
    cons : Value → Items → Items

  pub data Fields : Type 0 where
    end : Fields
    field : Text → Value → Fields → Fields

-- `v, ok := m[key]`
unfoldable pub lookup : Text → Fields → Option Value
lookup key end = none
lookup key (field k v m) = if text_eq k key then some v else lookup key m

-- `m[key] = v`
unfoldable pub insert : Text → Value → Fields → Fields
insert key v end = field key v end
insert key v (field k w m) = elim (compare_text key k) [
  | Ordering.lt ↦ field key v (field k w m)
  | Ordering.eq ↦ field key v m
  | Ordering.gt ↦ field k w (insert key v m)
]

-- `for k, v := range other { m[k] = v }`
unfoldable pub put_all : Fields → Fields → Fields
put_all m end = m
put_all m (field k v other) = put_all (insert k v m) other
