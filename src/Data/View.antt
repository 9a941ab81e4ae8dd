-- ===== src/Data/View.antt =====
-- A document as what stands at each sequence of keys, and merging as one recursion.
use iot_ephemeral_value_stor.Base.{
  is_empty, ◌≡◌, refl, ◌↔◌, Option, none, some, List, [], ◌∷◌, Text, split, split_parts, ok,
  if◌then◌else◌, arith, Option-cases, inl, inr,
}
use iot_ephemeral_value_stor.Json.{Value, Fields, obj, lookup, insert, put_all}
use iot_ephemeral_value_stor.Data.{map_or_empty, merge_segments, merge_data_at_path, traverse_keys}

-- What stands at the keys.
unfoldable pub get : List Text → Value → Option Value
get [] v = some v
get (key ∷ keys) (obj m) = elim (lookup key m) [ none ↦ none | some v ↦ get keys v ]
get (key ∷ keys) _ = none

abbrev pub get_in : List Text → Option Value → Option Value
get_in keys none = none
get_in keys (some v) = get keys v

pub get-obj :
    (key : Text) (keys : List Text) (m : Fields)
    → get (key ∷ keys) (obj m) ≡ get_in keys (lookup key m)
unfolding get
get-obj key keys m = ground arith

-- Below a key, what is no map and what is missing read as the empty map does.
pub get-map_or_empty :
    (key : Text) (keys : List Text) (o : Option Value)
    → get (key ∷ keys) (obj (map_or_empty o)) ≡ get_in (key ∷ keys) o
unfolding get lookup
get-map_or_empty key keys none = refl
get-map_or_empty key keys (some (obj m)) = refl
get-map_or_empty key keys (some _) = refl

-- The walk finds what stands at the keys, and fails exactly where nothing does.
pub traverse_keys_iff :
    (path : Text) (v w : Value) (keys : List Text)
    → (traverse_keys path v keys ≡ ok w) ↔ (get keys v ≡ some w)
unfolding traverse_keys get
traverse_keys_iff path v w [] = ground arith
traverse_keys_iff path (obj m) w (key ∷ keys) = elim (Option-cases (lookup key m)) [
  | inl e ↦ rw (e, traverse_keys, get) (ground arith)
  | inr (u, e) ↦ rw (e, traverse_keys, get) (traverse_keys_iff path u w keys)
]
traverse_keys_iff path _ w (key ∷ keys) = ground arith

-- The segments at which the path lets the code write: none for the empty path.
abbrev pub target : Text → List Text
target path = if is_empty path then [] else split b'/' path

-- Merging at a sequence of keys, where the empty one is the root.
unfoldable pub merge_at : Fields → List Text → Fields → Fields
merge_at m [] new_data = put_all m new_data
merge_at m (key ∷ keys) new_data =
    insert key (obj (merge_at (map_or_empty (lookup key m)) keys new_data)) m

merge_segments-eq :
    (m : Fields) (key : Text) (keys : List Text) (new_data : Fields)
    → merge_segments m (key ∷ keys) new_data ≡ merge_at m (key ∷ keys) new_data
unfolding merge_segments merge_at
merge_segments-eq m key [] new_data = refl
merge_segments-eq m key (next ∷ rest) new_data =
    rw (merge_segments-eq (map_or_empty (lookup key m)) next rest new_data)

pub merge_data_at_path-eq :
    (m : Fields) (path : Text) (new_data : Fields)
    → merge_data_at_path m path new_data ≡ merge_at m (target path) new_data
unfolding merge_data_at_path merge_at
merge_data_at_path-eq m [] new_data = refl
merge_data_at_path-eq m (c ∷ path) new_data =
    let (key, keys, e) = split_parts b'/' (c ∷ path) in rw e (merge_segments-eq m key keys new_data)
