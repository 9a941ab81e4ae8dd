-- ===== src/Data.antt =====
-- data/merge.go and data/traverse.go: writing into a nested document at a path, and reading one.
pub mod View
pub mod Merge
pub mod Order
pub mod Slash
pub mod Field
pub mod Tests
use iot_ephemeral_value_stor.Base.{
  ◌≡◌, Bool, Option, none, some, List, [], ◌∷◌, Text, split, Result, ok, err, if◌then◌else◌,
  is_empty, parameter_not_found, invalid_parameter_path,
}
use iot_ephemeral_value_stor.Json.{
  Value, Items, Fields, null, bool, number, str, arr, obj, end, field, lookup, insert, put_all,
}

-- The map of a comma-ok assertion, or the empty map that the code makes where it fails.
abbrev pub map_or_empty : Option Value → Fields
map_or_empty (some (obj m)) = m
map_or_empty _ = end

-- The loop over the segments of the path. Where the map for a segment is there, the code writes
-- into it in place: the model puts the written map back under the same key.
unfoldable pub merge_segments : Fields → List Text → Fields → Fields
merge_segments current [] new_data = current
merge_segments current (segment ∷ []) new_data =
    insert segment (obj (put_all (map_or_empty (lookup segment current)) new_data)) current
merge_segments current (segment ∷ next ∷ rest) new_data =
    insert segment
      (obj (merge_segments (map_or_empty (lookup segment current)) (next ∷ rest) new_data)) current

unfoldable pub merge_data_at_path : Fields → Text → Fields → Fields
unfolding merge_segments split
merge_data_at_path existing_data path new_data =
    if is_empty path
    then put_all existing_data new_data
    else merge_segments existing_data (split b'/' path) new_data

-- The loop over the keys; the path stands in its errors.
unfoldable pub traverse_keys : Text → Value → List Text → Result Value
traverse_keys path v [] = ok v
traverse_keys path (obj m) (key ∷ keys) = elim (lookup key m) [
  | none ↦ err (parameter_not_found path)
  | some v ↦ traverse_keys path v keys
]
traverse_keys path _ (key ∷ keys) = err (invalid_parameter_path path)

unfoldable pub traverse_field : Fields → Text → Result Value
unfolding traverse_keys split
traverse_field m field_path = traverse_keys field_path (obj m) (split b'/' field_path)
