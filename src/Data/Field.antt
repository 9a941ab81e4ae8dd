-- ===== src/Data/Field.antt =====
-- Reading a field by its path.
use iot_ephemeral_value_stor.Base.{
  is_empty, ◌≡◌, refl, ap, ◌∙◌, ◌≢◌, inl, inr, none, some, List, [], ◌∷◌, ◌++◌, Text, split,
  split_lacking, split-append_sep, LacksByte, arith, if◌then◌else◌, Result, ok, err,
  parameter_not_found, invalid_parameter_path, Option-cases,
}
use iot_ephemeral_value_stor.Json.{Value, Fields, obj, lookup}
use iot_ephemeral_value_stor.Json.Sorted.{IsSorted, or_else}
use iot_ephemeral_value_stor.Data.{merge_data_at_path, traverse_keys, traverse_field}
use iot_ephemeral_value_stor.Data.View.{get, traverse_keys_iff, target}
use iot_ephemeral_value_stor.Data.Merge.{merge_data_at_path-written}

-- The field path by which a reader asks for a key that was patched at a path.
abbrev pub field_path : Text → Text → Text
field_path path key = if is_empty path then key else path ++ b'/' ∷ key

pub split-field_path :
    (path key : Text)
    → LacksByte b'/' key
    → split b'/' (field_path path key) ≡ target path ++ key ∷ []
split-field_path [] key h = split_lacking b'/' key h
split-field_path (c ∷ path) key h =
    split-append_sep b'/' (c ∷ path) key
    ∙ ap (λ r. split b'/' (c ∷ path) ++ r) (split_lacking b'/' key h)

-- A field that a patch wrote is read back under the patch's path and the field's name, if the
-- name has no slash.
pub traverse_field-merge_data_at_path :
    (m new_data : Fields) (path key : Text) (v : Value)
    → IsSorted new_data
    → LacksByte b'/' key
    → lookup key new_data ≡ some v
    → traverse_field (merge_data_at_path m path new_data) (field_path path key) ≡ ok v
unfolding traverse_field
traverse_field-merge_data_at_path m new_data path key v s h e = rw (split-field_path path key h) (
    (traverse_keys_iff (field_path path key) _ v _).1 (
      merge_data_at_path-written m new_data path key s
      ∙ ap (λ o. or_else o (get (target path ++ key ∷ []) (obj m))) e))

-- The walk stops at a map that has no such key.
abbrev pub StopsAtMap : List Text → Value → Type 0
StopsAtMap keys v =
    (before : List Text) × (key : Text) × (after : List Text) × (m : Fields) × (keys
      ≡ before ++ key ∷ after)
    × (get before v ≡ some (obj m))
    × (lookup key m ≡ none)

-- The walk stops, with keys to go, at a value that is no map.
abbrev pub StopsAtLeaf : List Text → Value → Type 0
StopsAtLeaf keys v =
    (before : List Text) × (key : Text) × (after : List Text) × (w : Value) × (keys
      ≡ before ++ key ∷ after)
    × (get before v ≡ some w)
    × ((m : Fields) → w ≢ obj m)

-- The three ways in which a walk ends.
pub data Walk (path : Text) (keys : List Text) (v : Value) : Result Value → Type 0 where
  found : (w : Value) → get keys v ≡ some w → Walk path keys v (ok w)
  missing : StopsAtMap keys v → Walk path keys v (err (parameter_not_found path))
  blocked : StopsAtLeaf keys v → Walk path keys v (err (invalid_parameter_path path))

Walk-cons :
    {path : Text} {keys : List Text} {u : Value} {r : Result Value} (key : Text) (m : Fields)
    → lookup key m ≡ some u
    → Walk path keys u r
    → Walk path (key ∷ keys) (obj m) r
unfolding get
Walk-cons key m e (found w g) = found w (rw (e, get) g)
Walk-cons key m e (missing (before, k, after, n, parts, reached, lacks)) =
    missing (key ∷ before, k, after, n, ap (λ r. key ∷ r) parts, rw (e, get) reached, lacks)
Walk-cons key m e (blocked (before, k, after, w, parts, reached, leaf)) =
    blocked (key ∷ before, k, after, w, ap (λ r. key ∷ r) parts, rw (e, get) reached, leaf)

traverse_keys-Walk :
    (path : Text) (keys : List Text) (v : Value) → Walk path keys v (traverse_keys path v keys)
unfolding traverse_keys get
traverse_keys-Walk path [] v = found v refl
traverse_keys-Walk path (key ∷ keys) (obj m) = elim (Option-cases (lookup key m)) [
  | inl e ↦ rw (e, traverse_keys) (missing ([], key, keys, m, refl, refl, e))
  | inr (u, e) ↦ rw (e, traverse_keys) (Walk-cons key m e (traverse_keys-Walk path keys u))
]
traverse_keys-Walk path (key ∷ keys) v = blocked ([], key, keys, v, refl, refl, λ m. ground arith)

-- Reading a field ends in one of three ways and never panics: with the value that stands at the
-- path; with "not found" where a map on the way lacks the next key; with "invalid path" where a
-- key is left over at a value that is no map.
pub traverse_field-Walk :
    (m : Fields) (field_path : Text)
    → Walk field_path (split b'/' field_path) (obj m) (traverse_field m field_path)
unfolding traverse_field
traverse_field-Walk m field_path = traverse_keys-Walk field_path (split b'/' field_path) (obj m)
