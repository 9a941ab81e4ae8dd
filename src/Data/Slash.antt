-- ===== src/Data/Slash.antt =====
-- A patch whose path ends in a slash, as in "/patch/<key>/living_room/?temp=22".
use mathlib.Core.List.{append_assoc}
use iot_ephemeral_value_stor.Base.{
  ◌≡◌, ◌≢◌, refl, sym, subst, ◌∙◌, inl, inr, some, List, [], ◌∷◌, ◌++◌, Text, split,
  split-append_sep, LacksByte, ◌↔◌, ok,
}
use iot_ephemeral_value_stor.Json.{Value, Fields, obj, lookup}
use iot_ephemeral_value_stor.Json.Sorted.{IsSorted}
use iot_ephemeral_value_stor.Data.{merge_data_at_path, traverse_field}
use iot_ephemeral_value_stor.Data.View.{get, traverse_keys_iff}
use iot_ephemeral_value_stor.Data.Merge.{Apart, merge_data_at_path-frame}
use iot_ephemeral_value_stor.Data.Field.{split-field_path, traverse_field-merge_data_at_path}

Apart-last :
    (segments : List Text) (name : Text) (new_data : Fields)
    → name ≢ []
    → Apart (segments ++ [] ∷ []) new_data (segments ++ name ∷ [])
Apart-last [] name new_data h = inl (λ e. h (sym e))
Apart-last (s ∷ segments) name new_data h = inr (refl, Apart-last segments name new_data h)

-- A patch of well-formed data at a path that ends in a slash, and is not the slash alone, stores its
-- values under an empty key: a value whose name is not empty and has no slash is read back behind
-- two slashes, and a reader of the name behind the path itself reads a value exactly if it stood
-- there before.
pub merge_data_at_path-slash :
    (m new_data : Fields) (path name : Text) (v w : Value)
    → IsSorted new_data
    → path ≢ []
    → name ≢ []
    → LacksByte b'/' name
    → lookup name new_data ≡ some v
    → (traverse_field
          (merge_data_at_path m (path ++ b'/' ∷ []) new_data)
          (path ++ b'/' ∷ b'/' ∷ name)
        ≡ ok v)
      × ((traverse_field (merge_data_at_path m (path ++ b'/' ∷ []) new_data) (path ++ b'/' ∷ name)
            ≡ ok w)
          ↔ (traverse_field m (path ++ b'/' ∷ name) ≡ ok w))
unfolding traverse_field
merge_data_at_path-slash m new_data [] name v w sorted some_path some_name h e =
    absurd (some_path refl)
merge_data_at_path-slash m new_data (c ∷ path) name v w sorted some_path some_name h e =
    let slashed : Text = (c ∷ path) ++ b'/' ∷ [] in
    let keys : List Text = split b'/' (c ∷ path) ++ name ∷ [] in
    let frame : get keys (obj (merge_data_at_path m slashed new_data)) ≡ get keys (obj m) =
      merge_data_at_path-frame m new_data slashed keys sorted (
        subst (λ segments. Apart segments new_data keys) (sym (split-append_sep b'/' (c ∷ path) []))
          (Apart-last (split b'/' (c ∷ path)) name new_data some_name)) in
    let at_path = split-field_path (c ∷ path) name h in
    (
      subst (λ p. traverse_field (merge_data_at_path m slashed new_data) p ≡ ok v)
          (append_assoc (c ∷ path) (b'/' ∷ []) (b'/' ∷ name))
          (traverse_field-merge_data_at_path m new_data slashed name v sorted h e),
      rw at_path (
        λ read. (traverse_keys_iff _ (obj m) w keys).1 (
            sym frame
            ∙ (traverse_keys_iff _ (obj (merge_data_at_path m slashed new_data)) w keys).0 read),
        λ read.
            (traverse_keys_iff _ (obj (merge_data_at_path m slashed new_data)) w keys).1
              (frame ∙ (traverse_keys_iff _ (obj m) w keys).0 read),
      ),
    )
