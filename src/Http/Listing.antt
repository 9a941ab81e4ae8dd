-- ===== src/Http/Listing.antt =====
-- The paths that the page of a download key lists, against TraverseField.
use iot_ephemeral_value_stor.Base.{
  ◌≡◌, refl, ◌∙◌, ◌≢◌, false, Option, none, some, List, [], ◌∷◌, ◌++◌, Text, All, All-append, arith,
  is_empty, LacksByte, split, compare_text_refl, eq_of_compare_text, inl, inr, Bool-cases, ok,
}
use iot_ephemeral_value_stor.Json.{Value, Fields, obj, end, field, lookup}
use iot_ephemeral_value_stor.Json.Sorted.{IsSorted, Above, lookup_of_Above}
use iot_ephemeral_value_stor.Data.{traverse_field}
use iot_ephemeral_value_stor.Data.View.{get, get_in, get-obj, target, traverse_keys_iff}
use iot_ephemeral_value_stor.Data.Field.{split-field_path}
use iot_ephemeral_value_stor.Http.{collect_all_paths, current_path, sort_texts, insert_text, before}

-- A key that stands for itself in a path.
abbrev pub IsName : Text → Type 0
IsName key = (is_empty key ≡ false) × LacksByte b'/' key

-- At every depth.
abbrev pub AreNames : Fields → Type 0
AreNames end = Unit
AreNames (field key (obj nested) m) = IsName key × AreNames nested × AreNames m
AreNames (field key _ m) = IsName key × AreNames m

-- What stands at the path, seen from under a prefix, is no map.
abbrev LeadsToLeaf : Fields → List Text → Text → Type 0
LeadsToLeaf m before path =
    (key : Text) × (keys : List Text) × (v : Value) × (split b'/' path ≡ before ++ key ∷ keys)
    × (get (key ∷ keys) (obj m) ≡ some v)
    × ((n : Fields) → v ≢ obj n)

target-current_path :
    (prefix key : Text) → IsName key → target (current_path prefix key) ≡ target prefix ++ key ∷ []
target-current_path prefix key h = rw (not_empty prefix h.0) (split-field_path prefix key h.1)
  where
    not_empty : (prefix : Text) → is_empty key ≡ false → is_empty (current_path prefix key) ≡ false
    not_empty [] h = h
    not_empty (c ∷ prefix) h = refl

lookup-here : (key : Text) (v : Value) (m : Fields) → lookup key (field key v m) ≡ some v
unfolding lookup
lookup-here key v m = ground (arith, compare_text_refl key)

-- What the later entries of a well-formed map hold, the map holds.
lookup-later :
    (key other : Text) (u v : Value) (m : Fields)
    → Above key m
    → lookup other m ≡ some v
    → lookup other (field key u m) ≡ some v
unfolding lookup
lookup-later key other u v m a h =
    ground (arith, lookup_of_Above key m a, eq_of_compare_text key other)

get_in-some :
    (keys : List Text) (o : Option Value) (v : Value)
    → get_in keys o ≡ some v
    → (u : Value) × (o ≡ some u) × (get keys u ≡ some v)
get_in-some keys none v h = absurd (ground arith)
get_in-some keys (some u) v h = (u, refl, h)

leaf_later :
    (key : Text) (u : Value) (m : Fields) (before : List Text) (path : Text)
    → Above key m
    → LeadsToLeaf m before path
    → LeadsToLeaf (field key u m) before path
leaf_later key u m before path a (k, keys, v, e, there, leaf) =
    let (w, found, below) = get_in-some keys (lookup k m) v (rw get-obj at there) in
    (k, keys, v, e, rw (get-obj, lookup-later key k u w m a found) below, leaf)

leaf_below :
    (key : Text) (n m : Fields) (before : List Text) (path : Text)
    → LeadsToLeaf n (before ++ key ∷ []) path
    → LeadsToLeaf (field key (obj n) m) before path
leaf_below key n m before path (k, keys, v, e, there, leaf) =
    (key, k ∷ keys, v, e ∙ snoc before, rw (get-obj, lookup-here key (obj n) m) there, leaf)
  where
    snoc : (xs : List Text) → (xs ++ key ∷ []) ++ k ∷ keys ≡ xs ++ key ∷ k ∷ keys
    snoc [] = refl
    snoc (x ∷ xs) = rw (snoc xs) refl

leaf_here :
    (key : Text) (v : Value) (m : Fields) (prefix : Text)
    → IsName key
    → ((n : Fields) → v ≢ obj n)
    → LeadsToLeaf (field key v m) (target prefix) (current_path prefix key)
unfolding get
leaf_here key v m prefix name leaf =
    (key, [], v, split-field_path prefix key name.1, rw (get-obj, lookup-here key v m) refl, leaf)

All-mono : {P Q : Text → Type 0} (xs : List Text) → ((x : Text) → P x → Q x) → All P xs → All Q xs
All-mono [] f h = tt
All-mono (x ∷ xs) f h = (f x h.0, All-mono xs f h.1)

collect_all_paths-Leaf :
    (m : Fields) (prefix : Text)
    → IsSorted m
    → AreNames m
    → All (LeadsToLeaf m (target prefix)) (collect_all_paths m prefix)
unfolding collect_all_paths
collect_all_paths-Leaf end prefix s names = tt
collect_all_paths-Leaf (field key (obj n) m) prefix s names =
    let below : All (LeadsToLeaf n (target prefix ++ key ∷ []))
        (collect_all_paths n (current_path prefix key)) =
      rw (target-current_path prefix key names.0) at
        (collect_all_paths-Leaf n (current_path prefix key) s.1 names.1) in
    All-append (LeadsToLeaf (field key (obj n) m) (target prefix)) _ _
      (All-mono _ (leaf_below key n m (target prefix)) below)
      (All-mono _ (λ path. leaf_later key (obj n) m (target prefix) path s.0)
        (collect_all_paths-Leaf m prefix s.2 names.2))
collect_all_paths-Leaf (field key v m) prefix s names = (
  leaf_here key v m prefix names.0 (λ n e. ground arith),
  All-mono _ (λ path. leaf_later key v m (target prefix) path s.0)
      (collect_all_paths-Leaf m prefix s.2 names.1),
)

All-sort_texts : (P : Text → Type 0) (ts : List Text) → All P ts → All P (sort_texts ts)
unfolding sort_texts insert_text
All-sort_texts P [] h = tt
All-sort_texts P (t ∷ ts) h = inserted t (sort_texts ts) h.0 (All-sort_texts P ts h.1)
  where
    inserted : (t : Text) (us : List Text) → P t → All P us → All P (insert_text t us)
    inserted t [] p h = (p, tt)
    inserted t (u ∷ us) p h = elim (Bool-cases (before t u)) [
      | inl e ↦ rw e (p, h)
      | inr e ↦ rw e (h.0, inserted t us p h.1)
    ]

-- Every path that the page of a well-formed document lists leads TraverseField to a value that is
-- no map, if no key at any depth is empty or has a slash.
pub collect_all_paths-resolve :
    (m : Fields)
    → IsSorted m
    → AreNames m
    → All
        (λ path. (v : Value) × (traverse_field m path ≡ ok v) × ((n : Fields) → v ≢ obj n))
        (sort_texts (collect_all_paths m []))
unfolding traverse_field
collect_all_paths-resolve m s names = All-sort_texts _ _ (
    All-mono _
      (λ path (key, keys, v, e, there, leaf).
        (v, rw e ((traverse_keys_iff path (obj m) v (key ∷ keys)).1 there), leaf))
      (collect_all_paths-Leaf m [] s names))
