-- ===== src/Data/Merge.antt =====
-- What a merge writes, and what it leaves alone.
use iot_ephemeral_value_stor.Base.{
  ◌≡◌, refl, ap, ◌∙◌, ◌≢◌, ◌⊎◌, inl, inr, Option, none, some, List, [], ◌∷◌, ◌++◌, Text,
}
use iot_ephemeral_value_stor.Json.{Value, Fields, obj, lookup}
use iot_ephemeral_value_stor.Json.Entries.{lookup-insert_self, lookup-insert_ne}
use iot_ephemeral_value_stor.Json.Sorted.{
  IsSorted, IsWellFormed, insert-IsSorted, put_all-IsSorted, lookup-IsWellFormed, lookup-put_all,
  or_else,
}
use iot_ephemeral_value_stor.Data.{map_or_empty, merge_data_at_path}
use iot_ephemeral_value_stor.Data.View.{
  get, get_in, get-obj, get-map_or_empty, merge_at, merge_data_at_path-eq, target,
}

-- Where a merge writes nothing: off the path, or behind it at a key that is not given.
abbrev pub Apart : List Text → Fields → List Text → Type 0
Apart [] new_data [] = ⊥
Apart [] new_data (key ∷ keys) = lookup key new_data ≡ none
Apart (s ∷ segments) new_data [] = ⊥
Apart (s ∷ segments) new_data (key ∷ keys) = (s ≢ key) ⊎ ((s ≡ key) × Apart segments new_data keys)

-- Keys apart from a merge are not empty, so they read a missing map as the empty one.
get-below :
    (segments keys : List Text) (new_data : Fields) (o : Option Value)
    → Apart segments new_data keys
    → get keys (obj (map_or_empty o)) ≡ get_in keys o
get-below segments (key ∷ keys) new_data o a = get-map_or_empty key keys o
get-below [] [] new_data o a = absurd a
get-below (s ∷ segments) [] new_data o a = absurd a

get-merge_at-Apart :
    (segments keys : List Text) (m new_data : Fields)
    → IsSorted new_data
    → Apart segments new_data keys
    → get keys (obj (merge_at m segments new_data)) ≡ get keys (obj m)
unfolding merge_at
get-merge_at-Apart [] (key ∷ keys) m new_data s a =
    rw (get-obj, get-obj, lookup-put_all key m new_data s, a)
get-merge_at-Apart (s ∷ segments) (key ∷ keys) m new_data sorted (inl apart) =
    rw (get-obj, get-obj, lookup-insert_ne s key _ m apart)
get-merge_at-Apart (s ∷ segments) (key ∷ keys) m new_data sorted (inr (same, a)) =
    rw (← same, get-obj, get-obj, lookup-insert_self)
      (get-merge_at-Apart segments keys (map_or_empty (lookup s m)) new_data sorted a
        ∙ get-below segments keys new_data (lookup s m) a)
get-merge_at-Apart [] [] m new_data s a = absurd a
get-merge_at-Apart (s ∷ segments) [] m new_data sorted a = absurd a

-- A patch leaves every value as it was, present or missing, that stands off its path or, behind
-- its path, at a key that it does not give.
pub merge_data_at_path-frame :
    (m new_data : Fields) (path : Text) (keys : List Text)
    → IsSorted new_data
    → Apart (target path) new_data keys
    → get keys (obj (merge_data_at_path m path new_data)) ≡ get keys (obj m)
merge_data_at_path-frame m new_data path keys s a =
    rw merge_data_at_path-eq (get-merge_at-Apart (target path) keys m new_data s a)

get_in-or_else : (o p : Option Value) → get_in [] (or_else o p) ≡ or_else o (get_in [] p)
unfolding get
get_in-or_else none p = refl
get_in-or_else (some v) p = refl

get-below_snoc :
    (segments : List Text) (key : Text) (o : Option Value)
    → get (segments ++ key ∷ []) (obj (map_or_empty o)) ≡ get_in (segments ++ key ∷ []) o
get-below_snoc [] key o = get-map_or_empty key [] o
get-below_snoc (x ∷ segments) key o = get-map_or_empty x (segments ++ key ∷ []) o

get-merge_at_written :
    (segments : List Text) (key : Text) (m new_data : Fields)
    → IsSorted new_data
    → get (segments ++ key ∷ []) (obj (merge_at m segments new_data))
      ≡ or_else (lookup key new_data) (get (segments ++ key ∷ []) (obj m))
unfolding merge_at
get-merge_at_written [] key m new_data s =
    rw (get-obj, get-obj, lookup-put_all key m new_data s) (get_in-or_else _ _)
get-merge_at_written (x ∷ segments) key m new_data s =
    rw (get-obj, get-obj, lookup-insert_self)
      (get-merge_at_written segments key (map_or_empty (lookup x m)) new_data s
        ∙ ap (or_else (lookup key new_data)) (get-below_snoc segments key (lookup x m)))

-- Behind its path, a patch shows its own entries, and at any other key the value that was there.
pub merge_data_at_path-written :
    (m new_data : Fields) (path key : Text)
    → IsSorted new_data
    → get (target path ++ key ∷ []) (obj (merge_data_at_path m path new_data))
      ≡ or_else (lookup key new_data) (get (target path ++ key ∷ []) (obj m))
merge_data_at_path-written m new_data path key s =
    rw merge_data_at_path-eq (get-merge_at_written (target path) key m new_data s)

map_or_empty-IsSorted :
    (key : Text) (m : Fields) → IsSorted m → IsSorted (map_or_empty (lookup key m))
map_or_empty-IsSorted key m s = of_found (lookup key m) (λ v. lookup-IsWellFormed key m v s)
  where
    of_found :
        (o : Option Value) → ((v : Value) → o ≡ some v → IsWellFormed v) → IsSorted (map_or_empty o)
    of_found (some (obj n)) h = h (obj n) refl
    of_found none h = tt
    of_found (some _) h = tt

merge_at-IsSorted :
    (segments : List Text) (m new_data : Fields)
    → IsSorted m
    → IsSorted new_data
    → IsSorted (merge_at m segments new_data)
unfolding merge_at
merge_at-IsSorted [] m new_data h k = put_all-IsSorted m new_data h k
merge_at-IsSorted (s ∷ segments) m new_data h k =
    insert-IsSorted s _ m
      (merge_at-IsSorted segments (map_or_empty (lookup s m)) new_data (map_or_empty-IsSorted s m h)
        k)
      h

-- A patch keeps documents well-formed: at every depth no key stands twice.
pub merge_data_at_path-IsSorted :
    (m new_data : Fields) (path : Text)
    → IsSorted m
    → IsSorted new_data
    → IsSorted (merge_data_at_path m path new_data)
merge_data_at_path-IsSorted m new_data path h k =
    rw merge_data_at_path-eq (merge_at-IsSorted (target path) m new_data h k)
