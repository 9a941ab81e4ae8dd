-- ===== src/Http/Complete.antt =====
-- The page of a download key lists all there is.
use iot_ephemeral_value_stor.Base.{
  ℕ, ap, sym, subst, ◌∙◌, ◌≡◌, refl, ◌≢◌, ◌⊎◌, inl, inr, some, List, [], ◌∷◌, ◌++◌, Text, arith,
  text_eq, eq_of_compare_text, Bool-cases,
}
use iot_ephemeral_value_stor.Json.{Value, Fields, obj, end, field, lookup}
use iot_ephemeral_value_stor.Data.View.{get, get-obj}
use iot_ephemeral_value_stor.Http.{collect_all_paths, current_path, sort_texts, insert_text, before}

abbrev pub IsListed : Text → List Text → Type 0
IsListed path [] = ⊥
IsListed path (t ∷ ts) = (path ≡ t) ⊎ IsListed path ts

-- Keys with a slash between each two. Empty keys before the first that is not are left out.
abbrev pub with_slashes : List Text → Text
with_slashes [] = []
with_slashes (key ∷ keys) = b'/' ∷ (key ++ with_slashes keys)

abbrev pub path_of : List Text → Text
path_of [] = []
path_of ([] ∷ keys) = path_of keys
path_of ((c ∷ key) ∷ keys) = c ∷ (key ++ with_slashes keys)

-- The path that the walk has at a sequence of keys behind a prefix.
abbrev walked : Text → List Text → Text
walked prefix [] = prefix
walked prefix (key ∷ keys) = walked (current_path prefix key) keys

append_assoc : (t u v : Text) → (t ++ u) ++ v ≡ t ++ (u ++ v)
append_assoc [] u v = refl
append_assoc (c ∷ t) u v = ap (λ x. c ∷ x) (append_assoc t u v)

append_nil : (t : Text) → t ++ [] ≡ t
append_nil [] = refl
append_nil (c ∷ t) = ap (λ x. c ∷ x) (append_nil t)

walked-prefix :
    (c : ℕ) (prefix : Text) (keys : List Text)
    → walked (c ∷ prefix) keys ≡ c ∷ (prefix ++ with_slashes keys)
walked-prefix c prefix [] = sym (append_nil (c ∷ prefix))
walked-prefix c prefix (key ∷ keys) =
    walked-prefix c (prefix ++ b'/' ∷ key) keys
    ∙ append_assoc (c ∷ prefix) (b'/' ∷ key) (with_slashes keys)

walked-path_of : (keys : List Text) → walked [] keys ≡ path_of keys
walked-path_of [] = refl
walked-path_of ([] ∷ keys) = walked-path_of keys
walked-path_of ((c ∷ key) ∷ keys) = walked-prefix c key keys

IsListed-append_left :
    (path : Text) (xs ys : List Text) → IsListed path xs → IsListed path (xs ++ ys)
IsListed-append_left path (x ∷ xs) ys (inl e) = inl e
IsListed-append_left path (x ∷ xs) ys (inr h) = inr (IsListed-append_left path xs ys h)
IsListed-append_left path [] ys h = absurd h

IsListed-append_right :
    (path : Text) (xs ys : List Text) → IsListed path ys → IsListed path (xs ++ ys)
IsListed-append_right path [] ys h = h
IsListed-append_right path (x ∷ xs) ys h = inr (IsListed-append_right path xs ys h)

IsListed-insert_text :
    (path t : Text) (us : List Text) → IsListed path (t ∷ us) → IsListed path (insert_text t us)
unfolding insert_text
IsListed-insert_text path t [] h = h
IsListed-insert_text path t (u ∷ us) h = elim (Bool-cases (before t u)) [
  | inl e ↦ rw e h
  | inr e ↦ rw e (swapped h (λ g. IsListed-insert_text path t us g))
]
  where
    swapped :
        (path ≡ t) ⊎ ((path ≡ u) ⊎ IsListed path us)
        → ((path ≡ t) ⊎ IsListed path us → IsListed path (insert_text t us))
        → (path ≡ u) ⊎ IsListed path (insert_text t us)
    swapped (inl a) rest = inr (rest (inl a))
    swapped (inr (inl b)) rest = inl b
    swapped (inr (inr c)) rest = inr (rest (inr c))

IsListed-sort_texts :
    (path : Text) (ts : List Text) → IsListed path ts → IsListed path (sort_texts ts)
unfolding sort_texts
IsListed-sort_texts path [] h = h
IsListed-sort_texts path (t ∷ ts) (inl e) = IsListed-insert_text path t (sort_texts ts) (inl e)
IsListed-sort_texts path (t ∷ ts) (inr h) =
    IsListed-insert_text path t (sort_texts ts) (inr (IsListed-sort_texts path ts h))

-- A first entry's own paths.
mutual
  unfolding collect_all_paths get lookup

  IsListed-first :
      (key : Text) (u : Value) (m : Fields) (prefix : Text) (keys : List Text) (v : Value)
      → get keys u ≡ some v
      → ((n : Fields) → v ≢ obj n)
      → IsListed (walked (current_path prefix key) keys) (collect_all_paths (field key u m) prefix)
  IsListed-first key (obj n) m prefix [] v h leaf = absurd (leaf n (ground arith))
  IsListed-first key (obj n) m prefix (k ∷ keys) v h leaf =
      IsListed-append_left _ _ _
        (collect_all_paths-IsListed n (current_path prefix key) k keys v h leaf)
  IsListed-first key u m prefix [] v h leaf = inl refl
  IsListed-first key u m prefix (k ∷ keys) v h leaf = absurd (ground arith)

  IsListed-later :
      (key : Text) (u : Value) (m : Fields) (prefix path : Text)
      → IsListed path (collect_all_paths m prefix)
      → IsListed path (collect_all_paths (field key u m) prefix)
  IsListed-later key (obj n) m prefix path h = IsListed-append_right path _ _ h
  IsListed-later key u m prefix path h = inr h

  collect_all_paths-IsListed :
      (m : Fields) (prefix k : Text) (keys : List Text) (v : Value)
      → get (k ∷ keys) (obj m) ≡ some v
      → ((n : Fields) → v ≢ obj n)
      → IsListed (walked prefix (k ∷ keys)) (collect_all_paths m prefix)
  collect_all_paths-IsListed end prefix k keys v h leaf = absurd (ground arith)
  collect_all_paths-IsListed (field key u m) prefix k keys v h leaf =
      elim (Bool-cases (text_eq key k)) [
        | inl hit ↦
            let same : key ≡ k = ground (arith, eq_of_compare_text key k) in
            rw (← same) (IsListed-first key u m prefix keys v (rw (get-obj, hit) at h) leaf)
        | inr miss ↦
            IsListed-later key u m prefix _
              (collect_all_paths-IsListed m prefix k keys v (rw (get-obj, miss) at h) leaf)
      ]

-- Every value of a document that is no map, at whatever keys it stands, is listed on its page under
-- the path of these keys: the keys with a slash between each two, where empty keys at the beginning
-- are left out.
pub collect_all_paths_complete :
    (m : Fields) (key : Text) (keys : List Text) (v : Value)
    → get (key ∷ keys) (obj m) ≡ some v
    → ((n : Fields) → v ≢ obj n)
    → IsListed (path_of (key ∷ keys)) (sort_texts (collect_all_paths m []))
collect_all_paths_complete m key keys v h leaf =
    subst (λ path. IsListed path (sort_texts (collect_all_paths m [])))
      (walked-path_of (key ∷ keys))
      (IsListed-sort_texts _ _ (collect_all_paths-IsListed m [] key keys v h leaf))
