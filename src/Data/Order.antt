-- ===== src/Data/Order.antt =====
-- Patches that do not meet may come in either order, and a repeated patch changes nothing.
use iot_ephemeral_value_stor.Base.{◌≡◌, refl, sym, ap, ◌∙◌, ◌≢◌, ◌⊎◌, inl, inr, List, [], ◌∷◌, Text}
use iot_ephemeral_value_stor.Json.{Fields, end, field, obj, lookup, insert, put_all}
use iot_ephemeral_value_stor.Json.Entries.{
  lookup-insert_self, lookup-insert_ne, insert-insert_self, insert_comm,
}
use iot_ephemeral_value_stor.Json.Sorted.{IsSorted, lookup_of_Above, put_all-insert}
use iot_ephemeral_value_stor.Data.{map_or_empty, merge_data_at_path}
use iot_ephemeral_value_stor.Data.View.{merge_at, merge_data_at_path-eq, target}

-- The two paths part at some segment: neither leads to the other.
abbrev pub Diverges : List Text → List Text → Type 0
Diverges [] q = ⊥
Diverges (s ∷ p) [] = ⊥
Diverges (s ∷ p) (t ∷ q) = (s ≢ t) ⊎ ((s ≡ t) × Diverges p q)

merge_at-merge_at_comm :
    (p q : List Text) (m a b : Fields)
    → Diverges p q
    → merge_at (merge_at m p a) q b ≡ merge_at (merge_at m q b) p a
unfolding merge_at
merge_at-merge_at_comm [] q m a b d = absurd d
merge_at-merge_at_comm (s ∷ p) [] m a b d = absurd d
merge_at-merge_at_comm (s ∷ p) (t ∷ q) m a b (inl apart) =
    rw (lookup-insert_ne s t _ m apart, lookup-insert_ne t s _ m (λ e. apart (sym e)))
      (sym (insert_comm s t _ _ m apart))
merge_at-merge_at_comm (s ∷ p) (t ∷ q) m a b (inr (same, d)) =
    rw (← same, lookup-insert_self, lookup-insert_self, insert-insert_self, insert-insert_self)
      (ap (λ n. insert s (obj n) m) (merge_at-merge_at_comm p q (map_or_empty (lookup s m)) a b d))

-- Two devices that patch at paths of which neither leads to the other leave the same document,
-- whichever of them comes first.
pub merge_data_at_path_comm :
    (m a b : Fields) (p q : Text)
    → Diverges (target p) (target q)
    → merge_data_at_path (merge_data_at_path m p a) q b
      ≡ merge_data_at_path (merge_data_at_path m q b) p a
merge_data_at_path_comm m a b p q d =
    merge_data_at_path-eq (merge_data_at_path m p a) q b
    ∙ ap (λ n. merge_at n (target q) b) (merge_data_at_path-eq m p a)
    ∙ merge_at-merge_at_comm (target p) (target q) m a b d
    ∙ ap (λ n. merge_at n (target p) a) (sym (merge_data_at_path-eq m q b))
    ∙ sym (merge_data_at_path-eq (merge_data_at_path m q b) p a)

put_all_idempotent : (m a : Fields) → IsSorted a → put_all (put_all m a) a ≡ put_all m a
unfolding put_all
put_all_idempotent m end h = refl
put_all_idempotent m (field k v a) h =
    rw (← put_all-insert k v (insert k v m) a (lookup_of_Above k a h.0), insert-insert_self)
      (put_all_idempotent (insert k v m) a h.2)

merge_at_idempotent :
    (segments : List Text) (m a : Fields)
    → IsSorted a
    → merge_at (merge_at m segments a) segments a ≡ merge_at m segments a
unfolding merge_at
merge_at_idempotent [] m a h = put_all_idempotent m a h
merge_at_idempotent (s ∷ segments) m a h =
    rw (lookup-insert_self, insert-insert_self)
      (ap (λ n. insert s (obj n) m) (merge_at_idempotent segments (map_or_empty (lookup s m)) a h))

-- A patch that a device sends again changes nothing.
merge_data_at_path_idempotent :
    (m a : Fields) (path : Text)
    → IsSorted a
    → merge_data_at_path (merge_data_at_path m path a) path a ≡ merge_data_at_path m path a
merge_data_at_path_idempotent m a path h =
    merge_data_at_path-eq (merge_data_at_path m path a) path a
    ∙ ap (λ n. merge_at n (target path) a) (merge_data_at_path-eq m path a)
    ∙ merge_at_idempotent (target path) m a h
    ∙ sym (merge_data_at_path-eq m path a)
