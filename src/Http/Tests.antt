-- ===== src/Http/Tests.antt =====
-- Runs of the parameters' way into a document.
use iot_ephemeral_value_stor.Base.{◌≡◌, refl, ◌≢◌, All, ok, [], ◌∷◌, codes, arith, compare_text}
use iot_ephemeral_value_stor.Json.{Fields, Value, lookup, str, end, field, obj}
use iot_ephemeral_value_stor.Service.{Params}
use iot_ephemeral_value_stor.Http.{sanitize_input, collect_params, collect_all_paths, sort_texts}
use iot_ephemeral_value_stor.Data.{traverse_field}
use iot_ephemeral_value_stor.Data.View.{get}
use iot_ephemeral_value_stor.Http.Listing.{collect_all_paths-resolve}
use iot_ephemeral_value_stor.Http.Complete.{IsListed, path_of, collect_all_paths_complete}

abbrev readings : Params
readings = (codes "temp", codes "21") ∷ []

collect_runs :
    collect_params ((codes "a", codes "<b>" ∷ codes "c" ∷ []) ∷ (codes "d", []) ∷ [])
    ≡ (codes "a", codes "&lt;b&gt;") ∷ []
unfolding collect_params sanitize_input
collect_runs = refl

path_runs :
    sort_texts (
      collect_all_paths
        (field (codes "z") (str []) (
          field
            (codes "a")
            (obj (field (codes "b") (str []) (field (codes "c") (obj end) end)))
            end))
        [])
    ≡ codes "a/b" ∷ codes "z" ∷ []
unfolding collect_all_paths sort_texts compare_text
path_runs = refl

abbrev nested : Fields
nested = field (codes "a") (obj (field (codes "b") (str []) end)) (field (codes "z") (str []) end)

collect_all_paths-resolve_example :
    All
      (λ path. (v : Value) × (traverse_field nested path ≡ ok v) × ((n : Fields) → v ≢ obj n))
      (sort_texts (collect_all_paths nested []))
unfolding compare_text
collect_all_paths-resolve_example =
    collect_all_paths-resolve nested ((refl, tt), (tt, tt, tt), (tt, tt, tt))
      ((refl, omega arith), ((refl, omega arith), tt), ((refl, omega arith), tt))

collect_all_paths_complete_example :
    IsListed (path_of (codes "a" ∷ codes "b" ∷ [])) (sort_texts (collect_all_paths nested []))
unfolding get lookup compare_text
collect_all_paths_complete_example =
    collect_all_paths_complete nested (codes "a") (codes "b" ∷ []) (str []) refl
      (λ n e. ground arith)
