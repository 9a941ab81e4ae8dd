-- ===== src/Router/Tests.antt =====
-- Paths and their routes.
use iot_ephemeral_value_stor.Base.{
  ◌≡◌, refl, some, [], ◌∷◌, codes, has_prefix, drop_text, compare_text,
}
use iot_ephemeral_value_stor.Router.{
  routes, find_route, upload, upload_and_patch, download_plain, download_json, static_files, index,
}
use iot_ephemeral_value_stor.Router.Matching.{documented, match_pieces}

-- A route takes a whole path, and what none takes goes to the file server.
routes_run :
    (find_route documented routes (codes "GET") (codes "/u/k/")
      ≡ some (upload, (codes "uploadKey", codes "k") ∷ []))
    × (find_route documented routes (codes "GET") (codes "/u/k/x") ≡ some (static_files, []))
    × (find_route documented routes (codes "POST") (codes "/u/k") ≡ some (static_files, []))
    × (find_route documented routes (codes "GET") (codes "/d/k/json")
        ≡ some (download_json, (codes "downloadKey", codes "k") ∷ []))
    × (find_route documented routes (codes "GET") (codes "/d/k/plain/a/b")
        ≡ some
            (download_plain, (codes "downloadKey", codes "k") ∷ (codes "param", codes "a/b") ∷ []))
    × (find_route documented routes (codes "GET") (codes "/d/k/plain") ≡ some (static_files, []))
    × (find_route documented routes (codes "GET") (codes "/patch/k/a/b")
        ≡ some
            (upload_and_patch, (codes "uploadKey", codes "k") ∷ (codes "param", codes "a/b") ∷ []))
    × (find_route documented routes (codes "PUT") (codes "/") ≡ some (index, []))
unfolding find_route match_pieces has_prefix drop_text compare_text
routes_run = (refl, refl, refl, refl, refl, refl, refl, refl)
