-- ===== src/Router/Taken.antt =====
-- Which routes the requests of the REST interface take.
use iot_ephemeral_value_stor.Base.{
  ◌≡◌, refl, ◌∙◌, true, false, none, some, List, [], ◌∷◌, ◌++◌, Text, codes, All, all, has_prefix,
  drop_text, is_empty, LacksByte, arith, compare_text,
}
use iot_ephemeral_value_stor.Router.{
  Vars, Mux, until_slash, from_slash, is_no_break, routes, find_route, upload, download_plain,
  Route, route_vars, json_route, plain_route, last_routes, static_route,
}
use iot_ephemeral_value_stor.Router.Matching.{
  documented, match_pieces, find_route-eq, IsSeparatedTemplate,
}

-- A key that a route's variable takes whole.
abbrev pub IsKey : Text → Type 0
IsKey key = (is_empty key ≡ false) × LacksByte b'/' key

until_slash_lacking :
    (key rest : Text) → LacksByte b'/' key → until_slash (key ++ b'/' ∷ rest) ≡ key
until_slash_lacking [] rest h = refl
until_slash_lacking (c ∷ key) rest h = ground (arith, until_slash_lacking key rest h.1)

from_slash_lacking :
    (key rest : Text) → LacksByte b'/' key → from_slash (key ++ b'/' ∷ rest) ≡ b'/' ∷ rest
from_slash_lacking [] rest h = refl
from_slash_lacking (c ∷ key) rest h = ground (arith, from_slash_lacking key rest h.1)

until_slash_whole : (key : Text) → LacksByte b'/' key → until_slash key ≡ key
until_slash_whole [] h = refl
until_slash_whole (c ∷ key) h = ground (arith, until_slash_whole key h.1)

from_slash_whole : (key : Text) → LacksByte b'/' key → from_slash key ≡ []
from_slash_whole [] h = refl
from_slash_whole (c ∷ key) h = ground (arith, from_slash_whole key h.1)

All-separated : All (λ r. IsSeparatedTemplate r.template) routes
All-separated = ground arith

find_route-skip :
    (r : Route) (more : List Route) (m path : Text)
    → route_vars documented r m path ≡ none
    → find_route documented (r ∷ more) m path ≡ find_route documented more m path
unfolding find_route
find_route-skip r more m path e = rw (find_route, e) refl

find_route-take :
    (r : Route) (more : List Route) (m path : Text) (vars : Vars)
    → route_vars documented r m path ≡ some vars
    → find_route documented (r ∷ more) m path ≡ some (r.endpoint, vars)
unfolding find_route
find_route-take r more m path vars e = rw (find_route, e) refl

-- A path behind "/d/", cut at its next slash.
plain_parts :
    (p key param : Text)
    → until_slash p ≡ key
    → from_slash p ≡ codes "/plain/" ++ param
    → is_empty key ≡ false
    → all is_no_break param ≡ true
    → find_route documented routes (codes "GET") (codes "/d/" ++ p)
      ≡ some (download_plain, (codes "downloadKey", key) ∷ (codes "param", param) ∷ [])
unfolding find_route match_pieces has_prefix drop_text compare_text
plain_parts p key param e f h b =
    find_route-skip json_route (plain_route ∷ behind) (codes "GET") (codes "/d/" ++ p)
      (rw (e, f, h) refl)
    ∙ find_route-take plain_route behind (codes "GET") (codes "/d/" ++ p)
        ((codes "downloadKey", key) ∷ (codes "param", param) ∷ []) (rw (e, f, h) (rw b refl))
  where
    behind : List Route
    behind = last_routes ++ (static_route ∷ [])

module _ (mux : Mux) where
  pub separated :
      (http_method path : Text)
      → find_route mux routes http_method path ≡ find_route documented routes http_method path
  separated http_method path = find_route-eq mux routes http_method path All-separated

  pub find_route-upload :
      (key : Text)
      → IsKey key
      → find_route mux routes (codes "GET") (codes "/u/" ++ key)
        ≡ some (upload, (codes "uploadKey", key) ∷ [])
  unfolding find_route match_pieces has_prefix drop_text compare_text
  find_route-upload key h =
      separated (codes "GET") (codes "/u/" ++ key)
      ∙ rw (until_slash_whole key h.1, from_slash_whole key h.1, h.0) refl

  pub find_route-plain :
      (key param : Text)
      → IsKey key
      → all is_no_break param ≡ true
      → find_route mux routes (codes "GET") (codes "/d/" ++ (key ++ (codes "/plain/" ++ param)))
        ≡ some (download_plain, (codes "downloadKey", key) ∷ (codes "param", param) ∷ [])
  find_route-plain key param h b =
      separated (codes "GET") (codes "/d/" ++ (key ++ (codes "/plain/" ++ param)))
      ∙ plain_parts (key ++ (codes "/plain/" ++ param)) key param
          (until_slash_lacking key (codes "plain/" ++ param) h.1)
          (from_slash_lacking key (codes "plain/" ++ param) h.1) h.0 b
