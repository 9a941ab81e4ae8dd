-- ===== src/Router/Reached.antt =====
-- What a request looks like that reaches an endpoint.
use iot_ephemeral_value_stor.Base.{
  ◌≡◌, refl, ap, ◌∙◌, sym, ◌≢◌, ◌⊎◌, inl, inr, true, Option, none, some, List, [], ◌∷◌, ◌++◌, Text,
  codes, All, has_prefix, Bool-cases, arith,
}
use iot_ephemeral_value_stor.Router.{
  lit, var, rest_var, Vars, Mux, routes, handled_routes, static_route, find_route, Endpoint, Route,
  Template, path_of, prefix_of, route_vars, template_vars, allows, mcp, oauth_stub, health,
  key_pair, llm_text, viewer, upload, download_json, download_plain, download_base64, download_root,
  upload_and_patch, delete, index, static_files,
}
use iot_ephemeral_value_stor.Router.Matching.{documented, match_pieces}
use iot_ephemeral_value_stor.Router.Taken.{separated}

-- Where the paths of an endpoint begin.
abbrev pub place_of : Endpoint → Text
place_of mcp = codes "/mcp"
place_of oauth_stub = codes "/.well-known/oauth-authorization-server"
place_of health = codes "/health"
place_of key_pair = codes "/kp"
place_of llm_text = codes "/llm.txt"
place_of viewer = codes "/viewer"
place_of upload = codes "/u/"
place_of download_json = codes "/d/"
place_of download_plain = codes "/d/"
place_of download_base64 = codes "/d/"
place_of download_root = codes "/d/"
place_of upload_and_patch = codes "/patch/"
place_of delete = codes "/delete/"
place_of index = codes "/"
place_of static_files = codes "/"

-- The methods of an endpoint; none stand for all.
abbrev pub methods_of : Endpoint → List Text
methods_of mcp = codes "GET" ∷ codes "POST" ∷ []
methods_of viewer = []
methods_of index = []
methods_of static_files = []
methods_of _ = codes "GET" ∷ []

abbrev first_text : Template → Text
first_text (path_of (lit t ∷ pieces)) = t
first_text (path_of _) = []
first_text (prefix_of t) = t

abbrev IsPlaced : Route → Type 0
IsPlaced r = (first_text r.template ≡ place_of r.endpoint) × (r.methods ≡ methods_of r.endpoint)

All-IsPlaced : All IsPlaced routes
All-IsPlaced = ground arith

template-has_prefix :
    (t : Template) (path : Text) (vars : Vars)
    → template_vars documented t path ≡ some vars
    → has_prefix (first_text t) path ≡ true
unfolding match_pieces has_prefix
template-has_prefix (path_of []) path vars e = refl
template-has_prefix (path_of (lit t ∷ pieces)) path vars e = ground arith
template-has_prefix (path_of (var name ∷ pieces)) path vars e = refl
template-has_prefix (path_of (rest_var name ∷ pieces)) path vars e = refl
template-has_prefix (prefix_of t) path vars e = ground arith

placed :
    (r : Route) (m path : Text) (vars : Vars)
    → IsPlaced r
    → route_vars documented r m path ≡ some vars
    → (has_prefix (place_of r.endpoint) path ≡ true) × (allows (methods_of r.endpoint) m ≡ true)
placed r m path vars p e = elim (Bool-cases (allows r.methods m)) [
  | inl a ↦ (rw (sym p.0) (template-has_prefix r.template path vars (rw a at e)), rw (sym p.1) a)
  | inr a ↦ ground arith
]

-- The first route decides, or is passed over.
find_route-cons :
    (r : Route) (rs : List Route) (m path : Text) (o : Option (Endpoint × Vars))
    → find_route documented (r ∷ rs) m path ≡ o
    → ((vars : Vars) × (route_vars documented r m path ≡ some vars) × (some (r.endpoint, vars) ≡ o))
      ⊎ (find_route documented rs m path ≡ o)
unfolding find_route
find_route-cons r rs m path o e = by_first (route_vars documented r m path) refl
  where
    by_first :
        (x : Option Vars)
        → route_vars documented r m path ≡ x
        → ((vars : Vars) × (route_vars documented r m path ≡ some vars)
            × (some (r.endpoint, vars) ≡ o))
          ⊎ (find_route documented rs m path ≡ o)
    by_first none x = inr (rw (find_route, x) at e)
    by_first (some vars) x = inl (vars, x, rw (find_route, x) at e)

found :
    (rs : List Route) (m path : Text) (endpoint : Endpoint) (vars : Vars)
    → All IsPlaced rs
    → find_route documented rs m path ≡ some (endpoint, vars)
    → (has_prefix (place_of endpoint) path ≡ true) × (allows (methods_of endpoint) m ≡ true)
unfolding find_route
found [] m path endpoint vars p e = ground arith
found (r ∷ rs) m path endpoint vars p e =
    elim (find_route-cons r rs m path (some (endpoint, vars)) e) [
      | inl (v, x, y) ↦ rw (ap endpoint_or y) at (placed r m path v p.0 x)
      | inr x ↦ found rs m path endpoint vars p.1 x
    ]
  where
    endpoint_or : Option (Endpoint × Vars) → Endpoint
    endpoint_or none = r.endpoint
    endpoint_or (some (e, v)) = e

reaches :
    (rs : List Route) (m p : Text)
    → find_route documented (rs ++ (static_route ∷ [])) m (b'/' ∷ p) ≢ none
unfolding find_route has_prefix
reaches [] m p e = ground arith
reaches (r ∷ rs) m p e = elim (find_route-cons r (rs ++ (static_route ∷ [])) m (b'/' ∷ p) none e) [
  | inl (v, x, y) ↦ ground arith
  | inr x ↦ reaches rs m p x
]

module _ (mux : Mux) where
  -- A request that reaches an endpoint has a path that begins where the endpoint stands and a method
  -- that it is registered for.
  pub find_route-place :
      (m path : Text) (endpoint : Endpoint) (vars : Vars)
      → find_route mux routes m path ≡ some (endpoint, vars)
      → (has_prefix (place_of endpoint) path ≡ true) × (allows (methods_of endpoint) m ≡ true)
  find_route-place m path endpoint vars e =
      found routes m path endpoint vars All-IsPlaced (sym (separated mux m path) ∙ e)

  -- Every path of HTTP, which begins with a slash, reaches an endpoint, whatever the method.
  pub find_route-ne-none : (m p : Text) → find_route mux routes m (b'/' ∷ p) ≢ none
  find_route-ne-none m p e = reaches handled_routes m p (sym (separated mux m (b'/' ∷ p)) ∙ e)
