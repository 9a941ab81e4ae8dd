-- ===== src/Router.antt =====
-- The routes that main.go registers with package gorilla/mux, and which of them a request takes.
-- The path is the one that mux looks at: a path that is not clean is redirected before.
pub mod Matching
pub mod Taken
pub mod Reached
pub mod Tests
use iot_ephemeral_value_stor.Base.{
  ◌≡◌, Bool, true, false, ◌||◌, ◌&&◌, Option, none, some, List, [], ◌∷◌, ◌++◌, Text, codes, text_eq,
  if◌then◌else◌, has_prefix, drop_text, ◌==◌, is_empty, ℕ, all,
}

-- A template of a path: texts, variables `{name}`, and variables `{name:.*}`.
pub data Piece : Type 0 where
  lit : Text → Piece
  var : Text → Piece
  rest_var : Text → Piece

-- The variables of a route in a request.
abbrev pub Vars : Type 0
Vars = List (Text × Text)

-- The part of a path up to its next slash, and what follows.
abbrev pub until_slash : Text → Text
until_slash [] = []
until_slash (c ∷ t) = let rest = until_slash t in if c == b'/' then [] else c ∷ rest

abbrev pub from_slash : Text → Text
from_slash [] = []
from_slash (c ∷ t) = let rest = from_slash t in if c == b'/' then c ∷ t else rest

abbrev pub is_no_break : ℕ → Bool
is_no_break c = if c == 10 then false else true

-- The template ends, or goes on with a text that begins with a slash.
abbrev pub EndsOrSlash : List Piece → Type 0
EndsOrSlash [] = Unit
EndsOrSlash (lit (c ∷ t) ∷ pieces) = c ≡ b'/'
EndsOrSlash _ = ⊥

abbrev pub with_var : Text → Text → Option Vars → Option Vars
with_var name value none = none
with_var name value (some vars) = some ((name, value) ∷ vars)

-- Matching a template, as mux documents it: `{name}` stands for anything up to the next slash that
-- is not empty, and `{name:.*}` at the end for anything that has no line break.
pub record Mux : Type 0 where
  pub matches : List Piece → Text → Option Vars
  pub matches-nil : (path : Text) → matches [] path ≡ (if is_empty path then some [] else none)
  pub matches-lit :
      (t path : Text) (pieces : List Piece)
      → matches (lit t ∷ pieces) path
        ≡ (if has_prefix t path then matches pieces (drop_text t path) else none)
  pub matches-var :
      (name path : Text) (pieces : List Piece)
      → EndsOrSlash pieces
      → matches (var name ∷ pieces) path ≡ (
          if is_empty (until_slash path)
          then none
          else with_var name (until_slash path) (matches pieces (from_slash path)))
  pub matches-rest_var :
      (name path : Text)
      → matches (rest_var name ∷ []) path
        ≡ (if all is_no_break path then some ((name, path) ∷ []) else none)

-- `HandleFunc`, or `PathPrefix`.
pub data Template : Type 0 where
  path_of : List Piece → Template
  prefix_of : Text → Template

-- The handlers of main.go.
pub data Endpoint : Type 0 where
  mcp oauth_stub health key_pair llm_text viewer upload : Endpoint
  download_json download_plain download_base64 download_root : Endpoint
  upload_and_patch delete index static_files : Endpoint

-- No methods stand for all.
pub record Route : Type 0 where
  pub template : Template
  pub methods : List Text
  pub endpoint : Endpoint

abbrev get_only : List Text
get_only = codes "GET" ∷ []

abbrev any_method : List Text
any_method = []

abbrev handle : Endpoint → List Text → List Piece → Route
handle endpoint methods pieces = record {
  template = path_of pieces;
  methods = methods;
  endpoint = endpoint;
}

abbrev pub json_route : Route
json_route =
    handle download_json get_only
      (lit (codes "/d/") ∷ var (codes "downloadKey") ∷ lit (codes "/json") ∷ [])

abbrev pub plain_route : Route
plain_route = handle download_plain get_only (
    lit (codes "/d/")
    ∷ var (codes "downloadKey")
    ∷ lit (codes "/plain/")
    ∷ rest_var (codes "param")
    ∷ [])

-- The routes in the order of registration: first the last ones that HandleFunc registers.
abbrev pub last_routes : List Route
last_routes =
    handle download_base64 get_only (
      lit (codes "/d/")
      ∷ var (codes "downloadKey")
      ∷ lit (codes "/plain-from-base64url/")
      ∷ rest_var (codes "param")
      ∷ [])
    ∷ handle download_root get_only
        (lit (codes "/d/") ∷ var (codes "downloadKey") ∷ lit (codes "/") ∷ [])
    ∷ handle download_root get_only (lit (codes "/d/") ∷ var (codes "downloadKey") ∷ [])
    ∷ handle upload_and_patch get_only (lit (codes "/patch/") ∷ var (codes "uploadKey") ∷ [])
    ∷ handle upload_and_patch get_only (
        lit (codes "/patch/")
        ∷ var (codes "uploadKey")
        ∷ lit (codes "/")
        ∷ rest_var (codes "param")
        ∷ [])
    ∷ handle delete get_only (lit (codes "/delete/") ∷ var (codes "uploadKey") ∷ [])
    ∷ handle delete get_only
        (lit (codes "/delete/") ∷ var (codes "uploadKey") ∷ lit (codes "/") ∷ [])
    ∷ handle index any_method (lit (codes "/") ∷ [])
    ∷ []

abbrev pub handled_routes : List Route
handled_routes =
    handle mcp (codes "GET" ∷ codes "POST" ∷ []) (lit (codes "/mcp") ∷ [])
    ∷ handle oauth_stub get_only (lit (codes "/.well-known/oauth-authorization-server") ∷ [])
    ∷ handle health get_only (lit (codes "/health") ∷ [])
    ∷ handle key_pair get_only (lit (codes "/kp") ∷ [])
    ∷ handle llm_text get_only (lit (codes "/llm.txt") ∷ [])
    ∷ handle viewer any_method (lit (codes "/viewer") ∷ [])
    ∷ handle upload get_only (lit (codes "/u/") ∷ var (codes "uploadKey") ∷ [])
    ∷ handle upload get_only (lit (codes "/u/") ∷ var (codes "uploadKey") ∷ lit (codes "/") ∷ [])
    ∷ json_route
    ∷ plain_route
    ∷ last_routes

abbrev pub static_route : Route
static_route = record {
  template = prefix_of (codes "/");
  methods = any_method;
  endpoint = static_files;
}

abbrev pub routes : List Route
routes = handled_routes ++ (static_route ∷ [])

abbrev pub is_among : Text → List Text → Bool
is_among t [] = false
is_among t (u ∷ us) = text_eq u t || is_among t us

abbrev pub allows : List Text → Text → Bool
allows [] http_method = true
allows (m ∷ ms) http_method = is_among http_method (m ∷ ms)

module _ (mux : Mux) where
  abbrev pub template_vars : Template → Text → Option Vars
  template_vars (path_of pieces) path = mux.matches pieces path
  template_vars (prefix_of t) path = if has_prefix t path then some [] else none

  abbrev pub route_vars : Route → Text → Text → Option Vars
  route_vars route http_method path =
      if allows route.methods http_method then template_vars route.template path else none

  -- The first route that matches wins.
  unfoldable pub find_route : List Route → Text → Text → Option (Endpoint × Vars)
  find_route [] http_method path = none
  find_route (route ∷ more) http_method path = elim (route_vars route http_method path) [
    | some vars ↦ some (route.endpoint, vars)
    | none ↦ find_route more http_method path
  ]

-- `vars["name"]`, where a missing variable reads as the empty text.
abbrev pub var_of : Text → Vars → Text
var_of name [] = []
var_of name ((k, v) ∷ vars) = let rest = var_of name vars in if text_eq k name then v else rest
