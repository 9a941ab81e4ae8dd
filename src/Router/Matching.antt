-- ===== src/Router/Matching.antt =====
-- Matching by what mux documents, where the variables of a template are separated.
use iot_ephemeral_value_stor.Base.{
  ◌≡◌, refl, ap, ◌∙◌, Option, none, some, List, [], ◌∷◌, Text, All, if◌then◌else◌, has_prefix,
  drop_text, is_empty, all,
}
use iot_ephemeral_value_stor.Router.{
  Piece, lit, var, rest_var, Vars, Mux, until_slash, from_slash, with_var, EndsOrSlash, is_no_break,
  Template, path_of, prefix_of, Route, Endpoint, route_vars, template_vars, allows, find_route,
}

unfoldable pub match_pieces : List Piece → Text → Option Vars
unfolding has_prefix drop_text
match_pieces [] path = if is_empty path then some [] else none
match_pieces (lit t ∷ pieces) path =
    if has_prefix t path then match_pieces pieces (drop_text t path) else none
match_pieces (var name ∷ pieces) path =
    if is_empty (until_slash path)
    then none
    else with_var name (until_slash path) (match_pieces pieces (from_slash path))
match_pieces (rest_var name ∷ pieces) path =
    if all is_no_break path then some ((name, path) ∷ []) else none

-- A variable ends the template or stands before a slash, and `.*` stands at the end.
abbrev pub IsSeparated : List Piece → Type 0
IsSeparated [] = Unit
IsSeparated (lit t ∷ pieces) = IsSeparated pieces
IsSeparated (var name ∷ pieces) = EndsOrSlash pieces × IsSeparated pieces
IsSeparated (rest_var name ∷ pieces) = pieces ≡ []

abbrev pub IsSeparatedTemplate : Template → Type 0
IsSeparatedTemplate (path_of pieces) = IsSeparated pieces
IsSeparatedTemplate (prefix_of t) = Unit

matches-eq :
    (mux : Mux) (pieces : List Piece) (path : Text)
    → IsSeparated pieces
    → mux.matches pieces path ≡ match_pieces pieces path
unfolding match_pieces
matches-eq mux [] path s = mux.matches-nil path
matches-eq mux (lit t ∷ pieces) path s =
    mux.matches-lit t path pieces
    ∙ ap (λ o. if has_prefix t path then o else none) (matches-eq mux pieces (drop_text t path) s)
matches-eq mux (var name ∷ pieces) path s =
    mux.matches-var name path pieces s.0
    ∙ ap (λ o. if is_empty (until_slash path) then none else with_var name (until_slash path) o)
        (matches-eq mux pieces (from_slash path) s.1)
matches-eq mux (rest_var name ∷ pieces) path s = rw s (mux.matches-rest_var name path)

pub nil_law : (path : Text) → match_pieces [] path ≡ (if is_empty path then some [] else none)
unfolding match_pieces
nil_law path = refl

pub lit_law :
    (t path : Text) (pieces : List Piece)
    → match_pieces (lit t ∷ pieces) path
      ≡ (if has_prefix t path then match_pieces pieces (drop_text t path) else none)
unfolding match_pieces
lit_law t path pieces = refl

pub var_law :
    (name path : Text) (pieces : List Piece)
    → match_pieces (var name ∷ pieces) path ≡ (
        if is_empty (until_slash path)
        then none
        else with_var name (until_slash path) (match_pieces pieces (from_slash path)))
unfolding match_pieces
var_law name path pieces = refl

pub rest_law :
    (name path : Text)
    → match_pieces (rest_var name ∷ []) path
      ≡ (if all is_no_break path then some ((name, path) ∷ []) else none)
unfolding match_pieces
rest_law name path = refl

-- A mux that does what is documented, and nothing else.
abbrev pub documented : Mux
documented = record {
  matches = match_pieces;
  matches-nil = λ path. nil_law path;
  matches-lit = λ t path pieces. lit_law t path pieces;
  matches-var = λ name path pieces e. var_law name path pieces;
  matches-rest_var = λ name path. rest_law name path;
}

route_vars-eq :
    (mux : Mux) (r : Route) (http_method path : Text)
    → IsSeparatedTemplate r.template
    → route_vars mux r http_method path ≡ route_vars documented r http_method path
route_vars-eq mux r http_method path s =
    ap (λ o. if allows r.methods http_method then o else none) (of_template r.template s)
  where
    of_template :
        (t : Template)
        → IsSeparatedTemplate t
        → template_vars mux t path ≡ template_vars documented t path
    of_template (path_of pieces) s = matches-eq mux pieces path s
    of_template (prefix_of t) s = refl

pub find_route-eq :
    (mux : Mux) (routes : List Route) (http_method path : Text)
    → All (λ r. IsSeparatedTemplate r.template) routes
    → find_route mux routes http_method path ≡ find_route documented routes http_method path
unfolding find_route
find_route-eq mux [] http_method path s = refl
find_route-eq mux (r ∷ routes) http_method path s =
    ap (or_else_route (find_route mux routes http_method path))
      (route_vars-eq mux r http_method path s.0)
    ∙ ap (λ rest. or_else_route rest (route_vars documented r http_method path))
        (find_route-eq mux routes http_method path s.1)
  where
    or_else_route : Option (Endpoint × Vars) → Option Vars → Option (Endpoint × Vars)
    or_else_route rest o = elim o [ some vars ↦ some (r.endpoint, vars) | none ↦ rest ]
