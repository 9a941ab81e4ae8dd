-- ===== src/Middleware.antt =====
-- middleware: what every request passes before its handler. The mutex around the table of limiters
-- makes the lookup of one request one step.
pub mod Passage
pub mod Verdicts
pub mod Tests
use iot_ephemeral_value_stor.Base.{
  ℕ, ◌≡◌, Bool, true, false, ◌||◌, Option, none, some, List, [], ◌∷◌, Text, codes, ◌==◌, ltb,
  if◌then◌else◌, is_empty, text_eq,
}
use iot_ephemeral_value_stor.Stats.{Stats, increment_http_errors, record_rate_limit_hit}
use iot_ephemeral_value_stor.Http.{Reply, text_body, http_error}

-- Packages net, strings and golang.org/x/time/rate: the host of an address with a port, addresses
-- and networks, strings.TrimSpace, and a limiter that is asked at a time.
pub record Net : Type 1 where
  pub Ip : Type 0
  pub Network : Type 0
  pub Rate : Type 0
  pub Limiter : Type 0
  pub split_host_port : Text → Option Text
  pub parse_ip : Text → Option Ip
  pub network_contains : Network → Ip → Bool
  pub trim_space : Text → Text
  pub new_limiter : Rate → ℕ → Limiter
  pub allow : ℕ → Limiter → Bool × Limiter

-- What the middleware looks at, and when the request arrives. A header that is missing is empty,
-- and a length that is not known, -1 in Go, is `none`.
pub record Incoming : Type 0 where
  pub http_method : Text
  pub remote_addr : Text
  pub x_real_ip : Text
  pub x_forwarded_for : Text
  pub content_length : Option ℕ
  pub arrived : ℕ

-- The part of a text before its first comma.
abbrev pub before_comma : Text → Text
before_comma [] = []
before_comma (c ∷ t) = let rest = before_comma t in if c == b',' then [] else c ∷ rest

module _ (net : Net) where
  open net use {
    Ip, Network, Rate, Limiter, split_host_port, parse_ip, network_contains, trim_space,
    new_limiter, allow,
  }

  pub record Config : Type 0 where
    pub max_request_size : ℕ
    pub rate_limit_per_second : Rate
    pub rate_limit_burst : ℕ
    pub trusted_proxies : List Network

  unfoldable pub contained : Ip → List Network → Bool
  contained ip [] = false
  contained ip (network ∷ networks) = network_contains network ip || contained ip networks

  unfoldable pub is_trusted_proxy : Text → List Network → Bool
  unfolding contained
  is_trusted_proxy ip networks = elim (parse_ip ip) [
    | none ↦ false
    | some parsed ↦ contained parsed networks
  ]

  abbrev pub peer_ip : Incoming → Text
  peer_ip r = elim (split_host_port r.remote_addr) [ none ↦ r.remote_addr | some host ↦ host ]

  unfoldable pub real_ip : Incoming → List Network → Text
  unfolding is_trusted_proxy
  real_ip r trusted_proxies =
      if is_trusted_proxy (peer_ip r) trusted_proxies
      then (if is_empty r.x_real_ip
          then if is_empty r.x_forwarded_for
            then peer_ip r
            else trim_space (before_comma r.x_forwarded_for)
          else trim_space r.x_real_ip)
      else peer_ip r

  -- The table of limiters.
  unfoldable pub client : Text → List (Text × Limiter) → Option Limiter
  client ip [] = none
  client ip ((k, l) ∷ clients) = if text_eq k ip then some l else client ip clients

  unfoldable pub set_client : Text → Limiter → List (Text × Limiter) → List (Text × Limiter)
  set_client ip limiter [] = (ip, limiter) ∷ []
  set_client ip limiter ((k, l) ∷ clients) =
      if text_eq k ip then (k, limiter) ∷ clients else (k, l) ∷ set_client ip limiter clients

  unfoldable pub get_limiter : Config → Text → List (Text × Limiter) → Limiter
  unfolding client
  get_limiter c ip clients = elim (client ip clients) [
    | some limiter ↦ limiter
    | none ↦ new_limiter c.rate_limit_per_second c.rate_limit_burst
  ]

  module _ (T : Type 0) where
    -- The counters, the table of limiters and what the handlers keep.
    pub record World : Type 0 where
      pub stats : Stats
      pub clients : List (Text × Limiter)
      pub rest : T

    abbrev pub Handler : Type 0
    Handler = Incoming → World → Option Reply × World

    -- The reply and the state of a request that goes no further.
    abbrev pub refuse : ℕ → Text → Incoming → World → Option Reply × World
    refuse status message r w = (
      some (http_error status message),
      record w { stats = increment_http_errors r.arrived w.stats },
    )

    abbrev pub over_limit : ℕ → Option ℕ → Bool
    over_limit limit none = false
    over_limit limit (some n) = ltb limit n

    unfoldable pub limit_request_size : Config → Handler → Handler
    limit_request_size c next r w =
        if over_limit c.max_request_size r.content_length
        then refuse 413 (codes "Request size is too large") r w
        else next r w

    unfoldable pub limited : Config → Handler → Text → Handler
    unfolding get_limiter set_client
    limited c next ip r w =
        let asked = allow r.arrived (get_limiter c ip w.clients) in
        let w' : World = record w { clients = set_client ip asked.1 w.clients } in
        if asked.0
        then next r w'
        else let (reply, w'') = refuse 429 (codes "Too Many Requests") r w' in
          (reply, record w'' { stats = record_rate_limit_hit ip w''.stats })

    abbrev pub is_local : Text → Bool
    is_local ip = text_eq ip (codes "127.0.0.1") || text_eq ip (codes "::1")

    unfoldable pub rate_limit : Config → Handler → Handler
    unfolding real_ip limited
    rate_limit c next r w =
        if is_empty r.remote_addr
        then next r w
        else let ip = real_ip r c.trusted_proxies in
          if is_empty ip
          then refuse 500 (codes "Internal Server Error") r w
          else if is_local ip
          then next r w
          else limited c next ip r w

    abbrev pub cors_headers : List (Text × Text)
    cors_headers =
        (codes "Access-Control-Allow-Origin", codes "*")
        ∷ (codes "Access-Control-Allow-Methods", codes "GET, POST, OPTIONS")
        ∷ (codes "Access-Control-Allow-Headers", codes "Content-Type, Authorization")
        ∷ []

    -- Its headers go with every answer.
    unfoldable pub enable_cors : Handler → Handler
    enable_cors next r w =
        if text_eq r.http_method (codes "OPTIONS")
        then (some (record { status = 200; content_type = []; body = text_body [] }), w)
        else next r w

    -- The order in which the router applies them.
    unfoldable pub chain : Config → Handler → Handler
    unfolding enable_cors limit_request_size rate_limit
    chain c next = enable_cors (limit_request_size c (rate_limit c next))
