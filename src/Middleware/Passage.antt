-- ===== src/Middleware/Passage.antt =====
-- Whether a request passes, and what it leaves behind if it does not.
use iot_ephemeral_value_stor.Base.{
  ◌≡◌, refl, ◌≢◌, ◌⊎◌, inl, inr, false, Option, some, List, [], ◌∷◌, Text, codes, arith, text_eq,
  is_empty, Bool-cases, eq_of_compare_text,
}
use iot_ephemeral_value_stor.Stats.{increment_http_errors, record_rate_limit_hit}
use iot_ephemeral_value_stor.Http.{Reply}
use iot_ephemeral_value_stor.Middleware.{
  Net, Incoming, Config, World, Handler, client, set_client, real_ip, is_trusted_proxy, peer_ip,
  limited, rate_limit, limit_request_size, enable_cors, chain, get_limiter, over_limit, is_local,
}

pub client-set_client_ne :
    (net : Net) (ip other : Text) (l : net.Limiter) (clients : List (Text × net.Limiter))
    → ip ≢ other
    → client net other (set_client net ip l clients) ≡ client net other clients
unfolding client set_client
client-set_client_ne net ip other l [] h = ground (arith, eq_of_compare_text ip other)
client-set_client_ne net ip other l ((k, x) ∷ clients) h = ground (
  arith,
  client-set_client_ne net ip other l clients h,
  eq_of_compare_text k ip,
  eq_of_compare_text k other,
  eq_of_compare_text ip other,
)

-- Where the peer is not a trusted proxy, the headers X-Real-IP and X-Forwarded-For have no say in
-- the address by which a request is limited.
pub real_ip-untrusted :
    (net : Net) (trusted : List net.Network) (r : Incoming) (a b : Text)
    → is_trusted_proxy net (peer_ip net r) trusted ≡ false
    → real_ip net (record r { x_real_ip = a; x_forwarded_for = b }) trusted ≡ real_ip net r trusted
unfolding real_ip
real_ip-untrusted net trusted r a b h = rw h refl

module _ (net : Net) (T : Type 0) (c : Config net) (next : Handler net T) where
  -- The four ways of a request through the chain.
  pub data Passage (r : Incoming) (w : World net T) : Option Reply × World net T → Type 0 where
    -- The handler runs, in a state that differs at most in the limiter of the request's address.
    passes :
        (w' : World net T)
        → w'.stats ≡ w.stats
        → w'.rest ≡ w.rest
        → ((other : Text)
            → real_ip net r c.trusted_proxies ≢ other
            → client net other w'.clients ≡ client net other w.clients)
        → Passage r w (next r w')
    -- A preflight request is answered at once, and changes nothing.
    preflight :
        (reply : Reply)
        → r.http_method ≡ codes "OPTIONS"
        → reply.status ≡ 200
        → Passage r w (some reply, w)
    -- A request that is too large or has no address is answered with an error that counts.
    refused :
        (reply : Reply)
        → (reply.status ≡ 413) ⊎ (reply.status ≡ 500)
        → Passage r w (some reply, record w { stats = increment_http_errors r.arrived w.stats })
    -- One over its limit also, and is counted for its address.
    over :
        (reply : Reply) (clients : List (Text × net.Limiter))
        → reply.status ≡ 429
        → ((other : Text)
            → real_ip net r c.trusted_proxies ≢ other
            → client net other clients ≡ client net other w.clients)
        → Passage r w (
          some reply,
          record w {
            clients = clients;
            stats =
                record_rate_limit_hit
                  (real_ip net r c.trusted_proxies)
                  (increment_http_errors r.arrived w.stats);
          },
        )

  limited-Passage :
      (r : Incoming) (w : World net T)
      → Passage r w (limited net T c next (real_ip net r c.trusted_proxies) r w)
  unfolding limited
  limited-Passage r w =
      let ip : Text = real_ip net r c.trusted_proxies in
      let asked = net.allow r.arrived (get_limiter net c ip w.clients) in
      elim (Bool-cases asked.0) [
        | inl e ↦
            rw e (
              passes _ refl refl (λ other h. client-set_client_ne net ip other asked.1 w.clients h))
        | inr e ↦
            rw e (over _ _ refl (λ other h. client-set_client_ne net ip other asked.1 w.clients h))
      ]

  rate_limit-Passage : (r : Incoming) (w : World net T) → Passage r w (rate_limit net T c next r w)
  unfolding rate_limit
  rate_limit-Passage r w = elim (Bool-cases (is_empty r.remote_addr)) [
    | inl e ↦ rw e (passes w refl refl (λ other h. refl))
    | inr e ↦
        let ip : Text = real_ip net r c.trusted_proxies in
        elim (Bool-cases (is_empty ip)) [
          | inl e' ↦ rw (e, e') (refused _ (inr refl))
          | inr e' ↦ elim (Bool-cases (is_local net T ip)) [
            | inl here ↦ rw (e, e', here) (passes w refl refl (λ other h. refl))
            | inr away ↦ rw (e, e', away) (limited-Passage r w)
          ]
        ]
  ]

  -- Every request through the chain of middleware goes one of four ways: its handler runs, with the
  -- counters, the handlers' state and the limiters of other addresses as they were; a preflight
  -- request is answered with 200; or it is refused with 413, 500 or 429, which counts as one error,
  -- at 429 as a hit of its address, and leaves the rest as it was.
  pub chain-Passage : (r : Incoming) (w : World net T) → Passage r w (chain net T c next r w)
  unfolding chain enable_cors limit_request_size
  chain-Passage r w = elim (Bool-cases (text_eq r.http_method (codes "OPTIONS"))) [
    | inl e ↦
        rw e (preflight _ (ground (arith, eq_of_compare_text r.http_method (codes "OPTIONS"))) refl)
    | inr e ↦ elim (Bool-cases (over_limit net T c.max_request_size r.content_length)) [
      | inl large ↦ rw (e, large) (refused _ (inl refl))
      | inr small ↦ rw (e, small) (rate_limit-Passage r w)
    ]
  ]
