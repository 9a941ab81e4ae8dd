-- ===== src/Middleware/Verdicts.antt =====
-- When a request passes the middleware, and when it is refused.
use iot_ephemeral_value_stor.Base.{
  ℕ, ◌≤◌, ◌<◌, ◌≡◌, refl, ◌≢◌, ◌⊎◌, inl, inr, true, false, Option, none, some, List, [], ◌∷◌, Text,
  codes, arith, text_eq, text_eq_iff, is_empty, ltb, Bool-cases, Option-cases, eq_of_compare_text,
  compare_text_refl,
}
use iot_ephemeral_value_stor.Stats.{increment_http_errors, record_rate_limit_hit}
use iot_ephemeral_value_stor.Http.{Reply}
use iot_ephemeral_value_stor.Middleware.{
  Net, Incoming, Config, World, Handler, client, set_client, real_ip, limited, rate_limit,
  limit_request_size, enable_cors, chain, get_limiter, over_limit, is_local,
}
use iot_ephemeral_value_stor.Middleware.Passage.{client-set_client_ne}

client-set_client :
    (net : Net) (ip : Text) (l : net.Limiter) (clients : List (Text × net.Limiter))
    → client net ip (set_client net ip l clients) ≡ some l
unfolding client set_client
client-set_client net ip l [] = ground (arith, compare_text_refl ip)
client-set_client net ip l ((k, x) ∷ clients) =
    ground (arith, client-set_client net ip l clients, eq_of_compare_text k ip)

ne_of_text_eq : (t u : Text) → text_eq t u ≡ false → t ≢ u
ne_of_text_eq t u h = λ e. ground (arith, (text_eq_iff t u).1 e)

ne_of_is_empty : (t : Text) → is_empty t ≡ false → t ≢ []
ne_of_is_empty t h = λ e. ground arith

eq_of_is_empty : (t : Text) → is_empty t ≡ true → t ≡ []
eq_of_is_empty [] h = refl
eq_of_is_empty (c ∷ t) h = absurd (ground arith)

module _ (net : Net) (T : Type 0) (c : Config net) (next : Handler net T) where
  abbrev pub limited_ip : Incoming → Text
  limited_ip r = real_ip net r c.trusted_proxies

  -- No preflight, and not known to be too large.
  abbrev pub IsAdmitted : Incoming → Type 0
  IsAdmitted r =
      (r.http_method ≢ codes "OPTIONS")
      × ((n : ℕ) → r.content_length ≡ some n → n ≤ c.max_request_size)

  -- Its address has a limit: it is known, and not one of this machine.
  abbrev pub IsAway : Incoming → Type 0
  IsAway r =
      (r.remote_addr ≢ [])
      × (limited_ip r ≢ [])
      × (limited_ip r ≢ codes "127.0.0.1")
      × (limited_ip r ≢ codes "::1")

  -- The limiter in the table, or a new one where the address has none.
  abbrev pub IsLimiterOf : Text → List (Text × net.Limiter) → net.Limiter → Type 0
  IsLimiterOf ip clients l =
      (client net ip clients ≡ some l)
      ⊎ ((client net ip clients ≡ none)
          × (l ≡ net.new_limiter c.rate_limit_per_second c.rate_limit_burst))

  -- The table in which one address has the limiter, and the others have what they had.
  abbrev pub IsUpdated :
      Text → net.Limiter → List (Text × net.Limiter) → List (Text × net.Limiter) → Type 0
  IsUpdated ip l before after =
      (client net ip after ≡ some l)
      × ((other : Text) → ip ≢ other → client net other after ≡ client net other before)

  pub data Verdict (r : Incoming) (w : World net T) : Option Reply × World net T → Type 0 where
    preflight :
        (reply : Reply)
        → r.http_method ≡ codes "OPTIONS"
        → reply.status ≡ 200
        → Verdict r w (some reply, w)
    too_large :
        (reply : Reply) (n : ℕ)
        → r.http_method ≢ codes "OPTIONS"
        → r.content_length ≡ some n
        → c.max_request_size < n
        → reply.status ≡ 413
        → Verdict r w (some reply, record w { stats = increment_http_errors r.arrived w.stats })
    unaddressed :
        (reply : Reply)
        → IsAdmitted r
        → r.remote_addr ≢ []
        → limited_ip r ≡ []
        → reply.status ≡ 500
        → Verdict r w (some reply, record w { stats = increment_http_errors r.arrived w.stats })
    unlimited :
        IsAdmitted r
        → (r.remote_addr ≡ []) ⊎ ((limited_ip r ≡ codes "127.0.0.1") ⊎ (limited_ip r ≡ codes "::1"))
        → Verdict r w (next r w)
    within_limit :
        (l : net.Limiter) (clients : List (Text × net.Limiter))
        → IsAdmitted r
        → IsAway r
        → IsLimiterOf (limited_ip r) w.clients l
        → (net.allow r.arrived l).0 ≡ true
        → IsUpdated (limited_ip r) (net.allow r.arrived l).1 w.clients clients
        → Verdict r w (next r (record w { clients = clients }))
    over :
        (reply : Reply) (l : net.Limiter) (clients : List (Text × net.Limiter))
        → IsAdmitted r
        → IsAway r
        → IsLimiterOf (limited_ip r) w.clients l
        → (net.allow r.arrived l).0 ≡ false
        → IsUpdated (limited_ip r) (net.allow r.arrived l).1 w.clients clients
        → reply.status ≡ 429
        → Verdict r w (
          some reply,
          record w {
            clients = clients;
            stats = record_rate_limit_hit (limited_ip r) (increment_http_errors r.arrived w.stats);
          },
        )

  get_limiter-IsLimiterOf :
      (ip : Text) (clients : List (Text × net.Limiter))
      → IsLimiterOf ip clients (get_limiter net c ip clients)
  unfolding get_limiter
  get_limiter-IsLimiterOf ip clients = elim (Option-cases (client net ip clients)) [
    | inl e ↦ rw (e, get_limiter) (inr (refl, refl))
    | inr (l, e) ↦ rw (e, get_limiter) (inl refl)
  ]

  set_client-IsUpdated :
      (ip : Text) (l : net.Limiter) (clients : List (Text × net.Limiter))
      → IsUpdated ip l clients (set_client net ip l clients)
  set_client-IsUpdated ip l clients =
      (client-set_client net ip l clients, λ other h. client-set_client_ne net ip other l clients h)

  limited-Verdict :
      (r : Incoming) (w : World net T)
      → IsAdmitted r
      → IsAway r
      → Verdict r w (limited net T c next (limited_ip r) r w)
  unfolding limited
  limited-Verdict r w admitted away =
      let l = get_limiter net c (limited_ip r) w.clients in
      let given = get_limiter-IsLimiterOf (limited_ip r) w.clients in
      let kept = set_client-IsUpdated (limited_ip r) (net.allow r.arrived l).1 w.clients in
      elim (Bool-cases (net.allow r.arrived l).0) [
        | inl e ↦ rw e (within_limit l _ admitted away given e kept)
        | inr e ↦ rw e (over _ l _ admitted away given e kept refl)
      ]

  is_local-cases :
      (ip : Text) → is_local net T ip ≡ true → (ip ≡ codes "127.0.0.1") ⊎ (ip ≡ codes "::1")
  is_local-cases ip h = elim (Bool-cases (text_eq ip (codes "127.0.0.1"))) [
    | inl e ↦ inl ((text_eq_iff ip (codes "127.0.0.1")).0 e)
    | inr e ↦ inr ((text_eq_iff ip (codes "::1")).0 (rw e at h))
  ]

  ne_of_is_local :
      (ip : Text) → is_local net T ip ≡ false → (ip ≢ codes "127.0.0.1") × (ip ≢ codes "::1")
  ne_of_is_local ip h = (
    ne_of_text_eq ip (codes "127.0.0.1") (ground arith),
    ne_of_text_eq ip (codes "::1") (ground arith),
  )

  rate_limit-Verdict :
      (r : Incoming) (w : World net T) → IsAdmitted r → Verdict r w (rate_limit net T c next r w)
  unfolding rate_limit
  rate_limit-Verdict r w admitted = elim (Bool-cases (is_empty r.remote_addr)) [
    | inl e ↦ rw e (unlimited admitted (inl (eq_of_is_empty r.remote_addr e)))
    | inr e ↦ elim (Bool-cases (is_empty (limited_ip r))) [
      | inl e' ↦
          rw (e, e')
            (unaddressed _ admitted (ne_of_is_empty r.remote_addr e)
              (eq_of_is_empty (limited_ip r) e') refl)
      | inr e' ↦ elim (Bool-cases (is_local net T (limited_ip r))) [
        | inl here ↦
            rw (e, e', here) (unlimited admitted (inr (is_local-cases (limited_ip r) here)))
        | inr far ↦
            rw (e, e', far)
              (limited-Verdict r w admitted (
                ne_of_is_empty r.remote_addr e,
                ne_of_is_empty (limited_ip r) e',
                (ne_of_is_local (limited_ip r) far).0,
                (ne_of_is_local (limited_ip r) far).1,
              ))
      ]
    ]
  ]

  over_limit-cases :
      (o : Option ℕ)
      → ((n : ℕ) × (o ≡ some n)
          × (c.max_request_size < n)
          × (over_limit net T c.max_request_size o ≡ true))
        ⊎ (((n : ℕ) → o ≡ some n → n ≤ c.max_request_size)
            × (over_limit net T c.max_request_size o ≡ false))
  over_limit-cases none = inr (λ n e. absurd (ground arith), refl)
  over_limit-cases (some k) = elim (Bool-cases (ltb c.max_request_size k)) [
    | inl e ↦ inl (k, refl, ground arith, e)
    | inr e ↦ inr (λ n h. ground arith, e)
  ]

  -- A request to the chain of middleware is answered with 200 at once exactly if it is a preflight.
  -- Any other with 413 exactly if its length is known and above the limit, and any other of these
  -- with 500 if its peer is known but the address that it is limited by is empty. It reaches its
  -- handler unlimited if it has no peer or its address is one of this machine, and else if the
  -- limiter of its address, a new one where there was none, allows it: if not, it is answered with
  -- 429, which counts as an error and a hit of its address. The limiter that was asked is kept, and
  -- those of others stay. Nothing else changes, but that 413 and 500 count as errors.
  pub chain-Verdict : (r : Incoming) (w : World net T) → Verdict r w (chain net T c next r w)
  unfolding chain enable_cors limit_request_size
  chain-Verdict r w = elim (Bool-cases (text_eq r.http_method (codes "OPTIONS"))) [
    | inl e ↦ rw e (preflight _ ((text_eq_iff r.http_method (codes "OPTIONS")).0 e) refl)
    | inr e ↦
        let other = ne_of_text_eq r.http_method (codes "OPTIONS") e in
        elim (over_limit-cases r.content_length) [
          | inl (n, known, large, b) ↦ rw (e, b) (too_large _ n other known large refl)
          | inr (fits, b) ↦ rw (e, b) (rate_limit-Verdict r w (other, fits))
        ]
  ]
