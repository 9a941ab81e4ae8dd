-- ===== src/Middleware/Tests.antt =====
-- Requests through the middleware, and its theorems there.
use iot_ephemeral_value_stor.Base.{
  ℕ, ◌+◌, ◌-◌, ◌≡◌, refl, true, false, ◌==◌, none, some, [], ◌∷◌, Text, codes, if◌then◌else◌,
  compare_text,
}
use iot_ephemeral_value_stor.Stats.{new_stats, increment_http_errors, record_rate_limit_hit}
use iot_ephemeral_value_stor.Http.{http_error}
use iot_ephemeral_value_stor.Middleware.{Net, Incoming, Config, World, Handler, real_ip, chain}
use iot_ephemeral_value_stor.Middleware.Passage.{real_ip-untrusted}
use iot_ephemeral_value_stor.Middleware.Verdicts.{Verdict, chain-Verdict}

-- Addresses are their texts, a network is one address, and a limiter has some requests left.
abbrev pub toy_net : Net
toy_net = record {
  Ip = Text;
  Network = Text;
  Rate = Unit;
  Limiter = ℕ;
  split_host_port = λ t. none;
  parse_ip = λ t. some t;
  network_contains = λ n ip. false;
  trim_space = λ t. t;
  new_limiter = λ rate burst. burst;
  allow = λ now left. if left == 0 then (false, 0) else (true, left - 1);
}

abbrev config : Config toy_net
config = record {
  max_request_size = 10;
  rate_limit_per_second = tt;
  rate_limit_burst = 1;
  trusted_proxies = codes "p" ∷ [];
}

abbrev answers_ok : Handler toy_net ℕ
answers_ok r w = (some (http_error 200 []), record w { rest = w.rest + 1 })

abbrev request : Incoming
request = record {
  http_method = codes "GET";
  remote_addr = codes "a";
  x_real_ip = codes "b";
  x_forwarded_for = [];
  content_length = none;
  arrived = 5;
}

abbrev world : World toy_net ℕ
world = record { stats = new_stats 1; clients = []; rest = 0 }

abbrev visited : World toy_net ℕ
visited = (chain toy_net ℕ config answers_ok request world).1

-- The first request passes and is the last of its address; another address has its own limiter.
limit_runs :
    (visited.rest ≡ 1)
    × (visited.clients ≡ (codes "a", 0) ∷ [])
    × (chain toy_net ℕ config answers_ok request visited ≡ (
      some (http_error 429 (codes "Too Many Requests")),
      record visited {
        stats = record_rate_limit_hit (codes "a") (increment_http_errors 5 (new_stats 1));
      },
    ))
    × ((chain toy_net ℕ config answers_ok
          (record request { remote_addr = codes "b" })
          visited).1.rest
        ≡ 2)
    × ((chain toy_net ℕ config answers_ok (record request { content_length = some 11 }) visited).0
        ≡ some (http_error 413 (codes "Request size is too large")))
unfolding chain compare_text
limit_runs = (refl, refl, refl, refl, refl)

chain-Verdict_example :
    Verdict toy_net ℕ config answers_ok request visited
      (chain toy_net ℕ config answers_ok request visited)
chain-Verdict_example = chain-Verdict toy_net ℕ config answers_ok request visited

real_ip-untrusted_example :
    real_ip toy_net
      (record request { x_real_ip = codes "c"; x_forwarded_for = codes "d" })
      (codes "p" ∷ [])
    ≡ real_ip toy_net request (codes "p" ∷ [])
unfolding real_ip
real_ip-untrusted_example =
    real_ip-untrusted toy_net (codes "p" ∷ []) request (codes "c") (codes "d") refl
