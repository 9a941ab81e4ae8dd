-- ===== src/Start/Tests.antt =====
-- Starts of the program, and the theorems there.
use iot_ephemeral_value_stor.Base.{
  key_not_found, ℕ, ◌≡◌, refl, ◌↔◌, true, Option, none, some, [], ◌∷◌, Text, codes, split, arith,
  contains, has_prefix,
}
use iot_ephemeral_value_stor.Storage.Opening.{Opening}
use iot_ephemeral_value_stor.Storage.{unknown}
use iot_ephemeral_value_stor.Storage.Health.{IsWell}
use iot_ephemeral_value_stor.Storage.Tests.{toy_badger, start}
use iot_ephemeral_value_stor.Middleware.Tests.{toy_net}
use iot_ephemeral_value_stor.Site.Serving.{serve}
use iot_ephemeral_value_stor.Site.Tests.{toy, settings, config, site, monitor, monitor-IsGranted}
use iot_ephemeral_value_stor.Start
use iot_ephemeral_value_stor.Start.{
  Addresses, Flags, Parts, exits, default_flags, parse_trusted_proxies,
}
use iot_ephemeral_value_stor.Start.Proxies.{AreListed, join_commas, parse_trusted_proxies-AreListed}
use iot_ephemeral_value_stor.Start.Server.{answered_status, start-healthcheck_iff}

-- A network is named by its text.
abbrev toy_addresses : Addresses toy_net
toy_addresses = record { is_v4 = λ ip. true; parse_cidr = λ t. some t; trim_space-nil = refl }

proxies_run :
    (parse_trusted_proxies toy_net toy_addresses (codes "a,,b/8") ≡ codes "a/32" ∷ codes "b/8" ∷ [])
    × (parse_trusted_proxies toy_net toy_addresses [] ≡ [])
unfolding parse_trusted_proxies split contains has_prefix
proxies_run = (refl, refl)

parse_trusted_proxies-AreListed_example :
    AreListed toy_net toy_addresses (codes "a" ∷ [] ∷ codes "b/8" ∷ []) (
      parse_trusted_proxies toy_net toy_addresses (join_commas (codes "a") ([] ∷ codes "b/8" ∷ [])))
parse_trusted_proxies-AreListed_example =
    parse_trusted_proxies-AreListed toy_net toy_addresses (codes "a") ([] ∷ codes "b/8" ∷ [])
      ((omega arith, tt), (tt, ((omega arith, (omega arith, (omega arith, tt))), tt)))

abbrev probing : Flags
probing = record default_flags { healthcheck = true }

abbrev toy_opening : Text → Opening toy_badger
toy_opening path = record { absolute = some path; missing = true; made = true; opened = none }

abbrev toy_parts : Parts
toy_parts = record { index_parsed = true; download_parsed = true; mcp_created = true }

abbrev toy_duration : Text → Option ℕ
toy_duration t = none

start-healthcheck_iff_example :
    (Start.start toy toy_addresses toy_duration
        (codes "dev")
        (codes "now")
        probing
        (answered_status (serve toy settings config monitor site).0)
        1
        1
        toy_opening
        toy_parts
      ≡ exits 0)
    ↔ IsWell toy_badger none (unknown key_not_found) start
start-healthcheck_iff_example =
    start-healthcheck_iff toy toy_addresses toy_duration (codes "dev") (codes "now") probing 1 1
      toy_opening toy_parts settings config monitor site refl refl refl (monitor-IsGranted site)
