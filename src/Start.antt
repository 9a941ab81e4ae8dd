-- ===== src/Start.antt =====
-- main.go, from the flags to the running server.
pub mod Proxies
pub mod Server
pub mod Tests
use iot_ephemeral_value_stor.Base.{
  ℕ, ◌≡◌, Bool, true, false, Option, none, some, List, [], ◌∷◌, ◌++◌, Text, codes, if◌then◌else◌,
  is_empty, contains, split, ◌==◌, decimal, ◌*◌, ◌&&◌,
}
use iot_ephemeral_value_stor.Stats.{new_stats}
use iot_ephemeral_value_stor.Storage.Collection.{ValueLog, Process, close, after_close}
use iot_ephemeral_value_stor.Storage.{Badger, StorageInstance, second}
use iot_ephemeral_value_stor.Storage.Opening.{Opening, new_persistent_storage}
use iot_ephemeral_value_stor.Middleware.{Net, Config}
use iot_ephemeral_value_stor.Site.{Outside, Settings, Site}
use iot_ephemeral_value_stor.Site.Serving.{middleware_config}

-- What package net says beside what the middleware asks it: whether an address is one of version 4,
-- and the network of a text like "10.0.0.0/8". Trimming nothing leaves nothing.
pub record Addresses (net : Net) : Type 0 where
  pub is_v4 : net.Ip → Bool
  pub parse_cidr : Text → Option (net.Network)
  pub trim_space-nil : net.trim_space [] ≡ []

module _ (net : Net) (addresses : Addresses net) where
  abbrev pub cidr_of : Text → Option (net.Ip) → Option (net.Network)
  cidr_of entry none = none
  cidr_of entry (some ip) =
      addresses.parse_cidr (entry ++ (if addresses.is_v4 ip then codes "/32" else codes "/128"))

  -- One entry of the list; `none` skips it.
  abbrev pub trusted_network : Text → Option (net.Network)
  trusted_network entry =
      if is_empty entry
      then none
      else if contains entry (codes "/")
      then addresses.parse_cidr entry
      else cidr_of entry (net.parse_ip entry)

  abbrev pub add_network : Option (net.Network) → List (net.Network) → List (net.Network)
  add_network none networks = networks
  add_network (some network) networks = network ∷ networks

  unfoldable pub trusted_networks : List Text → List (net.Network)
  unfolding contains
  trusted_networks [] = []
  trusted_networks (entry ∷ entries) =
      add_network (trusted_network (net.trim_space entry)) (trusted_networks entries)

  unfoldable pub parse_trusted_proxies : Text → List (net.Network)
  unfolding trusted_networks split
  parse_trusted_proxies raw = if is_empty raw then [] else trusted_networks (split b',' raw)

-- The flags.
pub record Flags : Type 0 where
  pub persist_duration_text : Text
  pub store_path : Text
  pub port : ℕ
  pub healthcheck : Bool
  pub trusted_proxies : Text

abbrev pub default_store_path : Text
default_store_path = codes "./data"

abbrev pub default_persist_duration : Text
default_persist_duration = codes "24h"

abbrev pub default_port : ℕ
default_port = 8080

abbrev pub default_flags : Flags
default_flags = record {
  persist_duration_text = default_persist_duration;
  store_path = default_store_path;
  port = default_port;
  healthcheck = false;
  trusted_proxies = [];
}

-- The exit code of the health check by the status of the answer, where `none` is an error.
unfoldable pub healthcheck_exit : Option ℕ → ℕ
healthcheck_exit none = 1
healthcheck_exit (some status) = if status == 200 then 0 else 1

abbrev pub settings_of : Flags → Text → Text → Settings
settings_of flags version build_time = record {
  port = flags.port;
  persist_duration_text = flags.persist_duration_text;
  version = version;
  build_time = build_time;
}

abbrev pub write_timeout : ℕ
write_timeout = 15 * second

abbrev pub read_timeout : ℕ
read_timeout = 15 * second

-- `http.Server`, apart from its handler.
pub record HttpServer : Type 0 where
  pub addr : Text
  pub write_timeout : ℕ
  pub read_timeout : ℕ

abbrev pub server_at : ℕ → HttpServer
server_at port = record {
  addr = b':' ∷ decimal port;
  write_timeout = write_timeout;
  read_timeout = read_timeout;
}

-- What createRouter needs: the two templates parse, and NewMCPServer succeeds.
pub record Parts : Type 0 where
  pub index_parsed : Bool
  pub download_parsed : Bool
  pub mcp_created : Bool

abbrev pub router_created : Parts → Bool
router_created parts = parts.index_parsed && parts.download_parsed && parts.mcp_created

-- How the program goes on: it exits, or it serves from a state.
pub data Started (out : Outside) (settings : Settings) : Type 0 where
  exits : ℕ → Started out settings
  serves : HttpServer → Config out.net → Site out settings → Started out settings

module _ (out : Outside) (addresses : Addresses out.net) (parse_duration : Text → Option ℕ)
    (version build_time : Text) where
  -- The state in which the program starts to serve.
  abbrev served :
      (flags : Flags)
      → ℕ
      → ℕ
      → Parts
      → Option (StorageInstance out.badger)
      → Started out (settings_of flags version build_time)
  served flags rest_started mcp_started parts none = exits 1
  served flags rest_started mcp_started parts (some storage) =
      if router_created parts
      then serves (server_at flags.port)
          (middleware_config out (settings_of flags version build_time)
            (parse_trusted_proxies out.net addresses flags.trusted_proxies))
          (record {
            stats = new_stats rest_started;
            clients = [];
            rest = record { storage = storage; mcp_stats = new_stats mcp_started };
          })
      else exits 1

  -- The arguments are the status that a running server answers the health check with, the times at
  -- which the counters start, how opening the store goes, and what the router is made of. `log.Fatal` exits with 1.
  unfoldable pub start :
      (flags : Flags)
      → Option ℕ
      → ℕ
      → ℕ
      → (Text → Opening out.badger)
      → Parts
      → Started out (settings_of flags version build_time)
  unfolding healthcheck_exit new_persistent_storage middleware_config parse_trusted_proxies
      new_stats
  start flags answer rest_started mcp_started open_at parts =
      if flags.healthcheck
      then exits (healthcheck_exit answer)
      else elim (parse_duration flags.persist_duration_text) [
        | none ↦ exits 1
        | some ttl ↦
            served flags rest_started mcp_started parts
              (new_persistent_storage out.badger ttl (open_at flags.store_path))
      ]

-- listenAndServe and the deferred Close. ListenAndServe returns an error at some time, upon which
-- `log.Fatal` ends the process with 1 and deferred calls do not run; else main would return.
unfoldable pub finish :
    (badger : Badger) (log : ValueLog badger)
    → Option Text
    → Process badger log
    → ℕ × Process badger log
finish badger log (some e) p = (1, p)
finish badger log none p = (0, after_close badger log (close badger log p) p)
