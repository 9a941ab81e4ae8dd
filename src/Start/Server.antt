-- ===== src/Start/Server.antt =====
-- The health check of the command line against a running server.
use iot_ephemeral_value_stor.Base.{
  ℕ, ◌≡◌, refl, sym, ◌∙◌, Bool, false, ap, ◌↔◌, true, Option, none, some, [], Text, codes, arith,
}
use iot_ephemeral_value_stor.Http.{Reply}
use iot_ephemeral_value_stor.Storage.{Badger}
use iot_ephemeral_value_stor.Storage.Collection.{ValueLog, Process, close}
use iot_ephemeral_value_stor.Storage.Collection.Closing.{closed-close}
use iot_ephemeral_value_stor.Storage.Opening.{Opening}
use iot_ephemeral_value_stor.Storage.Health.{IsWell}
use iot_ephemeral_value_stor.Middleware.{Config}
use iot_ephemeral_value_stor.Site.{Outside, Settings, Inbound, Backend, Site}
use iot_ephemeral_value_stor.Site.Serving.{serve}
use iot_ephemeral_value_stor.Site.Passing.{IsGranted}
use iot_ephemeral_value_stor.Site.Health.{serve-health}
use iot_ephemeral_value_stor.Start.{
  Addresses, Flags, Parts, HttpServer, server_at, router_created, Started, exits, serves, start,
  finish, healthcheck_exit, settings_of,
}

abbrev pub answered_status : Option Reply → Option ℕ
answered_status none = none
answered_status (some reply) = some reply.status

exit_iff : (n : ℕ) → (healthcheck_exit (some n) ≡ 0) ↔ (n ≡ 200)
unfolding healthcheck_exit
exit_iff n = ground arith

exits_iff :
    {out : Outside} {settings : Settings} (a b : ℕ)
    → (◌≡◌ {A = Started out settings} (exits a) (exits b)) ↔ (a ≡ b)
exits_iff {out = out} {settings = settings} a b = (ap code, ap exits)
  where
    code : Started out settings → ℕ
    code (exits n) = n
    code (serves server config w) = b

module _ (out : Outside) (addresses : Addresses out.net) (parse_duration : Text → Option ℕ)
    (version build_time : Text) where
  -- The program that is started for a health check exits with 0 exactly if the server that its GET of
  -- "/health" reaches, past the middleware, has a closed breaker, a database that was read, and room
  -- on the disk.
  pub start-healthcheck_iff :
      (flags : Flags) (rest_started mcp_started : ℕ) (open_at : Text → Opening out.badger)
      (parts : Parts) (settings : Settings) (config : Config out.net) (r : Inbound)
      (w : Site out settings)
      → flags.healthcheck ≡ true
      → r.incoming.http_method ≡ codes "GET"
      → r.path ≡ codes "/health"
      → IsGranted out.net (Backend out settings) config r.incoming w
      → (start out addresses parse_duration version build_time flags
            (answered_status (serve out settings config r w).0)
            rest_started
            mcp_started
            open_at
            parts
          ≡ exits 0)
        ↔ IsWell out.badger r.probe r.disk_free w.rest.storage
  unfolding start
  start-healthcheck_iff flags rest_started mcp_started open_at parts settings config r w asked get
        at g =
      let (reply, answered, well, either) = serve-health out settings config r w get at g in
      let code : ℕ = healthcheck_exit (some reply.status) in
      let exit = exits_iff {out = out} {settings = settings_of flags version build_time} code 0 in
      let status = exit_iff reply.status in
      rw (start, asked, answered)
        (λ e. well.0 (status.0 (exit.0 e)), λ h. exit.1 (status.1 (well.1 h)))

  -- A program that starts to serve has opened its store with the time to live of its flag, its
  -- breaker is closed, no goroutine is left behind, it listens at the port of its flag, and its
  -- router was created.
  start-serves :
      (flags : Flags) (answer : Option ℕ) (rest_started mcp_started : ℕ)
      (open_at : Text → Opening out.badger) (parts : Parts) (server : HttpServer)
      (config : Config out.net) (w : Site out (settings_of flags version build_time))
      → start out addresses parse_duration version build_time flags answer rest_started mcp_started
          open_at parts
        ≡ serves server config w
      → (parse_duration flags.persist_duration_text ≡ some w.rest.storage.persist_duration)
        × ((open_at flags.store_path).opened ≡ some w.rest.storage.db)
        × (w.rest.storage.degraded ≡ 0)
        × (w.rest.storage.pending ≡ [])
        × (server ≡ server_at flags.port)
        × (router_created parts ≡ true)
  unfolding start
  start-serves flags answer rest_started mcp_started open_at parts server config w e =
      ground (arith, e)

-- The process that has served ends with 0 exactly if it has closed its database: as ListenAndServe
-- returns an error, it does neither.
finish-closed :
    (badger : Badger) (log : ValueLog badger) (error : Option Text) (p : Process badger log)
    → p.closed ≡ false
    → ((finish badger log error p).0 ≡ 0) ↔ ((finish badger log error p).1.closed ≡ true)
unfolding finish close
finish-closed badger log none p open_yet =
    (λ e. (closed-close badger log p p.collector).1, λ e. refl)
finish-closed badger log (some x) p open_yet =
    (λ e. absurd (omega (arith, e)), λ e. absurd (not_both (sym open_yet ∙ e)))
  where
    not_both : ◌≡◌ {A = Bool} false true → ⊥
    not_both e = cc
