-- ===== src/Site/Health.antt =====
-- What a monitor learns from the health check.
use iot_ephemeral_value_stor.Base.{
  ℕ, ◌≡◌, refl, sym, ap, subst, ◌∙◌, ◌⊎◌, inl, inr, ◌↔◌, Bool, true, false, some, Option-cases,
  List, [], ◌++◌, Text, codes, arith, compare_text, All, if◌then◌else◌, ok,
}
use iot_ephemeral_value_stor.Domain.{Platform, validate_upload_key}
use iot_ephemeral_value_stor.Codec.{Codec}
use iot_ephemeral_value_stor.Storage.{
  Badger, StorageInstance, store, check_health, WriteRun, update_with_context,
}
use iot_ephemeral_value_stor.Storage.Health.{IsWell, check_health_iff}
use iot_ephemeral_value_stor.Service.{Run, Params, upload, uploaded}
use iot_ephemeral_value_stor.Service.Params.{AreValid, last_state}
use iot_ephemeral_value_stor.Service.Rejects.{download_key_of, authorised_of_valid}
use iot_ephemeral_value_stor.Service.Upload.{uploaded-ArePlain}
use iot_ephemeral_value_stor.Http.{Reply}
use iot_ephemeral_value_stor.Handlers.{request_params}
use iot_ephemeral_value_stor.Middleware.{Config}
use iot_ephemeral_value_stor.Router.{Mux, routes, find_route, health}
use iot_ephemeral_value_stor.Router.Matching.{match_pieces}
use iot_ephemeral_value_stor.Router.Taken.{separated}
use iot_ephemeral_value_stor.Site.{Outside, Settings, Inbound, Backend, Site}
use iot_ephemeral_value_stor.Site.Endpoints.{health_handler}
use iot_ephemeral_value_stor.Site.Serving.{endpoint, serve, serve_all}
use iot_ephemeral_value_stor.Site.Keeps.{may_write, serve_all-keeps_storage}
use iot_ephemeral_value_stor.Site.Visits.{uploaded_storage, serve-upload, valid-IsKey}
use iot_ephemeral_value_stor.Site.Passing.{IsGranted, serve-granted}

find_route-health :
    (mux : Mux) → find_route mux routes (codes "GET") (codes "/health") ≡ some (health, [])
unfolding find_route match_pieces compare_text
find_route-health mux = separated mux (codes "GET") (codes "/health") ∙ refl

abbrev status_of : Bool → ℕ
status_of healthy = if healthy then 200 else 503

status_iff : (b : Bool) → (status_of b ≡ 200) ↔ (b ≡ true)
status_iff true = (λ e. refl, λ e. refl)
status_iff false = (λ e. absurd (omega (arith, e)), λ e. ground (arith, e))

status_cases : (b : Bool) → (status_of b ≡ 200) ⊎ (status_of b ≡ 503)
status_cases true = inl refl
status_cases false = inr refl

-- An upload whose write times out opens the breaker.
upload_timed_out :
    (platform : Platform) (badger : Badger) (codec : Codec) (run : Run) (key : Text)
    (params : Params) (s : StorageInstance badger)
    → validate_upload_key platform key ≡ ok tt
    → AreValid codec.valid_text params
    → s.degraded ≡ 0
    → run.write ≡ WriteRun.times_out
    → (upload platform badger codec run key params s).1.degraded ≡ 1
unfolding upload store update_with_context
upload_timed_out platform badger codec run key params s valid v up late =
    elim (Option-cases (codec.marshal (uploaded platform run.now params))) [
      | inl e ↦
          absurd (codec.marshal_total _ _ (uploaded-ArePlain platform codec run.now params v) e)
      | inr (b, e) ↦ rw (authorised_of_valid platform key valid) (
          ap (λ t. t.degraded)
            (last_state
              (store badger codec run.write run.write_at (download_key_of platform key)
                (uploaded platform run.now params))
              (codes "error storing data")
              (download_key_of platform key, uploaded platform run.now params) s)
          ∙ rw (store, e, up, late) refl)
    ]

module _ (out : Outside) (settings : Settings) (config : Config out.net) where
  -- A GET of "/health" that the middleware lets through is answered with 200 exactly if the breaker
  -- is closed, the probe was read and the disk has room, and with 503 otherwise.
  pub serve-health :
      (r : Inbound) (w : Site out settings)
      → r.incoming.http_method ≡ codes "GET"
      → r.path ≡ codes "/health"
      → IsGranted out.net (Backend out settings) config r.incoming w
      → (reply : Reply) × ((serve out settings config r w).0 ≡ some reply)
        × ((reply.status ≡ 200) ↔ IsWell out.badger r.probe r.disk_free w.rest.storage)
        × ((reply.status ≡ 200) ⊎ (reply.status ≡ 503))
  unfolding endpoint health_handler compare_text
  serve-health r w get at g =
      let (w', stats, rest, served) =
        serve-granted out settings config r w health [] (rw (get, at) (find_route-health out.mux))
          g in
      let content : Bool = (check_health out.badger r.probe r.disk_free w'.rest.storage).healthy in
      let well = check_health_iff out.badger r.probe r.disk_free w'.rest.storage in
      let iff : (content ≡ true) ↔ IsWell out.badger r.probe r.disk_free w.rest.storage = (
        λ e. subst (λ b. IsWell out.badger r.probe r.disk_free b.storage) rest (well.0 e),
        λ h. well.1 (subst (λ b. IsWell out.badger r.probe r.disk_free b.storage) (sym rest) h),
      ) in
      (
        _,
        ap (λ x. x.0) served,
        (λ e. iff.0 ((status_iff content).0 e), λ h. (status_iff content).1 (iff.1 h)),
        status_cases content,
      )

  -- After a device's upload of valid UTF-8 by a GET of "/u/" and a valid key, whose write times out,
  -- the health check is answered with 503, after any requests in between that may not write, where
  -- the middleware lets both through.
  pub serve-health_timed_out :
      (device monitor : Inbound) (between : List Inbound) (w : Site out settings) (key : Text)
      → validate_upload_key out.platform key ≡ ok tt
      → AreValid out.codec.valid_text
          (request_params out.platform out.badger out.codec device.visit device.request [])
      → w.rest.storage.degraded ≡ 0
      → device.visit.run.write ≡ WriteRun.times_out
      → device.incoming.http_method ≡ codes "GET"
      → device.path ≡ codes "/u/" ++ key
      → IsGranted out.net (Backend out settings) config device.incoming w
      → All (λ r. may_write r.incoming.http_method r.path ≡ false) between
      → monitor.incoming.http_method ≡ codes "GET"
      → monitor.path ≡ codes "/health"
      → IsGranted out.net
          (Backend out settings)
          config
          monitor.incoming
          (serve_all out settings config between (serve out settings config device w).1)
      → (reply : Reply) × ((serve out settings config monitor
            (serve_all out settings config between (serve out settings config device w).1)).0
          ≡ some reply)
        × (reply.status ≡ 503)
  serve-health_timed_out device monitor between w key valid v up late get at g quiet get' at' g' =
      let middle = serve_all out settings config between (serve out settings config device w).1 in
      let left : middle.rest.storage
          ≡ uploaded_storage out settings config device key w.rest.storage =
        serve_all-keeps_storage out settings config between (serve out settings config device w).1
          quiet
        ∙ serve-upload out settings config device w key (valid-IsKey out settings config key valid)
            get at g in
      let open_now : middle.rest.storage.degraded ≡ 1 =
        ap (λ s. s.degraded) left
        ∙ upload_timed_out out.platform out.badger out.codec device.visit.run key _ w.rest.storage
            valid v up late in
      let (reply, answered, well, either) = serve-health monitor middle get' at' g' in
      elim either [
        | inl fine ↦ absurd (omega (arith, open_now, (well.0 fine).0))
        | inr broken ↦ (reply, answered, broken)
      ]
