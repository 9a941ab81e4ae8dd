-- ===== src/Site/Visits.antt =====
-- A device that uploads by one request, and a visitor who reads by another.
use iot_ephemeral_value_stor.Base.{
  ℕ, ◌+◌, ◌≤◌, ◌≡◌, refl, sym, ap, ◌∙◌, ◌≢◌, inl, inr, true, false, some, List, [], ◌∷◌, ◌++◌, Text,
  codes, ok, Bool-cases, arith, is_empty, compare_text, all, All, LacksByte, has_prefix, drop_text,
  length,
}
use iot_ephemeral_value_stor.Json.{str}
use iot_ephemeral_value_stor.Hex.{is_hex_digit, is_lower_digit}
use iot_ephemeral_value_stor.Domain.{validate_upload_key, strip_upload_prefix}
use iot_ephemeral_value_stor.Domain.Derive.{derive_download_key_of_valid}
use iot_ephemeral_value_stor.Domain.Keys.{validate_upload_key_iff}
use iot_ephemeral_value_stor.Stats.{Stats}
use iot_ephemeral_value_stor.Storage.{second, ReadRun, WriteRun, StorageInstance}
use iot_ephemeral_value_stor.Service.{timestamp}
use iot_ephemeral_value_stor.Service
use iot_ephemeral_value_stor.Service.Params.{AreValid, value_of}
use iot_ephemeral_value_stor.Service.Rejects.{download_key_of}
use iot_ephemeral_value_stor.Http.{line_body, collect_params, timestamp_suffix}
use iot_ephemeral_value_stor.Handlers.{
  request_params, upload_handler, handle_upload, download_plain_handler, plain_outcome, settle,
  Outcome, answers, fails, fails_late, panics,
}
use iot_ephemeral_value_stor.Handlers.Readers.{download_plain-upload}
use iot_ephemeral_value_stor.Middleware.{Config}
use iot_ephemeral_value_stor.Router.{is_no_break, download_plain, upload, Vars}
use iot_ephemeral_value_stor.Router.Taken.{IsKey, find_route-upload, find_route-plain}
use iot_ephemeral_value_stor.Site.{Outside, Settings, Inbound, Backend, Site, rest_server}
use iot_ephemeral_value_stor.Site.Serving.{endpoint, serve, serve_all}
use iot_ephemeral_value_stor.Site.Keeps.{may_write, serve_all-keeps_storage}
use iot_ephemeral_value_stor.Site.Passing.{IsGranted, serve-granted}

hex_lacks_slash : (s : Text) → all is_hex_digit s ≡ true → LacksByte b'/' s
hex_lacks_slash [] h = tt
hex_lacks_slash (c ∷ s) h = ground (arith, hex_lacks_slash s)

lower_lacks_slash : (s : Text) → all is_lower_digit s ≡ true → LacksByte b'/' s
lower_lacks_slash [] h = tt
lower_lacks_slash (c ∷ s) h = ground (arith, lower_lacks_slash s)

-- The prefix of an upload key has no slash.
unstripped : (key : Text) → LacksByte b'/' (strip_upload_prefix key) → LacksByte b'/' key
unfolding strip_upload_prefix has_prefix drop_text
unstripped [] h = tt
unstripped (a ∷ []) h = elim (Bool-cases (has_prefix (codes "u_") (a ∷ []))) [
  | inl e ↦ ground (arith, e)
  | inr e ↦ rw e at h
]
unstripped (a ∷ b ∷ s) h = elim (Bool-cases (has_prefix (codes "u_") (a ∷ b ∷ s))) [
  | inl e ↦ ground (arith, e)
  | inr e ↦ rw e at h
]

stripped_not_empty : (key : Text) → length (strip_upload_prefix key) ≡ 64 → is_empty key ≡ false
unfolding strip_upload_prefix
stripped_not_empty [] h = ground (arith, h)
stripped_not_empty (c ∷ key) h = refl

not_empty : (t : Text) → length t ≡ 64 → is_empty t ≡ false
not_empty [] h = ground (arith, h)
not_empty (c ∷ t) h = refl

-- The reply does not depend on the counters.
settle_reply : (t : ℕ) (a b : Stats) (o : Outcome) → (settle t a o).0 ≡ (settle t b o).0
unfolding settle
settle_reply t a b (answers reply) = refl
settle_reply t a b (fails status message) = refl
settle_reply t a b (fails_late status message) = refl
settle_reply t a b panics = refl

module _ (out : Outside) (settings : Settings) (config : Config out.net) where
  pub valid-IsKey : (key : Text) → validate_upload_key out.platform key ≡ ok tt → IsKey key
  valid-IsKey key h =
      let (len, digits) = (validate_upload_key_iff out.platform key).0 h in
      (
        stripped_not_empty key len,
        unstripped key (hex_lacks_slash (strip_upload_prefix key) digits),
      )

  download_key_of-IsKey :
      (key : Text)
      → validate_upload_key out.platform key ≡ ok tt
      → IsKey (download_key_of out.platform key)
  download_key_of-IsKey key h =
      let (down, e, same, len, digits) = derive_download_key_of_valid out.platform key h in
      rw (sym same) (not_empty down len, lower_lacks_slash down digits)

  -- What an upload leaves in the storage.
  abbrev pub uploaded_storage :
      Inbound → Text → StorageInstance out.badger → StorageInstance out.badger
  uploaded_storage r key s =
      (Service.upload out.platform out.badger out.codec r.visit.run key
        (request_params out.platform out.badger out.codec r.visit r.request []) s).1

  pub serve-upload :
      (r : Inbound) (w : Site out settings) (key : Text)
      → IsKey key
      → r.incoming.http_method ≡ codes "GET"
      → r.path ≡ codes "/u/" ++ key
      → IsGranted out.net (Backend out settings) config r.incoming w
      → (serve out settings config r w).1.rest.storage ≡ uploaded_storage r key w.rest.storage
  unfolding endpoint upload_handler handle_upload compare_text
  serve-upload r w key k get at g =
      let (w', stats, rest, served) =
        serve-granted out settings config r w upload ((codes "uploadKey", key) ∷ [])
          (rw (get, at) (find_route-upload out.mux key k)) g in
      ap (λ x. x.1.rest.storage) served ∙ ap (λ b. uploaded_storage r key b.storage) rest

  serve-plain :
      (r : Inbound) (w : Site out settings) (key name : Text)
      → IsKey key
      → all is_no_break name ≡ true
      → r.incoming.http_method ≡ codes "GET"
      → r.path ≡ codes "/d/" ++ (key ++ (codes "/plain/" ++ name))
      → IsGranted out.net (Backend out settings) config r.incoming w
      → (serve out settings config r w).0
        ≡ (settle r.visit.counted_at w.stats (
            plain_outcome out.platform out.badger out.codec out.web false r.visit.run key name
              w.rest.storage)).0
  unfolding endpoint download_plain_handler compare_text
  serve-plain r w key name k b get at g =
      let vars : Vars = (codes "downloadKey", key) ∷ (codes "param", name) ∷ [] in
      let (w', stats, rest, served) =
        serve-granted out settings config r w download_plain vars
          (rw (get, at) (find_route-plain out.mux key name k b)) g in
      ap (λ x. x.0) served
      ∙ settle_reply r.visit.counted_at w'.stats w.stats (
          plain_outcome out.platform out.badger out.codec out.web false r.visit.run key name
            w'.rest.storage)
      ∙ ap
          (λ b.
            (settle r.visit.counted_at w.stats (
              plain_outcome out.platform out.badger out.codec out.web false r.visit.run key name
                b.storage)).0)
          rest

  -- A device uploads by a GET of "/u/" and a valid key, and a visitor reads by a GET of "/d/", the
  -- key's download key, "/plain/" and a name, with any requests in between that may not write. The
  -- visitor is answered with 200 and the sanitized value of the device's parameter of that name.
  -- The middleware lets both through, the upload is valid UTF-8, its write and the read complete, the
  -- breaker is closed, the time to live has a second to go, and the name has no slash and no line
  -- break, is not "timestamp" and does not end in "_timestamp".
  pub serve-upload_then_plain :
      (device visitor : Inbound) (between : List Inbound) (w : Site out settings)
      (key name v : Text)
      → validate_upload_key out.platform key ≡ ok tt
      → AreValid out.codec.valid_text
          (request_params out.platform out.badger out.codec device.visit device.request [])
      → w.rest.storage.degraded ≡ 0
      → device.visit.run.write ≡ WriteRun.completes
      → visitor.visit.run.read ≡ ReadRun.completes
      → visitor.visit.run.read_at + second
        ≤ device.visit.run.write_at + w.rest.storage.persist_duration
      → LacksByte b'/' name
      → all is_no_break name ≡ true
      → timestamp ≢ name
      → ((k : Text) → k ++ timestamp_suffix ≢ name)
      → value_of name (collect_params device.request.query) ≡ some v
      → device.incoming.http_method ≡ codes "GET"
      → device.path ≡ codes "/u/" ++ key
      → IsGranted out.net (Backend out settings) config device.incoming w
      → All (λ r. may_write r.incoming.http_method r.path ≡ false) between
      → visitor.incoming.http_method ≡ codes "GET"
      → visitor.path
        ≡ codes "/d/" ++ (download_key_of out.platform key ++ (codes "/plain/" ++ name))
      → IsGranted out.net
          (Backend out settings)
          config
          visitor.incoming
          (serve_all out settings config between (serve out settings config device w).1)
      → (serve out settings config visitor
          (serve_all out settings config between (serve out settings config device w).1)).0
        ≡ some
            (record { status = 200; content_type = codes "text/plain"; body = line_body (str v) })
  unfolding upload_handler handle_upload download_plain_handler
  serve-upload_then_plain device visitor between w key name v valid plain up writes reads live
        slash_free break_free no_stamp no_suffix given get at g quiet get' at' g' =
      let middle = serve_all out settings config between (serve out settings config device w).1 in
      let down : Text = download_key_of out.platform key in
      let left : middle.rest.storage ≡ uploaded_storage device key w.rest.storage =
        serve_all-keeps_storage out settings config between (serve out settings config device w).1
          quiet
        ∙ serve-upload device w key (valid-IsKey key valid) get at g in
      let outcome : StorageInstance out.badger → Outcome =
        plain_outcome out.platform out.badger out.codec out.web false visitor.visit.run down name in
      serve-plain visitor middle down name (download_key_of-IsKey key valid) break_free get' at' g'
      ∙ ap (λ s. (settle visitor.visit.counted_at middle.stats (outcome s)).0) left
      ∙ settle_reply visitor.visit.counted_at middle.stats _
          (outcome (uploaded_storage device key w.rest.storage))
      ∙ ap (λ x. x.0)
          (download_plain-upload out.platform out.badger out.codec out.web device.visit
            visitor.visit device.request key (rest_server out settings w) name v valid plain up
            writes reads live slash_free no_stamp no_suffix given)
