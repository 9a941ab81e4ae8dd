-- ===== src/Site/Endpoints.antt =====
-- main.go: the endpoints that main.go itself has: the health check, the stub of OAuth, the embedded
-- files and the index page.
use iot_ephemeral_value_stor.Base.{
  Bool, Option, none, some, [], ◌++◌, Text, codes, if◌then◌else◌, is_empty, ok, err, panic, decimal,
}
use iot_ephemeral_value_stor.Base.Int.{is_zero, decimal_ℤ}
use iot_ephemeral_value_stor.Json.{Value, Fields, end, field, bool, str, number}
use iot_ephemeral_value_stor.Domain.{
  generate_random_key, derive_download_key, add_upload_prefix, add_download_prefix,
}
use iot_ephemeral_value_stor.Stats.{get_current_stats, get_uptime}
use iot_ephemeral_value_stor.Storage.{HealthStatus, check_health}
use iot_ephemeral_value_stor.Http.{Reply, http_error, text_body, page_body, json_body}
use iot_ephemeral_value_stor.Site.{Outside, Settings, Inbound, PageData, Site, Answered}

module _ (out : Outside) (settings : Settings) where
  -- An empty message and no free bytes are left out.
  abbrev shown : Bool → Text → Value → Fields → Fields
  shown omitted name v m = if omitted then m else field name v m

  abbrev pub health_fields : HealthStatus → Fields
  health_fields h = field (codes "healthy") (bool h.healthy) (
      field (codes "degraded") (bool h.degraded) (
        shown (is_empty h.message) (codes "message") (str h.message) (
          shown (is_zero h.disk_free_bytes) (codes "disk_free_bytes")
            (number (decimal_ℤ h.disk_free_bytes)) end)))

  unfoldable pub health_handler : Inbound → Site out settings → Answered out settings
  unfolding decimal
  health_handler r w =
      let h = check_health out.badger r.probe r.disk_free w.rest.storage in
      (
        some (record {
          status = if h.healthy then 200 else 503;
          content_type = codes "application/json";
          body = json_body (health_fields h);
        }),
        w,
      )

  unfoldable pub oauth_handler : Inbound → Site out settings → Answered out settings
  unfolding decimal
  oauth_handler r w =
      let host : Text =
        if is_empty r.request.host
        then codes "localhost:" ++ decimal settings.port
        else r.request.host in
      (
        some (record {
          status = 200;
          content_type = codes "application/json";
          body = text_body (
              codes "{\"issuer\":"
              ++ out.pages.quoted (codes "https://" ++ host)
              ++ codes ",\"response_types_supported\":[\"none\"]}");
        }),
        w,
      )

  abbrev pub file_reply : Text → Text → Option Text → Option Reply
  file_reply content_type message none = some (http_error 404 message)
  file_reply content_type message (some content) =
      some (record { status = 200; content_type = content_type; body = text_body content })

  unfoldable pub llm_handler : Site out settings → Answered out settings
  llm_handler w = (
    file_reply (codes "text/plain; charset=utf-8") (codes "File not found") out.pages.llm_file,
    w,
  )

  unfoldable pub viewer_handler : Site out settings → Answered out settings
  viewer_handler w = (
    file_reply (codes "text/html; charset=utf-8") (codes "Viewer page not found")
        out.pages.viewer_file,
    w,
  )

  abbrev pub scheme : Inbound → Text
  scheme r =
      if r.request.tls
      then codes "https"
      else if is_empty r.forwarded_proto
      then codes "http"
      else r.forwarded_proto

  abbrev pub page_data : Inbound → Text → Text → Site out settings → PageData
  page_data r key key_down w = record {
    upload_key = add_upload_prefix key;
    download_key = add_download_prefix key_down;
    data_retention = settings.persist_duration_text;
    version = settings.version;
    build_time = settings.build_time;
    base_url = scheme r ++ codes "://" ++ r.request.host;
    uptime = get_uptime r.uptime_at w.stats;
    state_data = (get_current_stats r.stats_at w.stats).1;
    mcp_state_data = (get_current_stats r.mcp_stats_at w.rest.mcp_stats).1;
  }

  -- Reading the counters brings them up to date.
  abbrev pub page_for : Inbound → Text → Text → Site out settings → Answered out settings
  page_for r key key_down w = (
    some (record {
      status = 200;
      content_type = [];
      body = page_body (out.pages.index_page (page_data r key key_down w));
    }),
    record w {
      stats = (get_current_stats r.stats_at w.stats).0;
      rest = record w.rest { mcp_stats = (get_current_stats r.mcp_stats_at w.rest.mcp_stats).0 };
    },
  )

  unfoldable pub template_handler : Inbound → Site out settings → Answered out settings
  unfolding get_current_stats get_uptime derive_download_key generate_random_key
  template_handler r w = elim (generate_random_key r.random_bytes) [
    | none ↦ (none, w)
    | some key ↦ elim (derive_download_key out.platform key) [
      | err e ↦ (some (http_error 500 (codes "Error deriving download key")), w)
      | panic ↦ (none, w)
      | ok key_down ↦ page_for r key key_down w
    ]
  ]
