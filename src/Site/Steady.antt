-- ===== src/Site/Steady.antt =====
-- Sequences of requests, and the endpoints that neither need random bytes nor the MCP library, nor
-- decode base64.
use iot_ephemeral_value_stor.Base.{
  ℕ, ◌≡◌, refl, sym, subst, ◌≢◌, Bool, true, false, Option, none, some, List, [], Text, codes, All,
  Result, ok, err, panic, arith,
}
use iot_ephemeral_value_stor.Stats.{Stats}
use iot_ephemeral_value_stor.Service.{Params}
use iot_ephemeral_value_stor.Service.History.{calls-ne-panic, starts}
use iot_ephemeral_value_stor.Http.{Reply, Request}
use iot_ephemeral_value_stor.Json.{Fields}
use iot_ephemeral_value_stor.Handlers.{
  upload_handler, upload_and_patch_handler, handle_upload, delete_handler, download_json_handler,
  download_plain_handler, download_root_handler, upload_reply, delete_reply,
}
use iot_ephemeral_value_stor.Middleware.{Incoming, Config, Handler, chain}
use iot_ephemeral_value_stor.Middleware.Passage.{
  Passage, passes, preflight, refused, over, chain-Passage,
}
use iot_ephemeral_value_stor.Router.{
  Vars, var_of, Endpoint, mcp, oauth_stub, health, key_pair, llm_text, viewer, upload,
  download_json, download_plain, download_base64, download_root, upload_and_patch, delete, index,
  static_files, routes, find_route,
}
use iot_ephemeral_value_stor.Site.{Outside, Settings, Inbound, Backend, Site, Answered}
use iot_ephemeral_value_stor.Site.Endpoints.{
  file_reply, health_handler, oauth_handler, llm_handler, viewer_handler,
}
use iot_ephemeral_value_stor.Site.Serving.{endpoint, serve, serve_all}
use iot_ephemeral_value_stor.Site.Histories.{IsText, IsReached}
use iot_ephemeral_value_stor.Site.Histories.{IsReadable, serve_all-IsReached}
use iot_ephemeral_value_stor.Site.Answers.{
  IsAnswer, settle-IsAnswer, plain-IsCalm, root-IsCalm, json-IsCalm,
}

abbrev pub is_steady : Endpoint → Bool
is_steady mcp = false
is_steady key_pair = false
is_steady download_base64 = false
is_steady index = false
is_steady _ = true

answered : (o : Option Reply) → IsAnswer o → o ≢ none
answered none h = absurd h
answered (some reply) h = λ e. ground (arith, e)

module _ (out : Outside) (settings : Settings) where
  upload_reply-IsAnswer :
      (t : ℕ) (r : Request) (params : Params) (stats : Stats) (result : Result (Text × Fields))
      → result ≢ panic
      → IsAnswer (upload_reply out.platform out.badger out.codec t r params stats result).0
  unfolding upload_reply
  upload_reply-IsAnswer t r params stats (ok stored) h = tt
  upload_reply-IsAnswer t r params stats (err e) h = tt
  upload_reply-IsAnswer t r params stats panic h = absurd (h refl)

  delete_reply-IsAnswer :
      (t : ℕ) (stats : Stats) (result : Result Text)
      → result ≢ panic
      → IsAnswer (delete_reply out.platform out.badger out.codec t stats result).0
  unfolding delete_reply
  delete_reply-IsAnswer t stats (ok key) h = tt
  delete_reply-IsAnswer t stats (err e) h = tt
  delete_reply-IsAnswer t stats panic h = absurd (h refl)

  file-IsAnswer :
      (content_type message : Text) (o : Option Text)
      → IsAnswer (file_reply out settings content_type message o)
  file-IsAnswer content_type message none = tt
  file-IsAnswer content_type message (some content) = tt

  endpoint-IsAnswer :
      (e : Endpoint) (vars : Vars) (r : Inbound) (w : Site out settings)
      → is_steady e ≡ true
      → IsReadable out settings r
      → IsText out settings (var_of (codes "param") vars)
      → IsReached out settings w.rest.storage
      → IsAnswer (endpoint out settings e vars r w).0
  unfolding endpoint health_handler oauth_handler llm_handler viewer_handler download_json_handler
      download_plain_handler download_root_handler upload_handler handle_upload
      upload_and_patch_handler delete_handler
  endpoint-IsAnswer mcp vars r w s v p h = ground (arith, s)
  endpoint-IsAnswer oauth_stub vars r w s v p h = tt
  endpoint-IsAnswer health vars r w s v p h = tt
  endpoint-IsAnswer key_pair vars r w s v p h = ground (arith, s)
  endpoint-IsAnswer llm_text vars r w s v p h =
      file-IsAnswer (codes "text/plain; charset=utf-8") (codes "File not found") out.pages.llm_file
  endpoint-IsAnswer viewer vars r w s v p h =
      file-IsAnswer (codes "text/html; charset=utf-8") (codes "Viewer page not found")
        out.pages.viewer_file
  endpoint-IsAnswer upload vars r w s v p h =
      upload_reply-IsAnswer r.visit.counted_at r.request _ w.stats _
        (calls-ne-panic out.platform out.badger out.codec h r.visit.run
          (var_of (codes "uploadKey") vars) (var_of (codes "param") vars) _ p (v.params [])).0
  endpoint-IsAnswer download_json vars r w s v p h =
      settle-IsAnswer r.visit.counted_at w.stats _
        (json-IsCalm out settings r.visit.run (var_of (codes "downloadKey") vars) w.rest.storage h)
  endpoint-IsAnswer download_plain vars r w s v p h = settle-IsAnswer r.visit.counted_at w.stats _ (
      plain-IsCalm out settings r.visit.run (var_of (codes "downloadKey") vars)
        (var_of (codes "param") vars) w.rest.storage h)
  endpoint-IsAnswer download_base64 vars r w s v p h = ground (arith, s)
  endpoint-IsAnswer download_root vars r w s v p h =
      settle-IsAnswer r.visit.counted_at w.stats _
        (root-IsCalm out settings r.visit.run (var_of (codes "downloadKey") vars) w.rest.storage h)
  endpoint-IsAnswer upload_and_patch vars r w s v p h =
      let path : Text = var_of (codes "param") vars in
      upload_reply-IsAnswer r.visit.counted_at r.request _ w.stats _
        (calls-ne-panic out.platform out.badger out.codec h r.visit.run
          (var_of (codes "uploadKey") vars) path _ p (v.params path)).1
  endpoint-IsAnswer delete vars r w s v p h =
      delete_reply-IsAnswer r.visit.counted_at w.stats _
        (calls-ne-panic out.platform out.badger out.codec h r.visit.run
          (var_of (codes "uploadKey") vars) (var_of (codes "param") vars) _ p (v.params [])).2
  endpoint-IsAnswer index vars r w s v p h = ground (arith, s)
  endpoint-IsAnswer static_files vars r w s v p h = tt

  Passage-IsAnswer :
      (config : Config out.net) (next : Handler out.net (Backend out settings)) (r : Incoming)
      (w : Site out settings) (x : Answered out settings)
      → Passage out.net (Backend out settings) config next r w x
      → ((w' : Site out settings) → IsReached out settings w'.rest.storage → IsAnswer (next r w').0)
      → IsReached out settings w.rest.storage
      → IsAnswer x.0
  Passage-IsAnswer config next r w _ (passes w' stats rest others) h reached =
      h w' (subst (λ b. IsReached out settings b.storage) (sym rest) reached)
  Passage-IsAnswer config next r w _ (preflight reply m s) h reached = tt
  Passage-IsAnswer config next r w _ (refused reply s) h reached = tt
  Passage-IsAnswer config next r w _ (over reply clients s others) h reached = tt

  -- After any sequence of requests of both interfaces whose texts are valid UTF-8, from a storage
  -- with an empty database and no goroutine left behind, such a request is answered, and its handler
  -- does not panic, if its route is not that of "/mcp", "/kp", "/" or the base64 download.
  pub serve_all-answered :
      (config : Config out.net) (rs : List Inbound) (r : Inbound) (w : Site out settings)
      (place : Endpoint) (vars : Vars)
      → All (IsReadable out settings) rs
      → IsReadable out settings r
      → w.rest.storage.db ≡ out.badger.empty
      → w.rest.storage.pending ≡ []
      → find_route out.mux routes r.incoming.http_method r.path ≡ some (place, vars)
      → is_steady place ≡ true
      → (serve out settings config r (serve_all out settings config rs w)).0 ≢ none
  unfolding serve
  serve_all-answered config rs r w place vars vs v fresh quiet e steady =
      let w' = serve_all out settings config rs w in
      let next : Handler out.net (Backend out settings) =
        λ _ w'. endpoint out settings place vars r w' in
      rw (serve, e)
        (answered _ (
          Passage-IsAnswer config next r.incoming w'
            (chain out.net (Backend out settings) config next r.incoming w')
            (chain-Passage out.net (Backend out settings) config next r.incoming w')
            (λ w'' h. endpoint-IsAnswer place vars r w'' steady v (v.param place vars e) h)
            (serve_all-IsReached out settings config rs w vs (starts fresh quiet))))
