-- ===== src/Site/Index.antt =====
-- The keys that the index page gives to a visitor.
use iot_ephemeral_value_stor.Base.{
  ◌≡◌, refl, sym, ap, ◌∙◌, some, [], Text, codes, length, Result, ok, err, panic, compare_text,
  Option, none,
}
use iot_ephemeral_value_stor.Hex.{encode_to_string, AreBytes}
use iot_ephemeral_value_stor.Domain.{
  validate_upload_key, derive_download_key, generate_random_key, strip_download_prefix,
}
use iot_ephemeral_value_stor.Domain.Derive.{
  generate_random_key-valid, derive_download_key_of_valid,
  strip_download_prefix-derive_download_key,
}
use iot_ephemeral_value_stor.Service.{authorised}
use iot_ephemeral_value_stor.Http.{page_body, http_error}
use iot_ephemeral_value_stor.Middleware.{Config}
use iot_ephemeral_value_stor.Router.{Mux, routes, find_route, index}
use iot_ephemeral_value_stor.Router.Matching.{match_pieces}
use iot_ephemeral_value_stor.Router.Taken.{separated}
use iot_ephemeral_value_stor.Site.{Outside, Settings, Inbound, PageData, Backend, Site, Answered}
use iot_ephemeral_value_stor.Site.Endpoints.{template_handler, page_data, page_for}
use iot_ephemeral_value_stor.Site.Serving.{endpoint, serve}
use iot_ephemeral_value_stor.Site.Passing.{IsGranted, serve-granted}

find_route-index : (mux : Mux) → find_route mux routes (codes "GET") (codes "/") ≡ some (index, [])
unfolding find_route match_pieces compare_text
find_route-index mux = separated mux (codes "GET") (codes "/") ∙ refl

module _ (out : Outside) (settings : Settings) (config : Config out.net) where
  -- The keys of a page belong together: the upload key is valid, and leads to the download key.
  abbrev pub AreKeys : PageData → Type 0
  AreKeys page =
      (validate_upload_key out.platform page.upload_key ≡ ok tt)
      × (authorised out.platform page.upload_key ≡ ok (strip_download_prefix page.download_key))

  template_handler-page :
      (r : Inbound) (w : Site out settings) (key down : Text)
      → generate_random_key r.random_bytes ≡ some key
      → derive_download_key out.platform key ≡ ok down
      → template_handler out settings r w ≡ page_for out settings r key down w
  unfolding template_handler
  template_handler-page r w key down e d = ap by_key e ∙ ap (by_pair key) d
    where
      by_pair : Text → Result Text → Answered out settings
      by_pair k p = elim p [
        | err x ↦ (some (http_error 500 (codes "Error deriving download key")), w)
        | panic ↦ (none, w)
        | ok key_down ↦ page_for out settings r k key_down w
      ]

      by_key : Option Text → Answered out settings
      by_key o = elim o [
        | none ↦ (none, w)
        | some k ↦ by_pair k (derive_download_key out.platform k)
      ]

  -- A GET of "/" that the middleware lets through, while 32 random bytes are to be had, is answered
  -- with 200 and a page whose upload key is valid and whose download key is the one under which is
  -- read what that upload key stores.
  pub serve-index :
      (r : Inbound) (w : Site out settings) (bytes : Text)
      → r.random_bytes ≡ some bytes
      → length bytes ≡ 32
      → AreBytes bytes
      → r.incoming.http_method ≡ codes "GET"
      → r.path ≡ codes "/"
      → IsGranted out.net (Backend out settings) config r.incoming w
      → (page : PageData) × ((serve out settings config r w).0
          ≡ some (record {
            status = 200;
            content_type = [];
            body = page_body (out.pages.index_page page);
          }))
        × AreKeys page
  unfolding endpoint generate_random_key authorised
  serve-index r w bytes given len small get at g =
      let key : Text = encode_to_string bytes in
      let (valid, prefixed, same) =
        generate_random_key-valid out.platform bytes key len small refl in
      let (down, derived, digest, _, _) = derive_download_key_of_valid out.platform key valid in
      let (w', stats, rest, served) =
        serve-granted out settings config r w index [] (rw (get, at) (find_route-index out.mux))
          g in
      (
        page_data out settings r key down w',
        ap (λ x. x.0) served
            ∙ ap (λ x. x.0)
                (template_handler-page r w' key down (ap generate_random_key given) derived),
        (
          prefixed,
          rw (authorised, prefixed, same, derived)
              (ap ok (
                sym
                  (strip_download_prefix-derive_download_key out.platform key down valid
                    derived).1)),
        ),
      )
