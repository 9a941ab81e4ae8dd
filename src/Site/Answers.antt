-- ===== src/Site/Answers.antt =====
-- Outcomes of the readers' handlers that are answers.
use iot_ephemeral_value_stor.Base.{
  ℕ, ◌≡◌, ◌⊎◌, false, Option, none, some, Option-cases, List, [], Text, codes, Result, ok, err,
  panic, Bool-cases, inl, inr, contains, error_text, map, Error, parameter_not_found,
  invalid_parameter_path,
}
use iot_ephemeral_value_stor.Json.{Value, Fields, obj}
use iot_ephemeral_value_stor.Data.{traverse_field}
use iot_ephemeral_value_stor.Data.Field.{Walk, found, missing, blocked, traverse_field-Walk}
use iot_ephemeral_value_stor.Domain.{strip_download_prefix}
use iot_ephemeral_value_stor.Stats.{Stats}
use iot_ephemeral_value_stor.Storage.{StorageInstance, ReadRun, get_json}
use iot_ephemeral_value_stor.Service.{Run, download_json, wrapped}
use iot_ephemeral_value_stor.Service.History.{Reached-IsSound}
use iot_ephemeral_value_stor.Http.{Reply, page_body, raw_body, collect_all_paths, sort_texts}
use iot_ephemeral_value_stor.Handlers.{
  Outcome, answers, fails, fails_late, panics, settle, field_outcome, value_outcome, page_outcome,
  with_json, with_map, plain_outcome, json_outcome, root_outcome,
}
use iot_ephemeral_value_stor.Site.{Outside, Settings}
use iot_ephemeral_value_stor.Site.Histories.{IsReached}

abbrev pub IsCalm : Outcome → Type 0
IsCalm panics = ⊥
IsCalm _ = Unit

abbrev pub IsAnswer : Option Reply → Type 0
IsAnswer none = ⊥
IsAnswer (some reply) = Unit

pub settle-IsAnswer :
    (t : ℕ) (stats : Stats) (o : Outcome) → IsCalm o → IsAnswer (settle t stats o).0
unfolding settle
settle-IsAnswer t stats (answers reply) h = tt
settle-IsAnswer t stats (fails status message) h = tt
settle-IsAnswer t stats (fails_late status message) h = tt
settle-IsAnswer t stats panics h = h

module _ (out : Outside) (settings : Settings) where
  -- A JSON text that is returned decodes to a map or with an error, never to the nil map.
  abbrev IsDecodable : Result Text → Type 0
  IsDecodable (ok b) =
      ((m : Fields) × (out.codec.unmarshal b ≡ ok (some m)))
      ⊎ ((e : Error) × (out.codec.unmarshal b ≡ err e))
  IsDecodable (err e) = Unit
  IsDecodable panic = ⊥

  get_json-IsDecodable :
      (context : Text) (read : ReadRun) (now : ℕ) (key : Text) (s : StorageInstance out.badger)
      → IsReached out settings s
      → IsDecodable (wrapped context (get_json out.badger read now key s))
  unfolding get_json
  get_json-IsDecodable context (ReadRun.done_before c) now key s h = tt
  get_json-IsDecodable context (ReadRun.fails e) now key s h = tt
  get_json-IsDecodable context (ReadRun.interrupted c) now key s h = tt
  get_json-IsDecodable context ReadRun.completes now key s h =
      elim (Option-cases (out.badger.get now key s.db)) [
        | inl e ↦ rw e tt
        | inr (b, e) ↦
            let (m, encoded, doc) =
              (Reached-IsSound out.platform out.badger out.codec h).held now key b e in
            rw e (elim (out.codec.unmarshal-marshal_deep doc.0.0 m b doc.0.1 doc.1 encoded) [
              | inl decoded ↦ inl (m, decoded)
              | inr broken ↦ inr broken
            ])
      ]

  decodable-IsCalm :
      (answer : Fields → Outcome) (r : Result Text)
      → ((m : Fields) → IsCalm (answer m))
      → IsDecodable r
      → IsCalm (with_json (λ b. with_map answer (out.codec.unmarshal b)) r)
  decodable-IsCalm answer (ok b) h (inl (m, decoded)) = rw decoded (h m)
  decodable-IsCalm answer (ok b) h (inr (e, broken)) = rw broken tt
  decodable-IsCalm answer (err e) h d = tt
  decodable-IsCalm answer panic h d = d

  error-IsCalm : (e : Error) → IsCalm (field_outcome out.web false (err e))
  error-IsCalm e = elim (Bool-cases (contains (error_text e) (codes "not found"))) [
    | inl x ↦ rw x tt
    | inr x ↦ rw x tt
  ]

  field-IsCalm :
      (path : Text) (keys : List Text) (v : Value) (r : Result Value)
      → Walk path keys v r
      → IsCalm (field_outcome out.web false r)
  unfolding value_outcome
  field-IsCalm path keys v _ (found w g) = tt
  field-IsCalm path keys v _ (missing m) = error-IsCalm (parameter_not_found path)
  field-IsCalm path keys v _ (blocked b) = error-IsCalm (invalid_parameter_path path)

  page-IsCalm : (key : Text) (m : Fields) → IsCalm (page_outcome out.web key m)
  page-IsCalm key m = by_page (
      out.web.download_page key
        (map (λ path. (out.web.path_escape path, path)) (sort_texts (collect_all_paths m []))))
    where
      by_page :
          (o : Option Text)
          → IsCalm (elim o [
            | none ↦ fails_late 500 (codes "Error rendering template")
            | some page ↦ answers (record {
              status = 200;
              content_type = codes "text/html; charset=utf-8";
              body = page_body page;
            })
          ])
      by_page none = tt
      by_page (some page) = tt

  pub plain-IsCalm :
      (run : Run) (key param : Text) (s : StorageInstance out.badger)
      → IsReached out settings s
      → IsCalm (plain_outcome out.platform out.badger out.codec out.web false run key param s)
  unfolding plain_outcome download_json
  plain-IsCalm run key param s h =
      decodable-IsCalm (λ m. field_outcome out.web false (traverse_field m param)) _
        (λ m. field-IsCalm param _ (obj m) _ (traverse_field-Walk m param))
        (get_json-IsDecodable _ run.read run.read_at (strip_download_prefix key) s h)

  pub root-IsCalm :
      (run : Run) (key : Text) (s : StorageInstance out.badger)
      → IsReached out settings s
      → IsCalm (root_outcome out.platform out.badger out.codec out.web run key s)
  unfolding root_outcome download_json
  root-IsCalm run key s h =
      decodable-IsCalm (page_outcome out.web key) _ (page-IsCalm key)
        (get_json-IsDecodable _ run.read run.read_at (strip_download_prefix key) s h)

  pub json-IsCalm :
      (run : Run) (key : Text) (s : StorageInstance out.badger)
      → IsReached out settings s
      → IsCalm (json_outcome out.platform out.badger out.codec run key s)
  unfolding json_outcome download_json
  json-IsCalm run key s h =
      by_result _ (get_json-IsDecodable _ run.read run.read_at (strip_download_prefix key) s h)
    where
      by_result :
          (r : Result Text)
          → IsDecodable r
          → IsCalm (
              with_json
                (λ json_data. answers (record {
                  status = 200;
                  content_type = codes "application/json";
                  body = raw_body json_data;
                }))
                r)
      by_result (ok b) d = tt
      by_result (err e) d = tt
      by_result panic d = d
