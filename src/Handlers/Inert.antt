-- ===== src/Handlers/Inert.antt =====
-- What the REST interface stores of its parameters.
use iot_ephemeral_value_stor.Base.{
  ℕ, ◌≡◌, ◌≢◌, sym, subst, refl, ◌∙◌, ap, Bool, true, false, ◌⊎◌, inl, inr, Option, none, some,
  List, [], ◌∷◌, ◌++◌, Text, all, text_eq, text_eq_ne, if◌then◌else◌,
}
use iot_ephemeral_value_stor.Json.{Value, Fields, str, obj, end, lookup}
use iot_ephemeral_value_stor.Json.Sorted.{or_else}
use iot_ephemeral_value_stor.Domain.{Platform}
use iot_ephemeral_value_stor.Data.View.{get, target}
use iot_ephemeral_value_stor.Data.Merge.{merge_data_at_path-written}
use iot_ephemeral_value_stor.Codec.{Codec}
use iot_ephemeral_value_stor.Storage.{Badger}
use iot_ephemeral_value_stor.Service.{copy_params, timestamp, uploaded, patched}
use iot_ephemeral_value_stor.Service.Params.{
  value_of, as_value, lookup-copy_params, copy_params-IsSorted,
}
use iot_ephemeral_value_stor.Service.Upload.{lookup-uploaded}
use iot_ephemeral_value_stor.Service.Patch.{StartsAtTimestamp, get-stamp}
use iot_ephemeral_value_stor.Http.{Request, collect_params, sanitize_input, timestamp_suffix}
use iot_ephemeral_value_stor.Http.Input.{
  is_inert, sanitize_input-inert, add_timestamp_to_this_data-kept,
}
use iot_ephemeral_value_stor.Handlers.{Visit, request_params}

-- A text without angle brackets and quotes.
abbrev pub IsInert : Value → Type 0
IsInert v = (t : Text) × (v ≡ str t) × (all is_inert t ≡ true)

-- What is found, if anything, is such a text, or was there before.
abbrev pub IsInertOrOld : Option Value → Option Value → Type 0
IsInertOrOld none before = Unit
IsInertOrOld (some v) before = IsInert v ⊎ (before ≡ some v)

abbrev IsInertText : Option Text → Type 0
IsInertText none = Unit
IsInertText (some t) = all is_inert t ≡ true

or_else-IsInertText :
    (o p : Option Text) → IsInertText o → IsInertText p → IsInertText (or_else o p)
or_else-IsInertText none p h g = g
or_else-IsInertText (some t) p h g = h

collect_params-IsInert :
    (query : List (Text × List Text)) (name : Text)
    → IsInertText (value_of name (collect_params query))
unfolding collect_params value_of
collect_params-IsInert [] name = tt
collect_params-IsInert ((key, []) ∷ query) name = collect_params-IsInert query name
collect_params-IsInert ((key, value ∷ _) ∷ query) name =
    or_else-IsInertText _ _ (collect_params-IsInert query name) (by_name (text_eq key name))
  where
    by_name : (b : Bool) → IsInertText (if b then some (sanitize_input value) else none)
    by_name true = sanitize_input-inert value
    by_name false = tt

as_value-IsInert :
    (o : Option Text) (before : Option Value)
    → IsInertText o
    → IsInertOrOld (or_else (as_value o) before) before
as_value-IsInert none none h = tt
as_value-IsInert none (some v) h = inr refl
as_value-IsInert (some t) before h = inl (t, refl, h)

module _ (platform : Platform) (badger : Badger) (codec : Codec) (visit : Visit) (r : Request) where
  open platform use {rfc3339}

  request_params-IsInert :
      (path name : Text)
      → timestamp ≢ name
      → ((k : Text) → k ++ timestamp_suffix ≢ name)
      → IsInertText (value_of name (request_params platform badger codec visit r path))
  request_params-IsInert path name no_stamp no_suffix =
      subst IsInertText
        (sym (
          add_timestamp_to_this_data-kept (rfc3339 visit.key_time) (rfc3339 visit.time) name path
            (collect_params r.query) no_stamp no_suffix))
        (collect_params-IsInert r.query name)

  -- Under a parameter's name, which is neither "timestamp" nor ends in "_timestamp", the document
  -- that an upload by the REST interface stores has nothing or a text without angle brackets and
  -- quotes, whatever the request holds, and so has the one that a patch stores there behind its
  -- path, or it has what stood there before, where the keys do not begin with "timestamp".
  pub stored-IsInert :
      (now : ℕ) (m : Fields) (path name : Text)
      → timestamp ≢ name
      → ((k : Text) → k ++ timestamp_suffix ≢ name)
      → (StartsAtTimestamp (target path ++ name ∷ []) → ⊥)
      → IsInertOrOld
          (lookup name (uploaded platform now (request_params platform badger codec visit r [])))
          none
        × IsInertOrOld
            (get (target path ++ name ∷ []) (
              obj
                (patched platform now m path (request_params platform badger codec visit r path))))
            (get (target path ++ name ∷ []) (obj m))
  unfolding lookup
  stored-IsInert now m path name no_stamp no_suffix apart = (
    subst (λ o. IsInertOrOld o none)
        (sym (
          lookup-uploaded platform codec now (request_params platform badger codec visit r [])
            name))
        (rw (text_eq_ne timestamp name no_stamp) (
          subst (λ o. IsInertOrOld o none) (or_else-none _)
            (as_value-IsInert _ none (request_params-IsInert [] name no_stamp no_suffix)))),
    subst (λ o. IsInertOrOld o (get (target path ++ name ∷ []) (obj m)))
        (sym (
          get-stamp (str (rfc3339 now)) _ (target path) name apart
          ∙ merge_data_at_path-written m
              (copy_params end (request_params platform badger codec visit r path)) path name
              (copy_params-IsSorted end _ tt)
          ∙ ap (λ o. or_else o (get (target path ++ name ∷ []) (obj m)))
              (lookup-copy_params name end (request_params platform badger codec visit r path)
                ∙ or_else-none _)))
        (as_value-IsInert _ _ (request_params-IsInert path name no_stamp no_suffix)),
  )
    where
      or_else-none : (o : Option Value) → or_else o none ≡ o
      or_else-none none = refl
      or_else-none (some v) = refl
