-- ===== src/Http/Input.antt =====
-- From the query of a request to the parameters that are stored.
use iot_ephemeral_value_stor.Base.{
  ℕ, ◌≡◌, refl, ◌≢◌, ◌⊎◌, Bool, true, false, Option, none, some, [], ◌∷◌, ◌++◌, Text, text_eq,
  arith, all, ◌==◌, if◌then◌else◌, compare_text_refl, eq_of_compare_text, inl, inr, Option-cases,
}
use iot_ephemeral_value_stor.Json.Sorted.{or_else}
use iot_ephemeral_value_stor.Service.{Params, timestamp}
use iot_ephemeral_value_stor.Service.Params.{value_of}
use iot_ephemeral_value_stor.Http.{
  sanitize_input, escape_byte, add_timestamp_to_this_data, key_stamps, timestamp_suffix,
}

-- A byte that ends neither an attribute nor a text of a page.
abbrev pub is_inert : ℕ → Bool
is_inert c =
    if c == b'<'
    then false
    else if c == b'>'
    then false
    else if c == 34
    then false
    else if c == 39
    then false
    else true

all-escape_byte :
    (c : ℕ) (t : Text) → all is_inert t ≡ true → all is_inert (escape_byte c ++ t) ≡ true
all-escape_byte c t h = ground arith

-- A sanitized text has no angle bracket and no quote.
pub sanitize_input-inert : (t : Text) → all is_inert (sanitize_input t) ≡ true
unfolding sanitize_input
sanitize_input-inert [] = refl
sanitize_input-inert (c ∷ t) = all-escape_byte c (sanitize_input t) (sanitize_input-inert t)

value_of-append :
    (name : Text) (p q : Params)
    → value_of name (p ++ q) ≡ or_else (value_of name q) (value_of name p)
unfolding value_of
value_of-append name [] q = ground arith
value_of-append name ((k, v) ∷ p) q = ground (arith, value_of-append name p q)

value_of-key_stamps_ne :
    (name t : Text) (params : Params)
    → ((k : Text) → k ++ timestamp_suffix ≢ name)
    → value_of name (key_stamps t params) ≡ none
unfolding value_of
value_of-key_stamps_ne name t [] h = refl
value_of-key_stamps_ne name t ((k, v) ∷ params) h = ground (
  arith,
  value_of-key_stamps_ne name t params h,
  h k,
  eq_of_compare_text (k ++ timestamp_suffix) name,
)

text_eq_refl : (t : Text) → text_eq t t ≡ true
text_eq_refl t = ground (arith, compare_text_refl t)

value_of-key_stamps_only :
    (name t : Text) (params : Params)
    → (value_of name (key_stamps t params) ≡ none) ⊎ (value_of name (key_stamps t params) ≡ some t)
unfolding value_of
value_of-key_stamps_only name t [] = inl refl
value_of-key_stamps_only name t ((k, v) ∷ params) =
    ground (arith, value_of-key_stamps_only name t params)

value_of-key_stamps :
    (k v t : Text) (params : Params)
    → value_of k params ≡ some v
    → value_of (k ++ timestamp_suffix) (key_stamps t params) ≡ some t
unfolding value_of
value_of-key_stamps k v t [] h = absurd (ground arith)
value_of-key_stamps k v t ((j, w) ∷ params) h = elim (Option-cases (value_of k params)) [
  | inl e ↦
      let same : j ≡ k = ground (arith, eq_of_compare_text j k) in
      rw (same, text_eq_refl (k ++ timestamp_suffix))
        (of_found (value_of-key_stamps_only (k ++ timestamp_suffix) t params))
  | inr (u, e) ↦ rw (value_of-key_stamps k u t params e) refl
]
  where
    of_found : {o : Option Text} → (o ≡ none) ⊎ (o ≡ some t) → or_else o (some t) ≡ some t
    of_found (inl e) = rw e refl
    of_found (inr e) = rw e refl

-- A parameter whose name is neither "timestamp" nor another text with "_timestamp" behind it is
-- stored with its own value, at the root and under a path.
pub add_timestamp_to_this_data-kept :
    (key_time time name path : Text) (params : Params)
    → timestamp ≢ name
    → ((k : Text) → k ++ timestamp_suffix ≢ name)
    → value_of name (add_timestamp_to_this_data key_time time params path) ≡ value_of name params
unfolding add_timestamp_to_this_data value_of
add_timestamp_to_this_data-kept key_time time name [] params h g = ground (
  arith,
  value_of-append name params (key_stamps key_time params),
  value_of-append name (params ++ key_stamps key_time params) ((timestamp, time) ∷ []),
  value_of-key_stamps_ne name key_time params g,
  eq_of_compare_text timestamp name,
)
add_timestamp_to_this_data-kept key_time time name (c ∷ path) params h g =
    ground (
      arith,
      value_of-append name params ((timestamp, time) ∷ []),
      eq_of_compare_text timestamp name,
    )

-- At the root, each parameter gets a time stamp of its own beside it.
add_timestamp_to_this_data-stamped :
    (key_time time k v : Text) (params : Params)
    → timestamp ≢ k ++ timestamp_suffix
    → value_of k params ≡ some v
    → value_of (k ++ timestamp_suffix) (add_timestamp_to_this_data key_time time params [])
      ≡ some key_time
unfolding add_timestamp_to_this_data value_of
add_timestamp_to_this_data-stamped key_time time k v params h e = ground (
  arith,
  value_of-append (k ++ timestamp_suffix) params (key_stamps key_time params),
  value_of-append (k ++ timestamp_suffix) (params ++ key_stamps key_time params)
      ((timestamp, time) ∷ []),
  value_of-key_stamps k v key_time params e,
  eq_of_compare_text timestamp (k ++ timestamp_suffix),
)
