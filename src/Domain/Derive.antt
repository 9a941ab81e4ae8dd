-- ===== src/Domain/Derive.antt =====
-- From valid keys to download keys, and the keys that the program makes.
use mathlib.Core.Option.{some-injective}
use iot_ephemeral_value_stor.Base.{
  ℕ, ◌≡◌, refl, sym, ap, ◌∙◌, ◌↔◌, true, [], ◌∷◌, some, Text, length, all, ok, arith,
}
use iot_ephemeral_value_stor.Hex.{
  AreBytes, is_hex_digit, is_lower_digit, encode_to_string, decode_string, length-encode_to_string,
  all-encode_to_string, decode_string-encode_to_string,
}
use iot_ephemeral_value_stor.Domain.{
  Platform, strip_upload_prefix, add_upload_prefix, strip_download_prefix, add_download_prefix,
  generate_random_key, derive_download_key, validate_upload_key,
}
use iot_ephemeral_value_stor.Domain.Keys.{
  validate_upload_key_iff, strip_upload_prefix_of_hex, strip_download_prefix_of_hex,
  strip_upload_prefix-add_upload_prefix,
}

hex_of_lower : (s : Text) → all is_lower_digit s ≡ true → all is_hex_digit s ≡ true
hex_of_lower [] h = refl
hex_of_lower (c ∷ s) h = ground (arith, hex_of_lower s, digit c)
  where
    digit : (c : ℕ) → is_lower_digit c ≡ true → is_hex_digit c ≡ true
    digit c h = ground arith

encode_to_string-injective :
    (s t : Text) → AreBytes s → AreBytes t → encode_to_string s ≡ encode_to_string t → s ≡ t
encode_to_string-injective s t hs ht e = some-injective s t (
    sym (decode_string-encode_to_string s hs)
    ∙ ap decode_string e
    ∙ decode_string-encode_to_string t ht)

module _ (platform : Platform) where
  open platform use {sum256, length-sum256, sum256-AreBytes}

  -- What validation accepts never fails in the derivation: the download key is the digest of the
  -- key without its prefix, as 64 lower-case hexadecimal digits.
  pub derive_download_key_of_valid :
      (key : Text)
      → validate_upload_key platform key ≡ ok tt
      → (down : Text) × (derive_download_key platform key ≡ ok down)
        × (down ≡ encode_to_string (sum256 (strip_upload_prefix key)))
        × (length down ≡ 64)
        × (all is_lower_digit down ≡ true)
  unfolding derive_download_key
  derive_download_key_of_valid key h =
      let digest : Text = sum256 (strip_upload_prefix key) in
      let (len, digits) = (validate_upload_key_iff platform key).0 h in
      (
        encode_to_string digest,
        rw len refl,
        refl,
        omega (arith, length-encode_to_string digest, length-sum256 (strip_upload_prefix key)),
        all-encode_to_string digest (sum256-AreBytes (strip_upload_prefix key)),
      )

  -- A derived download key may be given with its prefix or without: stripping yields the key.
  pub strip_download_prefix-derive_download_key :
      (key down : Text)
      → validate_upload_key platform key ≡ ok tt
      → derive_download_key platform key ≡ ok down
      → (strip_download_prefix down ≡ down)
        × (strip_download_prefix (add_download_prefix down) ≡ down)
  unfolding add_download_prefix strip_download_prefix
  strip_download_prefix-derive_download_key key down h e =
      let (d, e', _, _, digits) = derive_download_key_of_valid key h in
      let same : d ≡ down = cc in
      (strip_download_prefix_of_hex down (hex_of_lower down (rw same at digits)), refl)

  -- Two valid upload keys share a download key exactly when the digests of their stripped texts
  -- are the same.
  pub derive_download_key-eq_iff :
      (key other : Text)
      → validate_upload_key platform key ≡ ok tt
      → validate_upload_key platform other ≡ ok tt
      → (derive_download_key platform key ≡ derive_download_key platform other)
        ↔ (sum256 (strip_upload_prefix key) ≡ sum256 (strip_upload_prefix other))
  derive_download_key-eq_iff key other h k =
      let (d, e, f, _, _) = derive_download_key_of_valid key h in
      let (d', e', f', _, _) = derive_download_key_of_valid other k in
      (
        λ p.
            encode_to_string-injective _ _ (sum256-AreBytes (strip_upload_prefix key))
              (sum256-AreBytes (strip_upload_prefix other)) (cc),
        λ p. cc,
      )

  -- The derivation looks at the key behind its prefix only.
  derive_download_key-strip :
      (key other : Text)
      → strip_upload_prefix key ≡ strip_upload_prefix other
      → derive_download_key platform key ≡ derive_download_key platform other
  unfolding derive_download_key
  derive_download_key-strip key other e = rw e

  -- A key that the program generates from 32 random bytes is valid, with the upload prefix and
  -- without it, and both derive the same download key.
  pub generate_random_key-valid :
      (bytes key : Text)
      → length bytes ≡ 32
      → AreBytes bytes
      → generate_random_key (some bytes) ≡ some key
      → (validate_upload_key platform key ≡ ok tt)
        × (validate_upload_key platform (add_upload_prefix key) ≡ ok tt)
        × (derive_download_key platform (add_upload_prefix key) ≡ derive_download_key platform key)
  unfolding generate_random_key
  generate_random_key-valid bytes key len small e =
      let same : encode_to_string bytes ≡ key = some-injective _ _ e in
      let digits : all is_hex_digit key ≡ true =
        rw same at (hex_of_lower (encode_to_string bytes) (all-encode_to_string bytes small)) in
      let bare : strip_upload_prefix key ≡ key = strip_upload_prefix_of_hex key digits in
      let behind = strip_upload_prefix-add_upload_prefix key in
      let long : length key ≡ 64 = rw (← same) (omega (arith, length-encode_to_string bytes)) in
      (
        (validate_upload_key_iff platform key).1 (rw bare (long, digits)),
        (validate_upload_key_iff platform (add_upload_prefix key)).1 (rw behind (long, digits)),
        derive_download_key-strip (add_upload_prefix key) key (behind ∙ sym bare),
      )

-- Different random bytes give different upload keys.
generate_random_key-injective :
    (bytes other : Text)
    → AreBytes bytes
    → AreBytes other
    → generate_random_key (some bytes) ≡ generate_random_key (some other)
    → bytes ≡ other
unfolding generate_random_key
generate_random_key-injective bytes other h k e =
    encode_to_string-injective bytes other h k (some-injective _ _ e)
