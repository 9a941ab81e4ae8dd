-- ===== src/Domain/Tests.antt =====
-- Runs of the key functions, and the theorems at concrete keys.
use iot_ephemeral_value_stor.Base.{
  ◌≡◌, refl, true, [], ◌∷◌, ◌++◌, Text, codes, length, replicate, all, ok, err, key_length,
  not_hex_key, arith, ◌==◌, if◌then◌else◌, ◌↔◌,
}
use iot_ephemeral_value_stor.Hex.{is_hex_digit, AreBytes, encode_to_string}
use iot_ephemeral_value_stor.Domain.{
  Platform, strip_upload_prefix, add_upload_prefix, derive_download_key, validate_upload_key,
}
use iot_ephemeral_value_stor.Domain.Keys.{
  strip_upload_prefix-add_upload_prefix, validate_upload_key_iff,
}
use iot_ephemeral_value_stor.Domain.Derive.{derive_download_key-eq_iff}

-- A digest that depends on the first byte alone, and a lower case that marks what it cannot map.
abbrev pub toy_sum256 : Text → Text
toy_sum256 [] = replicate 32 0
toy_sum256 (c ∷ s) = (if c == b'a' then 10 else 11) ∷ replicate 31 7

pub length-toy_sum256 : (s : Text) → length (toy_sum256 s) ≡ 32
length-toy_sum256 [] = refl
length-toy_sum256 (c ∷ s) = refl

pub toy_sum256-AreBytes : (s : Text) → AreBytes (toy_sum256 s)
toy_sum256-AreBytes [] = omega arith
toy_sum256-AreBytes (c ∷ s) = ground arith

abbrev pub toy_platform : Platform
toy_platform = record {
  sum256 = toy_sum256;
  length-sum256 = length-toy_sum256;
  sum256-AreBytes = toy_sum256-AreBytes;
  unicode_lower = λ s. b'?' ∷ [];
  unicode_lower_not_hex = λ s e. refl;
  rfc3339 = λ now. replicate 20 b'0';
  rfc3339-ascii = λ now. refl;
}

abbrev pub lower_key : Text
lower_key = replicate 64 b'a'

abbrev pub upper_key : Text
upper_key = replicate 64 b'A'

validate_runs :
    (validate_upload_key toy_platform lower_key ≡ ok tt)
    × (validate_upload_key toy_platform upper_key ≡ ok tt)
    × (validate_upload_key toy_platform (codes "u_" ++ lower_key) ≡ ok tt)
    × (validate_upload_key toy_platform (b'a' ∷ lower_key) ≡ err not_hex_key)
    × (validate_upload_key toy_platform (b'g' ∷ replicate 63 b'a') ≡ err not_hex_key)
    × (validate_upload_key toy_platform (233 ∷ lower_key) ≡ err not_hex_key)
unfolding validate_upload_key
validate_runs = (refl, refl, refl, refl, refl, refl)

derive_runs :
    (derive_download_key toy_platform (codes "abc") ≡ err (key_length 3))
    × (derive_download_key toy_platform lower_key
        ≡ ok (codes "0a" ++ encode_to_string (replicate 31 7)))
unfolding derive_download_key
derive_runs = (refl, refl)

pub lower_key-valid : validate_upload_key toy_platform lower_key ≡ ok tt
lower_key-valid = validate_runs.0

strip_upload_prefix-add_upload_prefix_example :
    strip_upload_prefix (add_upload_prefix lower_key) ≡ lower_key
strip_upload_prefix-add_upload_prefix_example = strip_upload_prefix-add_upload_prefix lower_key

validate_upload_key_iff_example : (validate_upload_key toy_platform lower_key ≡ ok tt) ↔ (
    (length (strip_upload_prefix lower_key) ≡ 64)
    × (all is_hex_digit (strip_upload_prefix lower_key) ≡ true))
validate_upload_key_iff_example = validate_upload_key_iff toy_platform lower_key

derive_download_key-eq_iff_example :
    (derive_download_key toy_platform lower_key ≡ derive_download_key toy_platform upper_key)
    ↔ (toy_sum256 (strip_upload_prefix lower_key) ≡ toy_sum256 (strip_upload_prefix upper_key))
derive_download_key-eq_iff_example =
    derive_download_key-eq_iff toy_platform lower_key upper_key validate_runs.0 validate_runs.1
