-- ===== src/Domain/Keys.antt =====
-- The optional prefixes, and which upload keys are valid.
use iot_ephemeral_value_stor.Base.{
  ℕ, ◌≡◌, refl, ◌↔◌, true, [], ◌∷◌, Option, none, some, Text, length, trim_prefix,
  trim_prefix-append, to_lower, is_ascii, lower_byte, map, all, ok, arith, Bool-cases, inl, inr,
}
use iot_ephemeral_value_stor.Hex.{
  decode_string, is_hex_digit, decode_string_sound, decode_string_complete,
}
use iot_ephemeral_value_stor.Domain.{
  Platform, upload_key_prefix, strip_upload_prefix, add_upload_prefix, strip_download_prefix,
  check_decoded, validate_upload_key,
}

-- A key with its prefix stands for the key without it.
pub strip_upload_prefix-add_upload_prefix :
    (key : Text) → strip_upload_prefix (add_upload_prefix key) ≡ key
unfolding strip_upload_prefix add_upload_prefix
strip_upload_prefix-add_upload_prefix key = trim_prefix-append upload_key_prefix key

-- A text of hexadecimal digits has no prefix to lose.
pub strip_upload_prefix_of_hex :
    (key : Text) → all is_hex_digit key ≡ true → strip_upload_prefix key ≡ key
unfolding strip_upload_prefix trim_prefix
strip_upload_prefix_of_hex [] h = refl
strip_upload_prefix_of_hex (c ∷ key) h = ground arith

pub strip_download_prefix_of_hex :
    (key : Text) → all is_hex_digit key ≡ true → strip_download_prefix key ≡ key
unfolding strip_download_prefix trim_prefix
strip_download_prefix_of_hex [] h = refl
strip_download_prefix_of_hex (c ∷ []) h = ground arith
strip_download_prefix_of_hex (c ∷ e ∷ key) h = ground arith

length-map-lower : (s : Text) → length (map lower_byte s) ≡ length s
length-map-lower [] = refl
length-map-lower (c ∷ s) = omega (arith, length-map-lower s)

is_hex_digit-lower : (c : ℕ) → is_hex_digit (lower_byte c) ≡ is_hex_digit c
is_hex_digit-lower c = ground arith

all-map-lower : (s : Text) → all is_hex_digit (map lower_byte s) ≡ all is_hex_digit s
all-map-lower [] = refl
all-map-lower (c ∷ s) = rw (is_hex_digit-lower c, all-map-lower s)

is_ascii_of_hex : (s : Text) → all is_hex_digit s ≡ true → all is_ascii s ≡ true
is_ascii_of_hex [] h = refl
is_ascii_of_hex (c ∷ s) h = ground (arith, is_ascii_of_hex s, is_ascii_of_digit c)
  where
    is_ascii_of_digit : (c : ℕ) → is_hex_digit c ≡ true → is_ascii c ≡ true
    is_ascii_of_digit c h = ground arith

check_decoded-eq-ok :
    (o : Option Text) → check_decoded o ≡ ok tt → (bs : Text) × (o ≡ some bs) × (length bs ≡ 32)
unfolding check_decoded
check_decoded-eq-ok none h = ground arith
check_decoded-eq-ok (some bs) h = (bs, refl, ground arith)

module _ (platform : Platform) where
  open platform use {unicode_lower, unicode_lower_not_hex}

  -- Lower case neither makes nor loses hexadecimal digits.
  pub all-to_lower : (s : Text) → all is_hex_digit (to_lower unicode_lower s) ≡ all is_hex_digit s
  unfolding to_lower
  all-to_lower s = elim (Bool-cases (all is_ascii s)) [
    | inl e ↦ rw e (all-map-lower s)
    | inr e ↦
        rw (e, unicode_lower_not_hex s e)
          (elim (Bool-cases (all is_hex_digit s)) [
            | inl h ↦ absurd (ground (arith, is_ascii_of_hex s h))
            | inr h ↦ rw h
          ])
  ]

  pub length-to_lower_of_hex :
      (s : Text) → all is_hex_digit s ≡ true → length (to_lower unicode_lower s) ≡ length s
  unfolding to_lower
  length-to_lower_of_hex s h = rw (is_ascii_of_hex s h) (length-map-lower s)

  -- An upload key is accepted exactly when it has 64 hexadecimal digits behind its optional prefix,
  -- in upper or lower case.
  pub validate_upload_key_iff :
      (key : Text)
      → (validate_upload_key platform key ≡ ok tt) ↔ (
          (length (strip_upload_prefix key) ≡ 64)
          × (all is_hex_digit (strip_upload_prefix key) ≡ true))
  unfolding validate_upload_key
  validate_upload_key_iff key = (
    λ h.
        let lower : Text = to_lower unicode_lower (strip_upload_prefix key) in
        let (bs, e, l) = check_decoded-eq-ok (decode_string lower) h in
        let (digits, len) = decode_string_sound lower bs e in
        let digits' : all is_hex_digit (strip_upload_prefix key) ≡ true =
          rw all-to_lower at digits in
        (omega (arith, length-to_lower_of_hex (strip_upload_prefix key) digits'), digits'),
    λ (len, digits).
        let (bs, e, l) =
          decode_string_complete 32 (to_lower unicode_lower (strip_upload_prefix key))
            (rw all-to_lower digits)
            (omega (arith, length-to_lower_of_hex (strip_upload_prefix key) digits)) in
        rw e (ground arith),
  )
