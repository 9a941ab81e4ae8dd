-- ===== src/Domain.antt =====
-- domain/domain.go: the key pair. An upload key is 32 random bytes in hexadecimal, and the download
-- key is the hexadecimal SHA-256 of the upload key's text.
pub mod Keys
pub mod Derive
pub mod Tests
use iot_ephemeral_value_stor.Base.{
  ℕ, ◌≡◌, Bool, true, false, List, [], ◌∷◌, ◌++◌, Option, none, some, Text, codes, ◌==◌,
  if◌then◌else◌, length, trim_prefix, to_lower, is_ascii, Error, not_hex_key, key_length, Result,
  ok, err, all,
}
use iot_ephemeral_value_stor.Hex.{encode_to_string, decode_string, AreBytes, is_hex_digit}

-- What the program rests on in Go's library without looking into it: SHA-256, Unicode's lower case
-- beyond ASCII, and the layout time.RFC3339 of a time.
pub record Platform : Type 0 where
  pub sum256 : Text → Text
  pub length-sum256 : (s : Text) → length (sum256 s) ≡ 32
  pub sum256-AreBytes : (s : Text) → AreBytes (sum256 s)
  pub unicode_lower : Text → Text
  -- No character beyond ASCII has a hexadecimal digit for its lower case, so a text that has such
  -- a character keeps something that is no digit.
  pub unicode_lower_not_hex :
      (s : Text) → all is_ascii s ≡ false → all is_hex_digit (unicode_lower s) ≡ false
  pub rfc3339 : ℕ → Text
  pub rfc3339-ascii : (now : ℕ) → all is_ascii (rfc3339 now) ≡ true

abbrev pub upload_key_prefix : Text
upload_key_prefix = codes "u_"

abbrev pub download_key_prefix : Text
download_key_prefix = codes "d_"

unfoldable pub strip_upload_prefix : Text → Text
unfolding trim_prefix
strip_upload_prefix key = trim_prefix key upload_key_prefix

unfoldable pub strip_download_prefix : Text → Text
unfolding trim_prefix
strip_download_prefix key = trim_prefix key download_key_prefix

unfoldable pub add_upload_prefix : Text → Text
add_upload_prefix key = upload_key_prefix ++ key

unfoldable pub add_download_prefix : Text → Text
add_download_prefix key = download_key_prefix ++ key

-- The argument is what `rand.Read` put into the buffer, or `none` where it failed; the result
-- `none` is `log.Fatal`, which ends the process.
unfoldable pub generate_random_key : Option Text → Option Text
unfolding encode_to_string
generate_random_key none = none
generate_random_key (some random_bytes) = some (encode_to_string random_bytes)

unfoldable pub check_decoded : Option Text → Result (Unit {0})
check_decoded none = err not_hex_key
check_decoded (some decoded) = if length decoded == 32 then ok tt else err not_hex_key

module _ (platform : Platform) where
  open platform use {sum256, unicode_lower}

  unfoldable pub derive_download_key : Text → Result Text
  unfolding strip_upload_prefix encode_to_string
  derive_download_key upload_key =
      let key = strip_upload_prefix upload_key in
      if length key == 64 then ok (encode_to_string (sum256 key)) else err (key_length (length key))

  unfoldable pub validate_upload_key : Text → Result (Unit {0})
  unfolding strip_upload_prefix to_lower decode_string check_decoded
  validate_upload_key upload_key =
      check_decoded (decode_string (to_lower unicode_lower (strip_upload_prefix upload_key)))
