-- ===== src/Base/Results.antt =====
-- A Go call that returns a value and an error, or panics.
use Prim.Native.Nat.{ℕ}
use mathlib.Core.List.{◌++◌}
use iot_ephemeral_value_stor.Base.Strings.{Text, codes, decimal}

-- Why a context is done.
pub data Cause : Type 0 where
  canceled deadline_exceeded : Cause

-- The errors that the program makes or passes on; `wrap` is `fmt.Errorf("…: %w", err)`. The texts of
-- errors that the database and the decoder make are theirs.
pub data Error : Type 0 where
  not_hex_key : Error
  key_length : ℕ → Error
  wrap : Text → Error → Error
  parameter_not_found : Text → Error
  invalid_parameter_path : Text → Error
  storage_timeout storage_degraded : Error
  context_done : Cause → Error
  key_not_found : Error
  database_error : Text → Error
  encoding_error : Error
  json_error : Text → Error

-- `err.Error()`
unfoldable pub error_text : Error → Text
unfolding decimal
error_text not_hex_key = codes "uploadKey must be a 256 bit hex string"
error_text (key_length n) = codes "Invalid upload key length: " ++ decimal n
error_text (wrap context e) = context ++ codes ": " ++ error_text e
error_text (parameter_not_found path) = codes "parameter '" ++ path ++ codes "' not found"
error_text (invalid_parameter_path path) = codes "invalid parameter path: '" ++ path ++ codes "'"
error_text storage_timeout = codes "storage operation timed out (commit status unknown)"
error_text storage_degraded = codes "storage is degraded after a timeout, write rejected"
error_text (context_done canceled) = codes "context canceled"
error_text (context_done deadline_exceeded) = codes "context deadline exceeded"
error_text key_not_found = codes "Key not found"
error_text (database_error e) = e
error_text encoding_error = codes "error encoding data to JSON"
error_text (json_error e) = e

pub data Result {ℓ} (A : Type ℓ) : Type ℓ where
  ok : A → Result A
  err : Error → Result A
  panic : Result A

infixl 5 ◌>>=◌ ◌>>◌
abbrev pub ◌>>=◌ {ℓ κ} : {A : Type ℓ} {B : Type κ} → Result A → (A → Result B) → Result B
ok a >>= f = f a
err e >>= f = err e
panic >>= f = panic

abbrev pub ◌>>◌ {ℓ} : {B : Type ℓ} → Result (Unit {0}) → Result B → Result B
m >> k = m >>= λ _. k
