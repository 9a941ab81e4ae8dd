-- ===== src/Codec.antt =====
-- Package encoding/json as storage/storage.go uses it: an interface of the two calls and of what the
-- program relies on. Its documents are maps of strings and of such maps.
pub mod Plain
pub mod Tests
use iot_ephemeral_value_stor.Base.{
  ℕ, zero, suc, ◌≡◌, ◌≢◌, Bool, true, Option, none, some, Text, split, All, all, is_ascii, ◌⊎◌,
  Error, Result, ok, err,
}
use iot_ephemeral_value_stor.Json.{
  Value, Fields, null, bool, number, str, arr, obj, end, field, Items, nil, cons,
}
use iot_ephemeral_value_stor.Json.Sorted.{IsSorted}

-- json.Unmarshal refuses a document of more than 10000 maps in one another: so many may be inside the
-- outermost one.
abbrev pub max_nested : ℕ
max_nested = 9999

-- Strings and maps only, every text being valid by the given test, and with at most the given number
-- of maps inside one another.
abbrev mutual
  pub IsPlain : (Text → Bool) → ℕ → Value → Type 0
  IsPlain valid n null = ⊥
  IsPlain valid n (bool b) = ⊥
  IsPlain valid n (number t) = ⊥
  IsPlain valid n (str t) = valid t ≡ true
  IsPlain valid n (arr xs) = ⊥
  IsPlain valid zero (obj m) = ⊥
  IsPlain valid (suc n) (obj m) = ArePlain valid n m

  pub ArePlain : (Text → Bool) → ℕ → Fields → Type 0
  ArePlain valid n end = Unit
  ArePlain valid n (field k v m) = (valid k ≡ true) × IsPlain valid n v × ArePlain valid n m

-- `marshal` is json.Marshal of a map. `unmarshal` is json.Unmarshal into a map that is nil before:
-- an error, the nil map of the document `null`, or a map. `valid_text` is utf8.ValidString.
pub record Codec : Type 0 where
  pub marshal : Fields → Option Text
  pub unmarshal : Text → Result (Option Fields)
  pub valid_text : Text → Bool
  -- A map of valid strings is encoded, and decodes to itself if it is not nested too deeply, and else
  -- to itself or with an error.
  pub marshal_total : (n : ℕ) (m : Fields) → ArePlain valid_text n m → marshal m ≢ none
  pub unmarshal-marshal :
      (m : Fields) (b : Text)
      → ArePlain valid_text max_nested m
      → IsSorted m
      → marshal m ≡ some b
      → unmarshal b ≡ ok (some m)
  pub unmarshal-marshal_deep :
      (n : ℕ) (m : Fields) (b : Text)
      → ArePlain valid_text n m
      → IsSorted m
      → marshal m ≡ some b
      → (unmarshal b ≡ ok (some m)) ⊎ ((e : Error) × (unmarshal b ≡ err e))
  -- ASCII is valid UTF-8.
  pub valid_text-ascii : (t : Text) → all is_ascii t ≡ true → valid_text t ≡ true
  -- Splitting valid UTF-8 at a slash leaves valid UTF-8.
  pub valid_text-split :
      (t : Text) → valid_text t ≡ true → All (λ s. valid_text s ≡ true) (split b'/' t)
