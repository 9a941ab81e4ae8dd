-- ===== src/Hex.antt =====
-- Package encoding/hex, as far as domain/domain.go calls it: EncodeToString and DecodeString.
use iot_ephemeral_value_stor.Base.{
  ℕ, suc, ◌+◌, ◌-◌, ◌*◌, ◌/◌, ◌%◌, ◌<◌, ◌≡◌, refl, Bool, true, ◌&&◌, ◌||◌, Option, none, some, [],
  ◌∷◌, arith, Text, ltb, leb, if◌then◌else◌, length, all, All, Option-cases, inl, inr,
}

-- The lower-case digit of a half byte.
abbrev pub hex_digit : ℕ → ℕ
hex_digit n = if ltb n 10 then n + 48 else n + 87

unfoldable pub encode_to_string : Text → Text
encode_to_string [] = []
encode_to_string (b ∷ bs) = hex_digit (b / 16) ∷ hex_digit (b % 16) ∷ encode_to_string bs

abbrev pub from_hex_char : ℕ → Option ℕ
from_hex_char c =
    if leb b'0' c && leb c b'9'
    then some (c - 48)
    else if leb b'a' c && leb c b'f'
    then some (c - 87)
    else if leb b'A' c && leb c b'F'
    then some (c - 55)
    else none

abbrev pub byte_of : Option ℕ → Option ℕ → Option Text → Option Text
byte_of (some hi) (some lo) (some rest) = some ((hi * 16 + lo) ∷ rest)
byte_of _ _ _ = none

-- `none` is an error: an odd length, or a character that is no digit.
unfoldable pub decode_string : Text → Option Text
decode_string [] = some []
decode_string (a ∷ []) = none
decode_string (a ∷ b ∷ s) = byte_of (from_hex_char a) (from_hex_char b) (decode_string s)

abbrev pub is_hex_digit : ℕ → Bool
is_hex_digit c =
    (leb b'0' c && leb c b'9') || (leb b'a' c && leb c b'f') || (leb b'A' c && leb c b'F')

abbrev pub is_lower_digit : ℕ → Bool
is_lower_digit c = (leb b'0' c && leb c b'9') || (leb b'a' c && leb c b'f')

abbrev pub AreBytes : Text → Type 0
AreBytes = All (λ b. b < 256)

pub length-encode_to_string : (bs : Text) → length (encode_to_string bs) ≡ length bs + length bs
unfolding encode_to_string
length-encode_to_string [] = omega arith
length-encode_to_string (b ∷ bs) = omega (arith, length-encode_to_string bs)

hex_digit-IsLower : (n : ℕ) → n < 16 → is_lower_digit (hex_digit n) ≡ true
hex_digit-IsLower n h = ground arith

from_hex_char-hex_digit : (n : ℕ) → n < 16 → from_hex_char (hex_digit n) ≡ some n
from_hex_char-hex_digit n h = ground arith

pub all-encode_to_string :
    (bs : Text) → AreBytes bs → all is_lower_digit (encode_to_string bs) ≡ true
unfolding encode_to_string
all-encode_to_string [] h = refl
all-encode_to_string (b ∷ bs) h =
    rw (hex_digit-IsLower (b / 16) (omega arith), hex_digit-IsLower (b % 16) (omega arith))
      (all-encode_to_string bs h.1)

-- Decoding gives back the bytes.
pub decode_string-encode_to_string :
    (bs : Text) → AreBytes bs → decode_string (encode_to_string bs) ≡ some bs
unfolding encode_to_string decode_string
decode_string-encode_to_string [] h = refl
decode_string-encode_to_string (b ∷ bs) h =
    rw
      (
        from_hex_char-hex_digit (b / 16) (omega arith),
        from_hex_char-hex_digit (b % 16) (omega arith),
        decode_string-encode_to_string bs h.1,
      )
      (ground arith)

byte_of-eq-some :
    (p q : Option ℕ) (r : Option Text) {bs : Text}
    → byte_of p q r ≡ some bs
    → (rest : Text) × (r ≡ some rest) × (length bs ≡ suc (length rest))
byte_of-eq-some (some p) (some q) (some r) h = (r, refl, ground arith)
byte_of-eq-some (some p) (some q) none h = ground arith
byte_of-eq-some (some p) none r h = ground arith
byte_of-eq-some none q r h = ground arith

-- A text that decodes is made of digits, two to each byte.
pub decode_string_sound :
    (s bs : Text)
    → decode_string s ≡ some bs
    → (all is_hex_digit s ≡ true) × (length s ≡ length bs + length bs)
unfolding decode_string
decode_string_sound [] bs h = ground arith
decode_string_sound (a ∷ []) bs h = ground arith
decode_string_sound (a ∷ b ∷ s) bs h =
    let (rest, e, l) = byte_of-eq-some (from_hex_char a) (from_hex_char b) (decode_string s) h in
    ground (arith, decode_string_sound s rest e)

from_hex_char_of_digit : (c : ℕ) → is_hex_digit c ≡ true → (n : ℕ) × (from_hex_char c ≡ some n)
from_hex_char_of_digit c h = elim (Option-cases (from_hex_char c)) [
  | inl e ↦ absurd (ground arith)
  | inr found ↦ found
]

-- Conversely, an even number of digits decodes.
pub decode_string_complete :
    (n : ℕ) (s : Text)
    → all is_hex_digit s ≡ true
    → length s ≡ n + n
    → (bs : Text) × (decode_string s ≡ some bs) × (length bs ≡ n)
unfolding decode_string
decode_string_complete n [] h l = ([], refl, omega arith)
decode_string_complete n (a ∷ []) h l = absurd (omega arith)
decode_string_complete n (a ∷ b ∷ s) h l =
    let (rest, e, m) = decode_string_complete (n - 1) s (ground arith) (omega arith) in
    let (p, pe) = from_hex_char_of_digit a (ground arith) in
    let (q, qe) = from_hex_char_of_digit b (ground arith) in
    ((p * 16 + q) ∷ rest, rw (pe, qe, e), omega arith)
