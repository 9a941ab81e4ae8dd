-- ===== src/Base/Strings.antt =====
-- A Go string as the list of its bytes, with the functions of package strings that the program
-- calls. Text literals are ASCII, so their code points are their bytes.
use Prim.Native.Char.{code}
use Prim.Native.String.{String}
use Prim.Native.Nat.{ℕ, zero, suc, ◌+◌, ◌/◌, ◌%◌}
use mathlib.Core.Path.{◌≡◌, refl}
use mathlib.Core.Logic.{◌≢◌, inl, inr}
use mathlib.Core.Bool.{Bool, true, false, ◌&&◌, ◌||◌}
use mathlib.Core.List.{List, [], ◌∷◌, ◌++◌, map}
use native.Mathlib.Omega.{arith}
use iot_ephemeral_value_stor.Base.Tests.{◌==◌, ltb, leb, if◌then◌else◌, Bool-cases}
use iot_ephemeral_value_stor.Base.Lists.{All, all}

abbrev pub Text : Type 0
Text = List ℕ

abbrev pub codes : String → Text
codes String.[] = []
codes (String.◌∷◌ c s) = code c ∷ codes s

-- strings.HasPrefix, with the prefix first.
unfoldable pub has_prefix : Text → Text → Bool
has_prefix [] s = true
has_prefix (p ∷ ps) [] = false
has_prefix (p ∷ ps) (c ∷ s) = p == c && has_prefix ps s

-- What stands behind a prefix of the given text's length.
unfoldable pub drop_text : Text → Text → Text
drop_text [] s = s
drop_text (p ∷ ps) [] = []
drop_text (p ∷ ps) (c ∷ s) = drop_text ps s

-- strings.TrimPrefix
unfoldable pub trim_prefix : Text → Text → Text
unfolding has_prefix drop_text
trim_prefix s p = if has_prefix p s then drop_text p s else s

pub trim_prefix-append : (p s : Text) → trim_prefix (p ++ s) p ≡ s
unfolding trim_prefix
trim_prefix-append p s = rw (has_prefix-append p) (drop_text-append p)
  where
    has_prefix-append : (p : Text) → has_prefix p (p ++ s) ≡ true
    has_prefix-append [] = refl
    has_prefix-append (c ∷ p) = ground (arith, has_prefix-append p)

    drop_text-append : (p : Text) → drop_text p (p ++ s) ≡ s
    drop_text-append [] = refl
    drop_text-append (c ∷ p) = drop_text-append p

-- strings.Contains
unfoldable pub contains : Text → Text → Bool
unfolding has_prefix
contains [] sub = has_prefix sub []
contains (c ∷ s) sub = has_prefix sub (c ∷ s) || contains s sub

-- strings.Split at a separator of one byte: never empty.
abbrev pub prepend : ℕ → List Text → List Text
prepend c [] = (c ∷ []) ∷ []
prepend c (x ∷ xs) = (c ∷ x) ∷ xs

unfoldable pub split : ℕ → Text → List Text
split sep [] = [] ∷ []
split sep (c ∷ s) = if c == sep then [] ∷ split sep s else prepend c (split sep s)

abbrev pub LacksByte : ℕ → Text → Type 0
LacksByte sep = All (λ c. c ≢ sep)

pub split_lacking : (sep : ℕ) (s : Text) → LacksByte sep s → split sep s ≡ s ∷ []
unfolding split
split_lacking sep [] h = refl
split_lacking sep (c ∷ s) h = ground (arith, split_lacking sep s h.1)

pub split_parts : (sep : ℕ) (s : Text) → (x : Text) × (xs : List Text) × (split sep s ≡ x ∷ xs)
unfolding split
split_parts sep [] = ([], [], refl)
split_parts sep (c ∷ s) =
    let (x, xs, e) = split_parts sep s in
    elim (Bool-cases (c == sep)) [
      | inl hit ↦ ([], split sep s, rw hit)
      | inr miss ↦ (c ∷ x, xs, rw (miss, e))
    ]

-- Splitting a joined path gives the parts of both sides.
pub split-append_sep :
    (sep : ℕ) (s t : Text) → split sep (s ++ sep ∷ t) ≡ split sep s ++ split sep t
unfolding split
split-append_sep sep [] t = ground arith
split-append_sep sep (c ∷ s) t =
    let (x, xs, e) = split_parts sep s in ground (arith, split-append_sep sep s t)

-- strings.ToLower: bytes where the text is ASCII, and Unicode's mapping (a parameter) elsewhere.
abbrev pub is_ascii : ℕ → Bool
is_ascii c = ltb c 128

abbrev pub lower_byte : ℕ → ℕ
lower_byte c = if leb b'A' c && leb c b'Z' then c + 32 else c

unfoldable pub to_lower : (Text → Text) → Text → Text
to_lower unicode_lower s = if all is_ascii s then map lower_byte s else unicode_lower s

-- `s == ""`
abbrev pub is_empty : Text → Bool
is_empty [] = true
is_empty (c ∷ s) = false

-- `%d` of a number that is not negative; a number has fewer digits than the fuel.
decimal_from : ℕ → ℕ → Text
decimal_from zero n = []
decimal_from (suc fuel) n =
    let front = decimal_from fuel (n / 10) in
    if ltb n 10 then (n + 48) ∷ [] else front ++ (n % 10 + 48) ∷ []

unfoldable pub decimal : ℕ → Text
unfolding decimal_from
decimal n = decimal_from (suc n) n
