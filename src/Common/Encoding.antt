-- ===== src/Common/Encoding.antt =====
-- Texts as bytes and as JSON: the length of a text in UTF-8, and `JSON.stringify` of a string.
use Prim.Native.Nat.{ℕ, ◌+◌, ◌-◌, ◌/◌, ◌%◌}
use mathlib.Core.Bool.{Bool, false, ◌&&◌, ◌||◌}
use mathlib.Core.Option.{Option, none, some}
use mathlib.Core.List.{List, [], ◌∷◌, ◌++◌}
use agentlily_runtime.Common.Tests.{ltb, leb, ◌==◌, if◌then◌else◌}
use agentlily_runtime.Common.Texts.{Text, lit}

abbrev is_high_surrogate : ℕ → Bool
is_high_surrogate c = leb 0xd800 c && leb c 0xdbff

abbrev is_low_surrogate : ℕ → Bool
is_low_surrogate c = leb 0xdc00 c && leb c 0xdfff

-- The code unit is the first half of a surrogate pair with what follows it.
abbrev starts_pair : ℕ → Text → Bool
starts_pair c [] = false
starts_pair c (d ∷ s) = is_high_surrogate c && is_low_surrogate d

-- A pair takes four bytes, two for each half; a lone surrogate is written as U+FFFD, in three.
unfoldable pub utf8_length_from : Bool → Text → ℕ
utf8_length_from paired [] = 0
utf8_length_from paired (c ∷ s) =
    (if paired || starts_pair c s
      then 2
      else (if ltb c 0x80 then 1 else (if ltb c 0x800 then 2 else 3)))
    + utf8_length_from (starts_pair c s) s

-- `Buffer.byteLength(value, "utf8")`
unfoldable pub byte_length : Text → ℕ
unfolding utf8_length_from
byte_length value = utf8_length_from false value

abbrev hex_digit : ℕ → ℕ
hex_digit n = if ltb n 10 then b'0' + n else b'a' + (n - 10)

abbrev escaped : ℕ → Text
escaped c = b'\\' ∷ c ∷ []

abbrev unicode_escape : ℕ → Text
unicode_escape c =
    b'\\'
    ∷ b'u'
    ∷ hex_digit (c / 4096)
    ∷ hex_digit (c / 256 % 16)
    ∷ hex_digit (c / 16 % 16)
    ∷ hex_digit (c % 16)
    ∷ []

-- A code unit that is not half of a pair, inside quotes (ECMAScript, QuoteJSONString).
unfoldable pub quote_unit : ℕ → Text
quote_unit c =
    if c == 8
    then escaped b'b'
    else (if c == 9
        then escaped b't'
        else (if c == 10
            then escaped b'n'
            else (if c == 12
                then escaped b'f'
                else (if c == 13
                    then escaped b'r'
                    else (if c == 34 || c == 92
                        then escaped c
                        else (if ltb c 32 || is_high_surrogate c || is_low_surrogate c
                            then unicode_escape c
                            else c ∷ []))))))

unfoldable pub quote_units : Bool → Text → Text
unfolding quote_unit
quote_units paired [] = []
quote_units paired (c ∷ s) =
    (if paired || starts_pair c s then c ∷ [] else quote_unit c) ++ quote_units (starts_pair c s) s

-- `JSON.stringify(value)` of a string.
unfoldable pub json_string : Text → Text
unfolding quote_units
json_string value = b'"' ∷ (quote_units false value ++ b'"' ∷ [])

abbrev string_or_null : Option Text → Text
string_or_null none = lit "null"
string_or_null (some value) = json_string value

unfoldable pub join : Text → List Text → Text
join separator [] = []
join separator (s ∷ []) = s
join separator (s ∷ t ∷ parts) = s ++ (separator ++ join separator (t ∷ parts))

abbrev map_texts : List (Option Text) → List Text
map_texts [] = []
map_texts (v ∷ vs) = string_or_null v ∷ map_texts vs

-- `JSON.stringify(values)` of an array of strings and nulls.
unfoldable pub json_array : List (Option Text) → Text
unfolding json_string join
json_array values = b'[' ∷ (join (lit ",") (map_texts values) ++ b']' ∷ [])
