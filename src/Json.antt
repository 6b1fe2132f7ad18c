-- ===== src/Json.antt =====
-- The strings that the program stores and sends, by what `JSON.parse` makes of them.
--
-- A JavaScript string is either valid JSON, and is then written by the value that it stands for
-- (`json`), or it is not, and `JSON.parse` throws on it (`text`). The layout of a JSON text is
-- forgotten. JSON numbers are natural numbers.
use mobile_wallet_protocol.Prelude.{
  ℕ, zero, suc, ◌+◌, ◌-◌, ◌*◌, Text, text_eq, leb, ltb, ◌&&◌, Bool, true, false, Option, none, some,
  List, [], ◌∷◌, if◌then◌else◌,
}

-- A number of JavaScript that the program handles: a natural number or NaN.
pub data Number : Type 0 where
  num : ℕ → Number
  nan : Number

-- `a >= b`, `a < b` and `Number.isNaN(a)` against a clock reading.
abbrev pub not_before : Number → ℕ → Bool
not_before (num n) now = leb now n
not_before nan now = false

abbrev pub before : Number → ℕ → Bool
before (num n) now = ltb n now
before nan now = false

abbrev pub is_nan : Number → Bool
is_nan (num n) = false
is_nan nan = true

mutual
  pub data Json : Type 0 where
    null : Json
    boolean : Bool → Json
    number : ℕ → Json
    string : Text → Json
    array : Items → Json
    object : Fields → Json

  pub data Items : Type 0 where
    no_items : Items
    item : Json → Items → Items

  pub data Fields : Type 0 where
    no_fields : Fields
    field : Text → Json → Fields → Fields

pub data Str : Type 0 where
  text : Text → Str
  json : Json → Str

-- `if (v)`: an object or array is truthy, and so is `true`, a number but 0, a string but the empty.
pub is_truthy : Json → Bool
is_truthy null = false
is_truthy (boolean b) = b
is_truthy (number zero) = false
is_truthy (number (suc n)) = true
is_truthy (string []) = false
is_truthy (string (c ∷ t)) = true
is_truthy (array xs) = true
is_truthy (object fs) = true

-- `JSON.stringify(v)`.
abbrev pub stringify : Json → Str
stringify v = json v

-- `JSON.parse(s)`; `none` is the `SyntaxError`.
abbrev pub parse : Str → Option Json
parse (text t) = none
parse (json v) = some v

-- `!s`: only the empty string is falsy.
abbrev pub is_falsy : Str → Bool
is_falsy (text []) = true
is_falsy (text (c ∷ t)) = false
is_falsy (json v) = false

-- `value.name`; `none` is `undefined` here, and the `TypeError` of reading a field of `null`.
unfoldable pub find_field : Text → Fields → Option Json
find_field name no_fields = none
find_field name (field k v rest) = if text_eq k name then some v else find_field name rest

abbrev pub get_field : Text → Json → Option Json
get_field name (object fs) = find_field name fs
get_field name null = none
get_field name (boolean b) = none
get_field name (number n) = none
get_field name (string t) = none
get_field name (array xs) = none

abbrev pub as_string : Option Json → Option Text
as_string (some (string t)) = some t
as_string (some null) = none
as_string (some (boolean b)) = none
as_string (some (number n)) = none
as_string (some (array xs)) = none
as_string (some (object fs)) = none
as_string none = none

abbrev pub as_number : Option Json → Option ℕ
as_number (some (number n)) = some n
as_number (some null) = none
as_number (some (boolean b)) = none
as_number (some (string t)) = none
as_number (some (array xs)) = none
as_number (some (object fs)) = none
as_number none = none

-- A `string[]` as a JSON array, and back.
unfoldable pub of_strings : List Text → Items
of_strings [] = no_items
of_strings (t ∷ ts) = item (string t) (of_strings ts)

unfoldable pub to_strings : Items → List Text
to_strings no_items = []
to_strings (item (string t) rest) = t ∷ to_strings rest
to_strings (item null rest) = to_strings rest
to_strings (item (boolean b) rest) = to_strings rest
to_strings (item (number n) rest) = to_strings rest
to_strings (item (array xs) rest) = to_strings rest
to_strings (item (object fs) rest) = to_strings rest

-- `parseInt(s, 10)` of a string with no leading blank or sign: its leading digits.
abbrev is_digit : ℕ → Bool
is_digit c = leb b'0' c && leb c b'9'

leading_digits : ℕ → Text → ℕ
leading_digits acc [] = acc
leading_digits acc (c ∷ t) =
    let rest = leading_digits (acc * 10 + (c - 48)) t in if is_digit c then rest else acc

abbrev starts_with_digit : Text → Bool
starts_with_digit [] = false
starts_with_digit (c ∷ t) = is_digit c

unfoldable pub parse_int : Str → Number
unfolding leading_digits
parse_int (text t) = if starts_with_digit t then num (leading_digits 0 t) else nan
parse_int (json (number n)) = num n
parse_int (json null) = nan
parse_int (json (boolean b)) = nan
parse_int (json (string t)) = nan
parse_int (json (array xs)) = nan
parse_int (json (object fs)) = nan

-- `n.toString()`; `NaN` is not JSON.
abbrev pub number_to_string : Number → Str
number_to_string (num n) = json (number n)
number_to_string nan = text (b'N' ∷ b'a' ∷ b'N' ∷ [])

-- A number as `JSON.stringify` writes it: `NaN` is written as `null`.
abbrev pub of_number : Number → Json
of_number (num n) = number n
of_number nan = null
