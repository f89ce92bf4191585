-- ===== src/Xml/Hash.antt =====
-- The text of a content hash (crates/clayers-xml/src/hash.rs). A text is the bytes of its UTF-8, and a
-- hash its bytes; elsewhere in this library a hash is one number.
pub mod RoundTrip
use Prim.Native.Char.{code}
use Prim.Native.String.{String, [] as nil, ◌∷◌ as cons}
use clayers.Prelude.{
  ℕ, suc, ◌+◌, ◌-◌, ◌*◌, ◌/◌, ◌%◌, Bool, true, false, ◌&&◌, Option, none, some, List, [], ◌∷◌, ◌++◌,
  length, leb, ltb, ◌==◌, nat_eq, if◌then◌else◌,
}

-- The bytes of an ASCII text.
abbrev pub bytes_of : String → List ℕ
bytes_of String.[] = []
bytes_of (String.◌∷◌ c s) = code c ∷ bytes_of s

-- One digit of `{:x}`.
abbrev pub hex_digit : ℕ → ℕ
hex_digit n = if ltb n 10 then 48 + n else 87 + n

-- `{b:02x}` for each byte.
unfoldable pub to_hex : List ℕ → List ℕ
to_hex [] = []
to_hex (b ∷ bs) = hex_digit (b / 16) ∷ hex_digit (b % 16) ∷ to_hex bs

abbrev pub prefix : List ℕ
prefix = bytes_of "sha256:"

-- `to_prefixed`, and `Display`.
unfoldable pub to_prefixed : List ℕ → List ℕ
to_prefixed bytes = prefix ++ to_hex bytes

-- `Error::InvalidHashFormat`, by what its text is made of.
pub data HashFormat : Type 0 where
  expected_prefix : List ℕ → HashFormat
  expected_length : ℕ → HashFormat
  invalid_hex : ℕ → HashFormat

-- A result, or a panic.
pub data Parsed : Type 0 where
  parsed : List ℕ → Parsed
  refused : HashFormat → Parsed
  panicked : Parsed

-- `char::to_digit(16)` on a byte.
abbrev pub digit_value : ℕ → Option ℕ
digit_value c =
    if leb 48 c && leb c 57
    then some (c - 48)
    else if leb 97 c && leb c 102
    then some (c - 87)
    else if leb 65 c && leb c 70
    then some (c - 55)
    else none

abbrev two_digits : Option ℕ → Option ℕ → Option ℕ
two_digits (some hi) (some lo) = some (16 * hi + lo)
two_digits none lo = none
two_digits (some hi) none = none

-- `u8::from_str_radix(_, 16)` on two bytes: a sign `+` may stand in front of the digits.
abbrev pub from_pair : ℕ → ℕ → Option ℕ
from_pair c d = if c == 43 then digit_value d else two_digits (digit_value c) (digit_value d)

-- A byte inside a character: a slice that ends before it panics.
abbrev pub starts_inside : List ℕ → Bool
starts_inside [] = false
starts_inside (c ∷ cs) = leb 128 c && ltb c 192

abbrev pub push_byte : ℕ → Parsed → Parsed
push_byte b (parsed bs) = parsed (b ∷ bs)
push_byte b (refused e) = refused e
push_byte b panicked = panicked

abbrev pub pair_parsed : ℕ → Option ℕ → Parsed → Parsed
pair_parsed position none rest = refused (invalid_hex position)
pair_parsed position (some b) rest = push_byte b rest

-- The loop over the pairs; the text has an even number of bytes.
unfoldable pub parse_pairs : ℕ → List ℕ → Parsed
parse_pairs position [] = parsed []
parse_pairs position (c ∷ []) = panicked
parse_pairs position (c ∷ d ∷ rest) =
    let others = parse_pairs (position + 2) rest in
    if starts_inside rest then panicked else pair_parsed position (from_pair c d) others

unfoldable pub strip_prefix : List ℕ → List ℕ → Option (List ℕ)
strip_prefix [] s = some s
strip_prefix (p ∷ ps) [] = none
strip_prefix (p ∷ ps) (c ∷ s) = let rest = strip_prefix ps s in if p == c then rest else none

abbrev hex_parsed : List ℕ → Option (List ℕ) → Parsed
hex_parsed s none = refused (expected_prefix s)
hex_parsed s (some hex) =
    if length hex == 64 then parse_pairs 0 hex else refused (expected_length (length hex))

-- `FromStr`
unfoldable pub from_str : List ℕ → Parsed
from_str s = hex_parsed s (strip_prefix prefix s)
