-- ===== src/Xml/Hash/RoundTrip.antt =====
-- Parsing what was printed.
use clayers.Prelude.{
  ℕ, ◌+◌, ◌*◌, ◌/◌, ◌%◌, ◌<◌, ◌≡◌, refl, ap, ◌∙◌, Bool, true, false, ◌&&◌, some, List, [], ◌∷◌,
  ◌++◌, length, ltb, ◌==◌, ==_iff, ==_refl, nat_eq, arith,
}
use clayers.Xml.Hash.{
  hex_digit, to_hex, prefix, to_prefixed, parsed, digit_value, from_pair, starts_inside,
  parse_pairs, strip_prefix, from_str,
}

abbrev pub are_bytes : List ℕ → Bool
are_bytes [] = true
are_bytes (b ∷ bs) = ltb b 256 && are_bytes bs

digit_value-hex_digit : (n : ℕ) → n < 16 → digit_value (hex_digit n) ≡ some n
digit_value-hex_digit n below = ground arith

hex_digit_plain : (n : ℕ) → n < 16 → ((hex_digit n == 43) ≡ false) × (ltb (hex_digit n) 128 ≡ true)
hex_digit_plain n below = ground arith

from_pair_lem :
    (c d hi lo : ℕ)
    → (c == 43) ≡ false
    → digit_value c ≡ some hi
    → digit_value d ≡ some lo
    → from_pair c d ≡ some (16 * hi + lo)
from_pair_lem c d hi lo plain high low = rw (plain, high, low) refl

from_pair-hex_digit :
    (b : ℕ) → b < 256 → from_pair (hex_digit (b / 16)) (hex_digit (b % 16)) ≡ some b
from_pair-hex_digit b below =
    from_pair_lem (hex_digit (b / 16)) (hex_digit (b % 16)) (b / 16) (b % 16)
      (hex_digit_plain (b / 16) (omega arith)).0 (digit_value-hex_digit (b / 16) (omega arith))
      (digit_value-hex_digit (b % 16) (omega arith))
    ∙ ap some (omega arith)

starts_inside-to_hex : (bs : List ℕ) → are_bytes bs ≡ true → starts_inside (to_hex bs) ≡ false
unfolding to_hex
starts_inside-to_hex [] small = refl
starts_inside-to_hex (b ∷ bs) small =
    let plain : ltb (hex_digit (b / 16)) 128 ≡ true =
      (hex_digit_plain (b / 16) (ground (arith, small))).1 in
    ground (arith, plain)

parse_pairs-to_hex :
    (position : ℕ) (bs : List ℕ)
    → are_bytes bs ≡ true
    → parse_pairs position (to_hex bs) ≡ parsed bs
unfolding parse_pairs to_hex
parse_pairs-to_hex position [] small = refl
parse_pairs-to_hex position (b ∷ bs) small =
    let below : b < 256 = ground (arith, small) in
    let others = parse_pairs-to_hex (position + 2) bs (ground (arith, small)) in
    step (to_hex bs) (hex_digit (b / 16)) (hex_digit (b % 16))
      (starts_inside-to_hex bs (ground (arith, small))) (from_pair-hex_digit b below) others
  where
    step :
        (rest : List ℕ) (c d : ℕ)
        → starts_inside rest ≡ false
        → from_pair c d ≡ some b
        → parse_pairs (position + 2) rest ≡ parsed bs
        → parse_pairs position (c ∷ d ∷ rest) ≡ parsed (b ∷ bs)
    step rest c d outside byte others = rw (outside, byte, others) refl

length-to_hex : (bs : List ℕ) → length (to_hex bs) ≡ 2 * length bs
unfolding to_hex
length-to_hex [] = refl
length-to_hex (b ∷ bs) = omega (arith, length-to_hex bs)

strip_prefix-append : (ps s : List ℕ) → strip_prefix ps (ps ++ s) ≡ some s
unfolding strip_prefix
strip_prefix-append [] s = refl
strip_prefix-append (p ∷ ps) s = rw (==_refl p) (strip_prefix-append ps s)

-- Parsing the prefixed text of a hash of 32 bytes gives these bytes.
pub from_str-to_prefixed :
    (bytes : List ℕ)
    → length bytes ≡ 32
    → are_bytes bytes ≡ true
    → from_str (to_prefixed bytes) ≡ parsed bytes
unfolding from_str to_prefixed
from_str-to_prefixed bytes whole small =
    let long : (length (to_hex bytes) == 64) ≡ true =
      (==_iff (length (to_hex bytes)) 64).1 (omega (arith, length-to_hex bytes, whole)) in
    rw (strip_prefix-append prefix (to_hex bytes), long) (parse_pairs-to_hex 0 bytes small)
