-- ===== src/Examples/Hashes.antt =====
-- Texts of hashes.
use clayers.Prelude.{ℕ, zero, suc, ◌≡◌, refl, List, [], ◌∷◌, ◌++◌}
use clayers.Xml.Hash.{prefix, to_prefixed, parsed, panicked, parse_pairs, strip_prefix, from_str}
use clayers.Xml.Hash.RoundTrip.{from_str-to_prefixed}

abbrev sample : List ℕ
sample =
    11 ∷ 48 ∷ 85 ∷ 122 ∷ 159 ∷ 196 ∷ 233 ∷ 14 ∷ 51 ∷ 88 ∷ 125 ∷ 162 ∷ 199 ∷ 236 ∷ 17 ∷ 54 ∷ 91 ∷ 128
    ∷ 165 ∷ 202 ∷ 239 ∷ 20 ∷ 57 ∷ 94 ∷ 131 ∷ 168 ∷ 205 ∷ 242 ∷ 23 ∷ 60 ∷ 97 ∷ 134 ∷ []

from_str-to_prefixed_example : from_str (to_prefixed sample) ≡ parsed sample
from_str-to_prefixed_example = from_str-to_prefixed sample refl refl

abbrev zeros : ℕ → List ℕ → List ℕ
zeros zero rest = rest
zeros (suc n) rest = b'0' ∷ zeros n rest

-- A sign in front of a digit is read as a digit is.
signed :
    from_str (prefix ++ b'+' ∷ b'f' ∷ zeros 62 []) ≡ from_str (prefix ++ b'0' ∷ b'f' ∷ zeros 62 [])
unfolding from_str strip_prefix parse_pairs
signed = refl

-- Two bytes of one character, the first of them at an odd place.
accented : from_str (prefix ++ b'0' ∷ 195 ∷ 169 ∷ zeros 61 []) ≡ panicked
unfolding from_str strip_prefix parse_pairs
accented = refl
