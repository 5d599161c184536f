-- ===== src/Python/Ascii.antt =====
-- A runtime for tests: lower case and digits of ASCII, and one text for every float.
use saarathi.Common.{
  ℕ, ◌+◌, ◌-◌, codes, ◌&&◌, Option, none, some, [], ◌∷◌, ◌++◌, map, leb, if◌then◌else◌,
}
use saarathi.Python.Values.{Runtime}

abbrev pub lower_char : ℕ → ℕ
lower_char c = if leb b'A' c && leb c b'Z' then c + 32 else c

abbrev pub ascii_digit : ℕ → Option ℕ
ascii_digit c = if leb b'0' c && leb c b'9' then some (c - b'0') else none

abbrev pub ascii : Runtime
ascii = record {
  lower = map lower_char;
  digit = ascii_digit;
  float_repr = λ bits. codes "1.5";
  text_repr = λ s. b'"' ∷ (s ++ b'"' ∷ []);
}
