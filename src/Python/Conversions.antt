-- ===== src/Python/Conversions.antt =====
-- `str(v)` and `int(v)` of a JSON value.
pub mod Truth
use saarathi.Common.{
  ℕ, zero, suc, ◌+◌, ◌-◌, ◌*◌, ◌/◌, ◌%◌, ◌^◌, Text, codes, Bool, true, false, Option, none, some,
  List, [], ◌∷◌, ◌++◌, decimal, strip, ltb, leb, ◌==◌, length, if◌then◌else◌,
}
use saarathi.Python.Values.{
  ℤ, pos, negsuc, Json, null, bool, int, float, str, list, dict, Items, nil, cons, Fields, end,
  field, Runtime, Result, ok, raised,
}

unfoldable pub int_text : ℤ → Text
int_text (pos n) = decimal n
int_text (negsuc n) = b'-' ∷ decimal (suc n)

abbrev pub bool_text : Bool → Text
bool_text true = codes "True"
bool_text false = codes "False"

-- What `int(v)` gives: a number, a TypeError or ValueError, or an OverflowError.
pub data IntResult : Type 0 where
  number : ℤ → IntResult
  not_a_number : IntResult
  overflow : IntResult

module _ (rt : Runtime) where
  -- `repr(v)`; it differs from `str(v)` at a text alone
  unfoldable mutual
    pub repr : Json → Text
    repr null = codes "None"
    repr (bool b) = bool_text b
    repr (int z) = int_text z
    repr (float bits) = rt.float_repr bits
    repr (str s) = rt.text_repr s
    repr (list vs) = b'[' ∷ (repr_items vs ++ b']' ∷ [])
    repr (dict fs) = b'{' ∷ (repr_fields fs ++ b'}' ∷ [])

    repr_items : Items → Text
    repr_items nil = []
    repr_items (cons v nil) = repr v
    repr_items (cons v (cons w vs)) = repr v ++ (codes ", " ++ repr_items (cons w vs))

    repr_fields : Fields → Text
    repr_fields end = []
    repr_fields (field k v end) = rt.text_repr k ++ (codes ": " ++ repr v)
    repr_fields (field k v (field l w fs)) =
        rt.text_repr k ++ (codes ": " ++ (repr v ++ (codes ", " ++ repr_fields (field l w fs))))

  unfoldable pub str_of : Json → Text
  unfolding repr
  str_of (str s) = s
  str_of v = repr v

  -- The digits of a text, with single underscores between them. `started` says that a digit has
  -- just been read; a text of more than 4300 digits is refused by the runtime.
  int_digits : Bool → ℕ → ℕ → Text → Option ℕ
  int_digits started count n [] =
      if started then (if ltb 4300 count then none else some n) else none
  int_digits started count n (c ∷ s) = elim (rt.digit c) [
    | some d ↦ int_digits true (count + 1) (n * 10 + d) s
    | none ↦
        if (c == b'_')
        then (elim started [ true ↦ int_digits false count n s | false ↦ none ])
        else none
  ]

  negated : ℕ → ℤ
  negated zero = pos zero
  negated (suc n) = negsuc n

  int_of_magnitude : (ℕ → ℤ) → Option ℕ → IntResult
  int_of_magnitude sign none = not_a_number
  int_of_magnitude sign (some n) = number (sign n)

  int_of_text : Text → IntResult
  int_of_text [] = not_a_number
  int_of_text (c ∷ s) =
      if c == b'-'
      then int_of_magnitude negated (int_digits false 0 0 s)
      else if c == b'+'
      then int_of_magnitude pos (int_digits false 0 0 s)
      else int_of_magnitude pos (int_digits false 0 0 (c ∷ s))

  -- The whole part of a double; its exponent 2047 marks the infinities and the NaNs.
  int_of_float : ℕ → IntResult
  int_of_float bits =
      let sign = if bits / 2 ^ 63 % 2 == 0 then pos else negated in
      let exponent = bits / 2 ^ 52 % 2 ^ 11 in
      let fraction = bits % 2 ^ 52 in
      let significand = fraction + 2 ^ 52 in
      if exponent == 2047
      then (if fraction == 0 then overflow else not_a_number)
      else if exponent == 0
      then number (pos 0)
      else if leb 1075 exponent
      then number (sign (significand * 2 ^ (exponent - 1075)))
      else number (sign (significand / 2 ^ (1075 - exponent)))

  unfoldable pub int_of : Json → IntResult
  unfolding int_of_float int_of_text int_digits int_of_magnitude negated
  int_of (bool true) = number (pos 1)
  int_of (bool false) = number (pos 0)
  int_of (int z) = number z
  int_of (float bits) = int_of_float bits
  int_of (str s) = int_of_text (strip s)
  int_of _ = not_a_number
