-- ===== src/Mitra/Coercions.antt =====
-- The coercions of backend/app/integrations/mitra/frame_parser.py, and the recovery of user-facing
-- text from a leaked payload.
use saarathi.Common.{
  ℕ, zero, suc, Text, codes, Bool, true, false, Option, none, some, [], ◌∷◌, not, map, is_empty,
  strip, join, keep, if◌then◌else◌,
}
use saarathi.Python.{ℤ, Json, null, str, list, dict, elements, Result, ok, raised, Runtime, get}
use saarathi.Python.Conversions.{str_of, int_of, IntResult, number, not_a_number, overflow}

abbrev pub truthy_text : Text → Bool
truthy_text s = not (is_empty s)

abbrev pub nonempty_or_none : Text → Option Text
nonempty_or_none s = if is_empty s then none else some s

-- `a or b` of two texts
abbrev pub or_text : Text → Text → Text
or_text a b = if is_empty a then b else a

-- the nested value of a `response` key, with the recursive call on it
recover_value : (Json → Text) → Json → Text
recover_value recover (str s) = if is_empty (strip s) then [] else strip s
recover_value recover (dict fs) = recover (dict fs)
recover_value recover (list vs) = recover (list vs)
recover_value recover _ = []

-- `_recover_response_text(obj, _depth)` with `levels` = 7 - `_depth`
unfoldable pub recover_response_text : ℕ → Json → Text
unfolding recover_value
recover_response_text zero v = []
recover_response_text (suc levels) (dict fs) = join (codes " ") (
    keep truthy_text
      (recover_value (recover_response_text levels) (get (codes "response") fs) ∷ []))
recover_response_text (suc levels) (list vs) =
    join (codes " ") (keep truthy_text (map (recover_response_text levels) (elements vs)))
recover_response_text (suc levels) _ = []

module _ (rt : Runtime) where
  -- `_coerce_str`
  unfoldable pub coerce_str : Json → Text → Text
  coerce_str null default = default
  coerce_str (str s) default = s
  coerce_str v default = str_of rt v

  -- `_coerce_message_text`: the text, and whether it came out of a control payload
  unfoldable pub coerce_message_text : Json → Text × Bool
  coerce_message_text null = ([], false)
  coerce_message_text (str s) = (s, false)
  coerce_message_text (list vs) = (recover_response_text 7 (list vs), true)
  coerce_message_text (dict fs) = (recover_response_text 7 (dict fs), true)
  coerce_message_text v = (str_of rt v, false)

  unfoldable pub int_or_default : IntResult → ℤ → Result ℤ
  int_or_default (number z) default = ok z
  int_or_default not_a_number default = ok default
  int_or_default overflow default = raised (codes "cannot convert float infinity to integer")

  -- `_coerce_int`: OverflowError is not among the exceptions that it catches
  unfoldable pub coerce_int : Json → ℤ → Result ℤ
  unfolding int_or_default
  coerce_int v default = int_or_default (int_of rt v) default
