-- ===== src/Mitra/FrameParser.antt =====
-- backend/app/integrations/mitra/frame_parser.py: any message of the socket as one `Frame`.
-- Bytes are decoded and JSON is read by the parameters `decode` and `loads`.
pub mod Kinds
pub mod Malformed
pub mod Echo
use saarathi.Common.{
  ℕ, zero, suc, Text, codes, Bool, true, false, ◌||◌, Option, none, some, List, [], ◌∷◌, ◌++◌, not,
  map, is_empty, text_eq, mem_text, strip, join, keep, decimal, if◌then◌else◌,
}
use saarathi.Python.{
  ℤ, pos, Json, null, bool, int, float, str, list, dict, Fields, elements, Result, ok, raised,
  ◌>>=◌, Runtime, get, has_key, truthy, or_py,
}
use saarathi.Mitra.Frame.{Frame, frame, error}
use saarathi.Mitra.Coercions.{nonempty_or_none, coerce_str}
use saarathi.Mitra.Envelopes.{final_if, parse_text_envelope, parse_legacy_envelope}

pub data Raw : Type 0 where
  text_message : Text → Raw
  bytes_message : List ℕ → Raw

abbrev pub error_frame : Text → Frame
error_frame reason = record (frame error) { error_text = reason }

-- `type(v).__name__`
type_name : Json → Text
type_name null = codes "NoneType"
type_name (bool b) = codes "bool"
type_name (int z) = codes "int"
type_name (float bits) = codes "float"
type_name (str s) = codes "str"
type_name (list vs) = codes "list"
type_name (dict fs) = codes "dict"

or_error : Result Frame → Frame
or_error (ok f) = f
or_error (raised reason) = error_frame (codes "text envelope parse error: " ++ reason)

abbrev pub has_legacy_key : Fields → Bool
has_legacy_key payload =
    has_key (codes "type") payload
    || (has_key (codes "message") payload
        || (has_key (codes "msg") payload || has_key (codes "content") payload))

module _ (rt : Runtime) where
  degenerate_frame : Fields → Text → Frame
  unfolding coerce_str final_if
  degenerate_frame payload text =
      let finish_reason =
        nonempty_or_none (coerce_str rt (get (codes "finish_reason") payload) []) in
      record (frame (final_if finish_reason)) {
        source = codes "bot";
        msg = text;
        finish_reason = finish_reason;
      }

  -- steps 2 and 3 of `parse`, on the value of the `text` key
  route : Fields → Json → Frame
  unfolding or_error parse_text_envelope parse_legacy_envelope degenerate_frame
  route payload (dict text) = or_error (parse_text_envelope rt text)
  route payload (str text) = degenerate_frame payload text
  route payload _ =
      if has_legacy_key payload
      then parse_legacy_envelope rt payload
      else error_frame (codes "unrecognised frame shape — no 'text' key")

  parse_payload : Json → Frame
  unfolding route
  parse_payload (dict payload) = route payload (get (codes "text") payload)
  parse_payload v = error_frame (codes "expected JSON object, got " ++ type_name v)

  parse_loaded : Result Json → Frame
  parse_loaded (ok payload) = parse_payload payload
  parse_loaded (raised reason) = error_frame (codes "JSON decode error: " ++ reason)

-- `raw.decode("utf-8", errors="replace")` of a bytes message
unfoldable pub decoded : (List ℕ → Text) → Raw → Text
decoded decode (text_message s) = s
decoded decode (bytes_message b) = decode b

-- `parse`
unfoldable pub parse : Runtime → (List ℕ → Text) → (Text → Result Json) → Raw → Frame
unfolding parse_loaded parse_payload type_name
parse rt decode loads raw = parse_loaded rt (loads (decoded decode raw))
