-- ===== src/Mitra/Envelopes.antt =====
-- The two envelopes of backend/app/integrations/mitra/frame_parser.py.
use saarathi.Common.{
  Text, codes, Bool, ◌||◌, Option, none, some, List, [], ◌∷◌, ◌++◌, text_eq, mem_text,
  if◌then◌else◌,
}
use saarathi.Python.{
  ℤ, pos, Json, dict, Fields, end, field, Result, ok, ◌>>=◌, Runtime, get, truthy, or_py,
}
use saarathi.Mitra.Frame.{FrameKind, bot_chunk, bot_final, user_echo, system, Frame, frame}
use saarathi.Mitra.Coercions.{
  truthy_text, nonempty_or_none, or_text, coerce_str, coerce_message_text, coerce_int,
}
use saarathi.Mitra.Options.{normalise_options}

module _ (rt : Runtime) where
  -- `_parse_text_envelope`, once the step is known
  unfoldable pub text_frame : Fields → ℤ → Frame
  unfolding coerce_str coerce_message_text normalise_options
  text_frame text step =
      let source = coerce_str rt (get (codes "source") text) [] in
      let (msg, control) = coerce_message_text rt (get (codes "msg") text) in
      let finish_reason = get (codes "finish_reason") text in
      let error_val = coerce_str rt (get (codes "error") text) [] in
      let echo = record (frame user_echo) {
        source = source;
        msg = msg;
        step = step;
        control_payload = control;
      } in
      let control_frame = record (frame system) {
        source = source;
        msg = msg;
        step = step;
        error_text = or_text error_val msg;
        control_payload = control;
      } in
      let turn = record (frame (if truthy finish_reason then bot_final else bot_chunk)) {
        source = source;
        msg = msg;
        step = step;
        finish_reason =
            if truthy finish_reason then some (coerce_str rt finish_reason []) else none;
        options = normalise_options rt (get (codes "extra_content") text);
        control_payload = control;
      } in
      if text_eq source (codes "user")
      then echo
      else if text_eq source (codes "system") || truthy_text error_val
      then control_frame
      else turn

  unfoldable pub parse_text_envelope : Fields → Result Frame
  unfolding text_frame coerce_int
  parse_text_envelope text = do
    step ← coerce_int rt (get (codes "step") text) (pos 0)
    ok (text_frame text step)

abbrev legacy_system_types : List Text
legacy_system_types =
    codes "session_end" ∷ codes "error" ∷ codes "connected" ∷ codes "disconnected" ∷ []

abbrev legacy_bot_types : List Text
legacy_bot_types = codes "message" ∷ codes "bot_response" ∷ codes "response" ∷ []

abbrev legacy_option_types : List Text
legacy_option_types = codes "options" ∷ codes "choices" ∷ []

unfoldable pub final_if : Option Text → FrameKind
final_if none = bot_chunk
final_if (some reason) = bot_final

module _ (rt : Runtime) where
  unfoldable pub legacy_control : Fields → Text → Text → Bool → Text → Frame
  legacy_control raw envelope_type msg control error_val = record (frame system) {
    source = codes "system";
    msg = msg;
    error_text = or_text error_val (if text_eq envelope_type (codes "error") then msg else []);
    control_payload = control;
  }

  -- `raw.get("options") or raw.get("choices") or []`, as the `extra` dict
  legacy_choices : Fields → Json
  legacy_choices raw =
      let raw_opts = or_py (get (codes "options") raw) (get (codes "choices") raw) in
      if truthy raw_opts then dict (field (codes "options") raw_opts end) else dict end

  unfoldable pub legacy_options : Fields → Text → Bool → Frame
  unfolding normalise_options legacy_choices
  legacy_options raw msg control = record (frame bot_final) {
    source = codes "bot";
    msg = msg;
    finish_reason = some (codes "stop");
    options = normalise_options rt (legacy_choices raw);
    control_payload = control;
  }

  unfoldable pub legacy_turn : Fields → Text → Bool → Frame
  unfolding coerce_str final_if
  legacy_turn raw msg control =
      let finish_reason = nonempty_or_none (coerce_str rt (get (codes "finish_reason") raw) []) in
      record (frame (final_if finish_reason)) {
        source = codes "bot";
        msg = msg;
        finish_reason = finish_reason;
        control_payload = control;
      }

  unfoldable pub legacy_unknown : Fields → Text → Text → Frame
  unfolding coerce_str
  legacy_unknown raw envelope_type msg = record (frame system) {
    source = or_text (coerce_str rt (get (codes "source") raw) []) envelope_type;
    msg = msg;
    error_text = codes "unrecognised envelope type: " ++ rt.text_repr envelope_type;
  }

  -- the tests on the type of the envelope
  unfoldable pub legacy_frame : Fields → Text → Text → Bool → Text → Frame
  unfolding legacy_control legacy_options legacy_turn legacy_unknown
  legacy_frame raw envelope_type msg control error_val =
      if mem_text envelope_type legacy_system_types
      then legacy_control raw envelope_type msg control error_val
      else if mem_text envelope_type legacy_option_types
      then legacy_options raw msg control
      else if mem_text envelope_type legacy_bot_types || text_eq envelope_type (codes "text")
      then legacy_turn raw msg control
      else legacy_unknown raw envelope_type msg

  -- `_parse_legacy_envelope`
  unfoldable pub parse_legacy_envelope : Fields → Frame
  unfolding coerce_str coerce_message_text
  parse_legacy_envelope raw =
      let envelope_type = rt.lower (coerce_str rt (get (codes "type") raw) []) in
      let (msg, control) = coerce_message_text rt (
        or_py
          (or_py (or_py (get (codes "msg") raw) (get (codes "message") raw))
            (get (codes "text") raw))
          (get (codes "content") raw)) in
      let error_val = coerce_str rt (or_py (get (codes "error") raw) (get (codes "err") raw)) [] in
      legacy_frame raw envelope_type msg control error_val
