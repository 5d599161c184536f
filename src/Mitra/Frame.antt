-- ===== src/Mitra/Frame.antt =====
-- The normalised frame (`FrameKind`, `ParsedOption`, `Frame` of
-- backend/app/integrations/mitra/frame_parser.py).
use saarathi.Common.{Text, Bool, false, Option, none, List, []}
use saarathi.Python.{ℤ, pos}

pub data FrameKind : Type 0 where
  bot_chunk bot_final user_echo system error : FrameKind

pub record ParsedOption : Type 0 where
  pub id : Text
  pub label : Text
  pub value : Text

pub record Frame : Type 0 where
  pub kind : FrameKind
  pub source : Text
  pub msg : Text
  pub step : ℤ
  pub finish_reason : Option Text
  pub options : List ParsedOption
  pub error_text : Text
  pub control_payload : Bool

-- A frame with the defaults of the dataclass.
abbrev pub frame : FrameKind → Frame
frame kind = record {
  kind = kind;
  source = [];
  msg = [];
  step = pos 0;
  finish_reason = none;
  options = [];
  error_text = [];
  control_payload = false;
}
