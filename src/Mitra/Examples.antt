-- ===== src/Mitra/Examples.antt =====
-- Runs of the parser and of the turn recovery, and the theorems at concrete inputs.
use saarathi.Common.{
  ℕ, Text, codes, true, false, some, List, [], ◌∷◌, ◌≡◌, refl, ◌↔◌, is_empty, text_eq, mem_text,
  strip, join, keep, find,
}
use saarathi.Python.{
  pos, Json, int, str, list, dict, nil, cons, Fields, end, field, Result, ok, get, has_key, truthy,
  or_py,
}
use saarathi.Python.Ascii.{ascii}
use saarathi.Python.Conversions.{str_of, int_of}
use saarathi.Mitra.Frame.{bot_final, error, frame}
use saarathi.Mitra.Coercions.{recover_response_text, coerce_str, coerce_message_text, coerce_int}
use saarathi.Mitra.Options.{normalise_options, option_of}
use saarathi.Mitra.FrameParser.{Raw, text_message, parse, decoded}
use saarathi.Mitra.FrameParser.Kinds.{WellFormed, parse-WellFormed}
use saarathi.Mitra.FrameParser.Malformed.{IsMalformed, parse-error_iff}
use saarathi.Mitra.TurnRecovery.{ChatRow, reconcile, with_reply}
use saarathi.Mitra.TurnRecovery.Fate.{Fate, reconcile-Fate, Fate-eq-reconcile}

-- `{"text": {"source": "bot", "msg": "Hi", "step": 2, "finish_reason": "stop"}}`
abbrev bot_turn : Json
bot_turn = dict (
    field (codes "text")
      (dict (
        field (codes "source") (str (codes "bot")) (
          field (codes "msg") (str (codes "Hi")) (
            field (codes "step") (int (pos 2))
              (field (codes "finish_reason") (str (codes "stop")) end)))))
      end)

-- every message reads as that object
abbrev loads_bot_turn : Text → Result Json
loads_bot_turn s = ok bot_turn

abbrev any_message : Raw
any_message = text_message (codes "{}")

abbrev decode : List ℕ → Text
decode b = b

program : Unit {0}
unfolding parse decoded coerce_str coerce_message_text coerce_int int_of str_of get has_key truthy
    or_py text_eq mem_text normalise_options strip
program = tt

parse_bot_turn : parse ascii decode loads_bot_turn any_message ≡ record (frame bot_final) {
  source = codes "bot";
  msg = codes "Hi";
  step = pos 2;
  finish_reason = some (codes "stop");
}
unfolding program
parse_bot_turn = refl

parse-WellFormed_example : WellFormed (parse ascii decode loads_bot_turn any_message)
parse-WellFormed_example = parse-WellFormed ascii decode loads_bot_turn any_message (λ bits. refl)

parse-error_iff_example :
    ((parse ascii decode loads_bot_turn any_message).kind ≡ error)
    ↔ IsMalformed ascii (loads_bot_turn (decoded decode any_message))
parse-error_iff_example = parse-error_iff ascii decode loads_bot_turn any_message

-- `[{"response": " Hello "}, {"name": "tool"}]`
abbrev leaked : Json
leaked = list (
    cons (dict (field (codes "response") (str (codes " Hello ")) end))
      (cons (dict (field (codes "name") (str (codes "tool")) end)) nil))

recover_leaked : recover_response_text 7 leaked ≡ codes "Hello"
unfolding recover_response_text get text_eq strip join keep
recover_leaked = refl

-- `{"label": "Yes", "value": ""}`
abbrev blank_value : Fields
blank_value = field (codes "label") (str (codes "Yes")) (field (codes "value") (str []) end)

abbrev user_row : ChatRow
user_row = record {
  id = pos 1;
  from_user = true;
  message = codes "No ";
  translated_message = [];
  stage = [];
}

abbrev bot_row : ChatRow
bot_row = record {
  id = pos 2;
  from_user = false;
  message = codes " Why? ";
  translated_message = [];
  stage = codes "2";
}

abbrev rows : List ChatRow
rows = user_row ∷ bot_row ∷ []

reconcile-rows : reconcile rows (codes "No") ≡ with_reply bot_row
unfolding reconcile strip mem_text text_eq find
reconcile-rows = refl

reconcile-Fate_example : Fate (codes "No") rows (reconcile rows (codes "No"))
reconcile-Fate_example = reconcile-Fate rows (codes "No")

Fate-eq-reconcile_example : reconcile rows (codes "No") ≡ reconcile rows (codes "No")
Fate-eq-reconcile_example =
    Fate-eq-reconcile rows (codes "No") (reconcile rows (codes "No"))
      (reconcile-Fate rows (codes "No"))

-- an option without a value keeps an empty id
test_blank : is_empty (option_of ascii 0 blank_value).id ≡ true
unfolding option_of coerce_str or_py truthy get text_eq
test_blank = refl
