-- ===== src/Orchestration/Examples.antt =====
-- Tests of the turns, and their theorems at a concrete world.
use mathlib.Core.List.{Memᴰ}
use saarathi.Common.{
  codes, true, false, none, some, [], ◌∷◌, ◌≡◌, refl, text_eq, mem_text, leb, keep, find, strip,
  strip_chars, ltrim, words, join,
}
use saarathi.Python.{null, pos}
use saarathi.Python.Ascii.{ascii}
use saarathi.Exec.{Outcome, one_or_none, ◌>>=◌, returned, raises, mitra_http_error}
use saarathi.Database.{Message, user, AgentSession, awaiting_user}
use saarathi.Database.Messages.{recent}
use saarathi.Database.Tables.{update, updated}
use saarathi.Registry.{Registry}
use saarathi.Router.{decide, explicit}
use saarathi.Sessions.Sample.{conversation}
use saarathi.Orchestration.Recovery.{AgentTurn}
use saarathi.Orchestration.Turn.{
  Deployment, TurnInput, Prepared, prepare, handle_turn, handle_turn_locked, apply_delta,
  finalize_terminal,
}
use saarathi.Orchestration.Locks.{Turned, handle_turn-Turned}
use saarathi.Orchestration.Kept.{Said, handle_turn_locked-Kept}
use saarathi.Orchestration.Terminal.{end_of, terminal_turn-ends}
use saarathi.Orchestration.Finalize.{delta_to, request_of}
use saarathi.Orchestration.Finalize.Outcomes.{Left}
use saarathi.Sessions.{SessionDelta, apply, allowed}
use saarathi.Sessions.Applied.{applied}
use saarathi.Database.Sessions.{
  update_state_and_fields, update_returning, write, table_ok, row_ok, clash,
}
use saarathi.Orchestration.Sample.{
  remote, world-Consistent, interview, caller, world, closes_well, say, waiting, reporting,
}

abbrev registry : Registry
registry = record {
  snapshot = (codes "a", interview) ∷ [];
  legacy_names = [];
  version = 1;
  loaded_at = 0;
  max_updated_at = none;
}

abbrev reply : AgentTurn
reply = record {
  text = codes "And then?";
  options = [];
  session_delta = none;
  tool_traces = [];
  terminal = false;
}

abbrev deployment : Outcome AgentTurn → Deployment
deployment turn = record {
  rt = ascii;
  registry = registry;
  invoke = λ agents. returned [];
  loads = λ t. returned null;
  float_of = λ v. returned 0;
  at_least = λ a b. leb b a;
  scoped_rows = returned [];
  error_text = say;
  rest = some reporting;
  close = closes_well;
  build = λ spec checksum. returned (λ ctx. turn);
  meanwhile = λ db. db;
  minute = 60;
  today = codes "01 Jan 10:00";
  is_postgres = true;
  connection = 4;
  hashtext = λ conv_id. conv_id;
}

abbrev input : TurnInput
input = record {
  conversation_id = some 7;
  caller = caller;
  text = codes "Once upon a time";
  option_id = none;
  agent_key = some (codes "a");
  autostart = false;
}

handle_turn-Turned_example :
    Turned
      (deployment (returned reply))
      input
      world
      (handle_turn (deployment (returned reply)) input world)
handle_turn-Turned_example = handle_turn-Turned (deployment (returned reply)) input world

abbrev broken : Deployment
broken = deployment (raises (mitra_http_error 500 none))

-- what the first transaction finds for `input`
abbrev found : Prepared
found = record {
  agent = interview;
  decision = decide interview explicit;
  session = some waiting;
  history =
      record {
        id = 9;
        conversation_id = 7;
        seq = 3;
        role = user;
        content = input.text;
        agent_id = none;
        agent_session_id = none;
        created_at = 20;
      }
      ∷ [];
}

test_prepared : (prepare broken input conversation world).0 ≡ returned found
unfolding prepare update mem_text text_eq updated join words strip_chars ltrim strip find keep
    recent
test_prepared = refl

handle_turn_locked-Kept_example :
    ((prepare broken input conversation world).1.committed
      ≡ (prepare broken input conversation world).1.db)
    × ((prepare broken input conversation world).1.in_transaction ≡ false)
    × (m : Message) × Said input 7 m
    × Memᴰ m (prepare broken input conversation world).1.committed.messages
    × Memᴰ m (handle_turn_locked broken input conversation world).1.committed.messages
handle_turn_locked-Kept_example =
    handle_turn_locked-Kept broken input conversation world found (λ m db h. h) test_prepared

-- the interview has been told that it is over
abbrev last_delta : SessionDelta
last_delta = record (delta_to awaiting_user) { step = some (pos 4) }

abbrev last_row : AgentSession
last_row = applied last_delta 20 waiting

last_row_lem : (apply waiting last_delta world.db).0 ≡ returned last_row
unfolding apply allowed update_state_and_fields update_returning write table_ok row_ok clash update
    updated mem_text text_eq one_or_none ◌>>=◌
last_row_lem = refl

terminal_turn-ends_example :
    let d = deployment (returned reply) in
    let r =
      (apply_delta d (some waiting) (some last_delta) >>= finalize_terminal d interview caller true)
        world in
    (b : AgentSession) × Left waiting
      (end_of (reporting.submit_story (request_of remote last_row caller)))
      b
      r.1.db
terminal_turn-ends_example =
    terminal_turn-ends (deployment (returned reply)) reporting interview remote caller waiting
      last_row last_delta world world-Consistent last_row_lem refl refl refl refl refl
