-- ===== src/Handlers/RemoteFlow/Examples.antt =====
-- Tests of the remote handler, and its theorem at a concrete service.
use saarathi.Common.{codes, true, none, some, List, [], ◌∷◌, ◌≡◌, refl, length}
use saarathi.Python.{Json, str, int, pos, list, nil, cons, dict, field, end}
use saarathi.Python.Ascii.{ascii}
use saarathi.Exec.{Outcome, returned, raises, mitra_channel_closed}
use saarathi.Database.{pending}
use saarathi.Sessions.Sample.{session}
use saarathi.Mitra.Channel.{BotTurn}
use saarathi.Mitra.Rest.{response}
use saarathi.Mitra.Rest.Sample.{sample_client}
use saarathi.Orchestration.Sample.{remote, caller}
use saarathi.Orchestration.Turn.{TurnContext}
use saarathi.Handlers.RemoteFlow.{Talk, Remote, Visit, HandlerDeps, handle}

-- one answer for every endpoint
abbrev everything : Json
everything = dict (
    field (codes "id") (int (pos 5)) (
      field (codes "sessionid") (str (codes "s9")) (
        field (codes "results")
          (list (cons (dict (field (codes "status") (str (codes "COMPLETED")) end)) nil)) end)))

abbrev visit : Visit
visit = record { alive = λ ch. true; now = 1; connect = λ sess. returned tt }

-- the first channel has died, and the second one answers
abbrev talk : List Talk → Talk → Outcome BotTurn
talk [] t = raises (mitra_channel_closed (codes "gone"))
talk (u ∷ us) t = returned (record { text = codes "And then?"; options = []; step = some (pos 2) })

abbrev deps : HandlerDeps
deps = record {
  rt = ascii;
  client = sample_client;
  send = λ log r. response (record { status = 200; json = some everything });
  getenv = λ name. some name;
  max_channels = 4;
  first_visit = visit;
  second_visit = visit;
  talk = talk;
}

abbrev start : Remote
start = record {
  requests = [];
  pool = record { chans = []; last_used = []; closed = []; opened = 0 };
  talks = [];
}

abbrev context : TurnContext
context = record {
  conversation_id = 7;
  caller = caller;
  text = codes "Once upon a time";
  option_id = none;
  history = [];
  session = some (record (session 0 1 pending) { remote_session_id = none });
  locale = codes "en";
}

-- the text goes to two channels, and the first one is closed
test_talks : length (handle deps remote context start).1.talks ≡ 2
unfolding handle
test_talks = refl

test_closed : (handle deps remote context start).1.pool.closed ≡ 0 ∷ []
unfolding handle
test_closed = refl
