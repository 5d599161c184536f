-- ===== src/Orchestration/Sample.antt =====
-- A world, an agent and a service for the tests.
use saarathi.Common.{
  false, ℕ, Text, codes, true, Option, none, some, [], ◌∷◌, refl, text_eq, mem_text,
}
use saarathi.Exec.{Error, Outcome, returned}
use saarathi.Database.{Db, AgentSession, awaiting_user}
use saarathi.Database.Sessions.{table_ok, row_ok, clash}
use saarathi.Agents.{RegisteredAgent, RemoteSpec, UserContext, remote_flow}
use saarathi.Sessions.Sample.{session, conversation, agent_of}
use saarathi.Sessions.Consistent.{Consistent, distinct_ids, ids_below}
use saarathi.Orchestration.{World}
use saarathi.Orchestration.Finalize.{Rest}

abbrev pub remote : RemoteSpec
remote = record {
  flow_name = codes "guest-story";
  bot_route_env = codes "BOT";
  company_env = codes "COMPANY";
  default_language = codes "en";
  handshake = record { settle_ms = 1; ack_types = []; timeout_ms = 2 };
  turn = record { first_turn_timeout_ms = 3; turn_timeout_ms = 3; idle_gap_ms = 1 };
  completion_poll_every_turn = true;
  finalize_path = codes "/api/end-story/";
  finalize_as_guest = true;
  report_media_type = codes "application/pdf";
}

abbrev pub interview : RegisteredAgent
interview = agent_of (remote_flow remote) 1 true

abbrev pub caller : UserContext
caller = record {
  user_id = codes "u";
  email = codes "u@x";
  display_name = codes "U";
  tenant_code = codes "t";
  orgs = [];
  active_org_id = none;
  locale = codes "en";
  token = none;
}

abbrev pub world : World
world =
    let db : Db = record {
      sessions = session 0 1 awaiting_user ∷ [];
      conversations = conversation ∷ [];
      messages = [];
      audit = [];
      fresh = 9;
      now = 20;
    } in
    record {
      db = db;
      committed = db;
      in_transaction = false;
      locks = [];
      events = [];
      scopes = [];
      tools = [];
      model_calls = [];
    }

pub world-Consistent : Consistent world.db
unfolding table_ok row_ok clash distinct_ids ids_below mem_text text_eq
world-Consistent = record { constraints = refl; distinct = refl; below = refl }

abbrev pub client : Outcome Text → Outcome (Option Text) → Rest
client story report = record {
  submit_story = λ r. story;
  report_url_of = λ sid media. report;
  session_completed = λ sid. returned true;
  chat_rows = λ sid pid. returned [];
}

abbrev pub closes_well : Option (ℕ → Outcome (Unit {0}))
closes_well = some (λ c. returned tt)

abbrev pub say : Error → Text
say e = codes "error"

abbrev pub waiting : AgentSession
waiting = session 0 1 awaiting_user

abbrev pub reporting : Rest
reporting = client (returned (codes "story")) (returned (some (codes "https://h/r")))
