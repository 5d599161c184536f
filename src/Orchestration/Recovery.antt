-- ===== src/Orchestration/Recovery.antt =====
-- `_reconcile`, `_recover_timed_out_turn` and `resume_turn`: what became of a turn that was given up.
use saarathi.Common.{ℕ, Text, Bool, true, false, ◌&&◌, Option, none, some, List, [], if◌then◌else◌}
use saarathi.Exec.{Exec, Outcome, returned, raises, pure, raise, ◌>>=◌, ◌>>◌}
use saarathi.Database.{awaiting_user, AgentSession, Message, assistant}
use saarathi.Database.Sessions.{get}
use saarathi.Database.Messages.{insert, last_user_content}
use saarathi.Database.Conversations.{next_seq_for_update, touch}
use saarathi.Agents.{RegisteredAgent, RemoteSpec, remote_of}
use saarathi.Registry.{Registry, get_by_id}
use saarathi.Sessions.{SessionDelta, apply}
use saarathi.Mitra.Frame.{ParsedOption}
use saarathi.Mitra.TurnRecovery.{TurnOutcome, answered, not_delivered, Reconciliation, reconcile}
use saarathi.Database.Tools.{ToolTrace}
use saarathi.Orchestration.{World, on_db, commit}
use saarathi.Orchestration.Finalize.{Rest, delta_to, non_empty}

-- `AgentTurn` (backend/app/agents/protocol.py), without the figures about the model
pub record AgentTurn : Type 0 where
  pub text : Text
  pub options : List ParsedOption
  pub session_delta : Option SessionDelta
  pub tool_traces : List ToolTrace
  pub terminal : Bool

-- the remote session of a session, if both of its names are there
abbrev pub remote_names : Option Text → Option Text → Option (Text × Text)
remote_names (some sid) (some pid) = some (sid, pid)
remote_names _ _ = none

abbrev reconciled : Rest → Text → Option (Text × Text) → Outcome (Option Reconciliation)
reconciled client sent_text none = returned none
reconciled client sent_text (some (sid, pid)) = elim (client.chat_rows sid pid) [
  | raises e ↦ raises e
  | returned rows ↦ returned (some (reconcile rows sent_text))
]

-- `_reconcile`
unfoldable pub reconcile_turn :
    Option Rest → Option RemoteSpec → Option AgentSession → Text → Outcome (Option Reconciliation)
reconcile_turn (some client) (some remote) (some session) sent_text =
    reconciled client sent_text
      (remote_names (non_empty session.remote_session_id) (non_empty session.remote_profile_id))
reconcile_turn _ _ _ sent_text = returned none

-- the completion poll, where an error counts as not completed
abbrev pub polled : Outcome Bool → Bool
polled (returned done) = done
polled (raises e) = false

abbrev pub is_done : Rest → RemoteSpec → AgentSession → Bool
is_done client remote session =
    remote.completion_poll_every_turn && polled (client.session_completed session.remote_session_id)

abbrev pub recovered_delta : RemoteSpec → AgentSession → SessionDelta
recovered_delta remote session = record (delta_to awaiting_user) {
  remote_session_id = session.remote_session_id;
  remote_profile_id = session.remote_profile_id;
  remote_flow = some remote.flow_name;
  remote_bot_route = session.remote_bot_route;
}

abbrev pub recovered_turn : Rest → RemoteSpec → AgentSession → Reconciliation → AgentTurn
recovered_turn client remote session result = record {
  text = result.bot_text;
  options = [];
  session_delta = some (recovered_delta remote session);
  tool_traces = [];
  terminal = is_done client remote session;
}

abbrev pub is_answered : TurnOutcome → Bool
is_answered answered = true
is_answered _ = false

abbrev pub if_answered :
    Rest → RemoteSpec → AgentSession → Outcome (Option Reconciliation) → Option AgentTurn
if_answered client remote session (returned (some result)) =
    if is_answered result.outcome then some (recovered_turn client remote session result) else none
if_answered client remote session _ = none

-- `_recover_timed_out_turn`; None lets the timeout propagate
unfoldable pub recover_timed_out_turn :
    Option Rest → Option RemoteSpec → Option AgentSession → Text → Option AgentTurn
unfolding reconcile_turn
recover_timed_out_turn (some client) (some remote) (some session) sent_text =
    if_answered client remote session
      (reconcile_turn (some client) (some remote) (some session) sent_text)
recover_timed_out_turn _ _ _ sent_text = none

pub record ResumeResult : Type 0 where
  pub outcome : TurnOutcome
  pub session : AgentSession
  pub text : Text
  pub message : Option Message

abbrev pub without_message : TurnOutcome → AgentSession → ResumeResult
without_message outcome session = record {
  outcome = outcome;
  session = session;
  text = [];
  message = none;
}

module _ (rest : Option Rest) (registry : Registry) where
  -- the recovered reply is stored
  unfoldable pub store_reply :
      RegisteredAgent → AgentSession → Reconciliation → Exec World ResumeResult
  unfolding on_db commit next_seq_for_update insert apply touch ◌>>=◌
  store_reply agent session result = do
    seq ← on_db _ (next_seq_for_update session.conversation_id)
    msg ← on_db _ (
        insert session.conversation_id seq assistant result.bot_text (some agent.id)
          (some session.id))
    updated ← on_db _ (apply session (delta_to awaiting_user))
    on_db _ (touch session.conversation_id none)
    commit
    pure (record {
      outcome = answered;
      session = updated;
      text = result.bot_text;
      message = some msg;
    })

  unfoldable pub resume_with :
      RegisteredAgent → AgentSession → Outcome (Option Reconciliation) → Exec World ResumeResult
  unfolding store_reply
  resume_with agent session (raises e) = raise e
  resume_with agent session (returned none) = pure (without_message not_delivered session)
  resume_with agent session (returned (some result)) =
      if is_answered result.outcome
      then store_reply agent session result
      else pure (without_message result.outcome session)

  -- `if agent is None or not last_user_text`
  unfoldable pub resume_agent :
      AgentSession → Option RegisteredAgent → Option Text → Exec World ResumeResult
  unfolding resume_with reconcile_turn
  resume_agent session (some agent) (some text) =
      resume_with agent session
        (reconcile_turn rest (remote_of agent.spec.agent_type) (some session) text)
  resume_agent session _ _ = pure (without_message not_delivered session)

  unfoldable pub resume_found : Option AgentSession → Exec World (Option ResumeResult)
  unfolding resume_agent get_by_id last_user_content ◌>>=◌
  resume_found none w = (returned none, w)
  resume_found (some session) w =
      (resume_agent session (get_by_id session.agent_id registry)
            (non_empty (last_user_content session.conversation_id w.db.messages))
          >>= λ r. pure (some r))
        w

  unfoldable pub resume_turn : ℕ → Exec World (Option ResumeResult)
  unfolding on_db get resume_found ◌>>=◌
  resume_turn session_id = on_db _ (get session_id) >>= resume_found
