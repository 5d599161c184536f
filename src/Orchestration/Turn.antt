-- ===== src/Orchestration/Turn.antt =====
-- `handle_turn` and `_handle_turn_locked`. `Deployment` is what one request finds outside: the
-- registry's snapshot, the language model, the remote services, the handlers and the clock.
mod Request
mod Opening
pub use Request.{
  TurnInput, TurnContext, TurnResult, Prepared, Deployment, owner_of, or_default_scope, is_timeout,
  is_aborted, routed,
}
pub use Opening.{pin_if}
unfoldable pub use Opening.{
  held_elsewhere, try_lock_conversation, release, unlock_conversation, title_now, record_message,
  route, resolve, open_turn, prepare,
}
use saarathi.Common.{
  ℕ, Text, codes, Bool, true, false, not, ◌&&◌, ◌||◌, Option, none, some, List, [], ◌∷◌, ◌++◌,
  is_empty, ◌==◌, if◌then◌else◌,
}
use saarathi.Python.{Json, Runtime}
use saarathi.Exec.{
  Exec, Error, Outcome, returned, raises, pure, raise, ◌>>=◌, ◌>>◌, concurrent_turn,
  mitra_turn_timeout, integrity_error,
}
use saarathi.Database.{Db, Conversation, AgentSession, Message, user, assistant}
use saarathi.Database.Messages.{insert, recent}
use saarathi.Database.Conversations.{
  Owner, get_or_create, next_seq_for_update, touch, replace_placeholder_title,
  set_placeholder_title, pin,
}
use saarathi.Database.Tools.{bulk_insert, ToolExecution}
use saarathi.Agents.{AgentSpec, RegisteredAgent, UserContext, remote_of}
use saarathi.Registry.{Registry}
use saarathi.Registry.Scopes.{ScopedConfig, resolve_for_scope, default_scope}
use saarathi.Router.{RouterState, RouteDecision, select}
use saarathi.Sessions.{SessionDelta, apply, open_for}
use saarathi.Orchestration.{
  World, on_db, commit, emit, handles, attribute_error, conversation_title, agent_fallback_title,
  check_limits,
}
use saarathi.Orchestration.Finalize.{Rest, close_remote_channel, finalize}
use saarathi.Orchestration.Recovery.{AgentTurn, recover_timed_out_turn}

module _ (d : Deployment) where
  abbrev pub context : TurnInput → ℕ → Prepared → TurnContext
  context input conv_id p = record {
    conversation_id = conv_id;
    caller = input.caller;
    text = input.text;
    option_id = input.option_id;
    history = p.history;
    session = p.session;
    locale = input.caller.locale;
  }

  -- a timeout is given up only if nothing can be recovered
  abbrev pub or_timeout : Option AgentTurn → Exec World AgentTurn
  or_timeout none = raise mitra_turn_timeout
  or_timeout (some turn) = pure turn

  unfoldable pub or_recovered : TurnInput → Prepared → Outcome AgentTurn → Exec World AgentTurn
  unfolding recover_timed_out_turn
  or_recovered input p (returned turn) = pure turn
  or_recovered input p (raises e) =
      if is_timeout e
      then or_timeout
          (recover_timed_out_turn d.rest (remote_of p.agent.spec.agent_type) p.session input.text)
      else raise e

  unfoldable pub handled_by :
      TurnInput → ℕ → Prepared → Outcome (TurnContext → Outcome AgentTurn) → Exec World AgentTurn
  unfolding or_recovered
  handled_by input conv_id p (raises e) w = (raises e, w)
  handled_by input conv_id p (returned handle) w =
      or_recovered input p (handle (context input conv_id p)) (record w {
        db = d.meanwhile w.db;
        committed = d.meanwhile w.db;
        events = handles conv_id ∷ w.events;
      })

  -- step 10
  unfoldable pub answer : TurnInput → ℕ → Prepared → Exec World AgentTurn
  unfolding handled_by
  answer input conv_id p = handled_by input conv_id p (d.build p.agent.spec p.agent.checksum)

  -- step 11
  unfoldable pub apply_delta :
      Option AgentSession → Option SessionDelta → Exec World (Option AgentSession)
  unfolding on_db apply ◌>>=◌
  apply_delta (some session) (some delta) = on_db _ (apply session delta) >>= λ row. pure (some row)
  apply_delta session _ = pure session

  unfoldable pub finalize_terminal :
      RegisteredAgent → UserContext → Bool → Option AgentSession → Exec World (Option AgentSession)
  unfolding finalize ◌>>=◌
  finalize_terminal agent caller true (some session) =
      finalize d.error_text d.rest d.close session (some agent) caller >>= λ s. pure (some s)
  finalize_terminal agent caller _ session = pure session

  abbrev pub id_of_session : Option AgentSession → Option ℕ
  id_of_session none = none
  id_of_session (some session) = some session.id

  abbrev pub add_tools : Outcome (List ToolExecution) → Exec World (Unit {0})
  add_tools (raises e) w = (raises e, w)
  add_tools (returned rows) w = (returned tt, record w { tools = w.tools ++ rows })

  -- step 13
  unfoldable pub record_tools : RegisteredAgent → Message → AgentTurn → Exec World (Unit {0})
  unfolding bulk_insert
  record_tools agent msg turn =
      if agent.spec.record_tool_executions
      then add_tools (bulk_insert msg.id (some agent.id) turn.tool_traces)
      else pure tt

  -- step 14
  unfoldable pub refresh_title : TurnInput → ℕ → RegisteredAgent → Exec World (Unit {0})
  unfolding on_db touch set_placeholder_title agent_fallback_title conversation_title ◌>>=◌
  refresh_title input conv_id agent =
      if input.autostart
      then on_db _ (touch conv_id none)
        >> on_db _ (set_placeholder_title conv_id (agent_fallback_title agent d.today))
      else on_db _ (touch conv_id (some (conversation_title input.text)))

  -- steps 11 to 14
  unfoldable pub finish : TurnInput → Conversation → Prepared → AgentTurn → Exec World TurnResult
  unfolding apply_delta finalize_terminal on_db next_seq_for_update insert record_tools
      refresh_title commit ◌>>=◌
  finish input conv p turn = do
    applied ← apply_delta p.session turn.session_delta
    session ← finalize_terminal p.agent input.caller turn.terminal applied
    seq ← on_db _ (next_seq_for_update conv.id)
    msg ← on_db _ (insert conv.id seq assistant turn.text (some p.agent.id) (id_of_session session))
    record_tools p.agent msg turn
    refresh_title input conv.id p.agent
    commit
    pure (record {
      conversation = conv;
      message = msg;
      agent = p.agent;
      decision = p.decision;
      turn = turn;
      session = session;
    })

  unfoldable pub handle_turn_locked : TurnInput → Conversation → Exec World TurnResult
  unfolding prepare answer finish ◌>>=◌
  handle_turn_locked input conv = do
    p ← prepare d input conv
    turn ← answer input conv.id p
    finish input conv p turn

  -- `finally: self._unlock_conversation(conv.id)`. A statement in an aborted transaction is refused,
  -- which the method logs.
  abbrev pub unlocked : ℕ → Outcome TurnResult × World → Outcome TurnResult × World
  unfolding unlock_conversation
  unlocked conv_id (o, w) = (o, if is_aborted o then w else unlock_conversation d conv_id w)

  unfoldable pub claimed_turn : TurnInput → Conversation → Bool → Exec World TurnResult
  unfolding unlocked
  claimed_turn input conv locked w =
      if not locked
      then (raises (concurrent_turn conv.id), w)
      else unlocked conv.id (handle_turn_locked input conv w)

  unfoldable pub handle_turn : TurnInput → Exec World TurnResult
  unfolding on_db get_or_create try_lock_conversation claimed_turn ◌>>=◌
  handle_turn input = do
    conv ← on_db _ (get_or_create input.conversation_id (owner_of input.caller))
    locked ← try_lock_conversation d conv.id
    claimed_turn input conv locked
