-- ===== src/Sessions.antt =====
-- backend/app/services/session_service.py: the lifecycle of an agent's session in a conversation.
-- `isoformat` is the text of a time. The callback `on_displace` works on a state of the caller's
-- that contains the database, which `on_db` runs an action on.
pub mod Sample
mod Examples
pub mod Transitions
pub mod Evolution
pub mod Consistent
pub mod Commands
pub mod Claims
pub mod Claimed
pub mod Applied
pub mod Written
pub mod Abandoned
pub mod Opened
pub mod Stable
use saarathi.Common.{
  ℕ, suc, ◌+◌, Text, codes, Bool, true, false, not, ◌||◌, Option, none, some, List, [], ◌∷◌, ◌++◌,
  or_else, ◌==◌, if◌then◌else◌,
}
use saarathi.Python.{ℤ, Json}
use saarathi.Exec.{
  Exec, Outcome, returned, raises, pure, raise, gets, ◌>>=◌, ◌>>◌, invalid_transition,
  concurrent_modification,
}
use saarathi.Database.{
  SessionState, pending, authenticating, in_progress, awaiting_user, finalizing, completed, failed,
  abandoned, AgentSession, is_terminal, Db, AuditAction, session_abandon, AuditEntry,
}
use saarathi.Database.Sessions.{
  update_state_and_fields, get_open_for_conversation, create_pending, abandon_open_session,
  sweep_abandoned_older_than,
}
use saarathi.Database.Conversations.{unpin}
use saarathi.Agents.{RegisteredAgent, remote_of, default_language_of}

-- `ALLOWED`
unfoldable pub allowed : SessionState → SessionState → Bool
allowed pending pending = true
allowed pending authenticating = true
allowed pending awaiting_user = true
allowed pending finalizing = true
allowed pending failed = true
allowed authenticating authenticating = true
allowed authenticating in_progress = true
allowed authenticating failed = true
allowed in_progress in_progress = true
allowed in_progress awaiting_user = true
allowed in_progress finalizing = true
allowed in_progress failed = true
allowed awaiting_user awaiting_user = true
allowed awaiting_user in_progress = true
allowed awaiting_user finalizing = true
allowed awaiting_user abandoned = true
allowed finalizing finalizing = true
allowed finalizing completed = true
allowed finalizing failed = true
allowed _ _ = false

-- `SessionDelta` (backend/app/agents/protocol.py)
pub record SessionDelta : Type 0 where
  pub state : SessionState
  pub remote_session_id : Option Text
  pub remote_profile_id : Option Text
  pub remote_flow : Option Text
  pub remote_bot_route : Option Text
  pub step : Option ℤ
  pub result_ref : Option Text
  pub report_url : Option Text
  pub error : Option Text
  pub state_data : Option Json

abbrev given {ℓ} : {A : Type ℓ} → Option A → A → A
given none old = old
given (some new) old = new

abbrev pub ended : SessionState → ℕ → Option ℕ → Option ℕ
ended state now old = if is_terminal state then some now else old

abbrev finalized : SessionState → ℕ → Option ℕ → Option ℕ
finalized completed now old = some now
finalized _ now old = old

-- `fields`: a field that the delta leaves out stays as it is
abbrev pub with_fields : SessionDelta → ℕ → AgentSession → AgentSession
with_fields delta now row = record row {
  remote_session_id = or_else delta.remote_session_id row.remote_session_id;
  remote_profile_id = or_else delta.remote_profile_id row.remote_profile_id;
  remote_flow = or_else delta.remote_flow row.remote_flow;
  remote_bot_route = or_else delta.remote_bot_route row.remote_bot_route;
  step = given delta.step row.step;
  result_ref = or_else delta.result_ref row.result_ref;
  report_url = or_else delta.report_url row.report_url;
  error = or_else delta.error row.error;
  state_data = given delta.state_data row.state_data;
  turn_count = row.turn_count + 1;
  last_activity_at = now;
  ended_at = ended delta.state now row.ended_at;
  finalized_at = finalized delta.state now row.finalized_at;
}

-- `if updated is None: raise ConcurrentModificationError(session.id)`
abbrev pub or_modified : ℕ → Option AgentSession → Exec Db AgentSession
or_modified session_id none = raise (concurrent_modification session_id)
or_modified session_id (some row) = pure row

unfoldable pub apply : AgentSession → SessionDelta → Exec Db AgentSession
unfolding allowed update_state_and_fields ◌>>=◌
apply session delta db =
    if not (allowed session.state delta.state)
    then (raises (invalid_transition session.id), db)
    else (update_state_and_fields session.id session.state delta.state (with_fields delta db.now)
          >>= or_modified session.id)
        db

unfoldable pub insert_audit : AuditEntry → Exec Db (Unit {0})
insert_audit entry db = (returned tt, record db { audit = db.audit ++ (entry ∷ []) })

unfoldable pub abandon_entry : Text → Option AgentSession → AgentSession → Option Text → AuditEntry
abandon_entry actor before after note = record {
  action = session_abandon;
  entity_id = after.id;
  actor = actor;
  before = before;
  after = some after;
  note = note;
}

unfoldable pub retire : ℕ → Text → Text → Option AgentSession → Exec Db (Option AgentSession)
unfolding abandon_open_session unpin insert_audit ◌>>=◌ abandon_entry
retire conversation_id reason actor none = pure none
retire conversation_id reason actor (some session) = do
  updated ← abandon_open_session conversation_id reason
  row ← or_modified session.id updated
  unpin conversation_id
  insert_audit (abandon_entry actor (some session) row (some reason))
  pure (some row)

unfoldable pub abandon : ℕ → Text → Text → Exec Db (Option AgentSession)
unfolding get_open_for_conversation retire ◌>>=◌
abandon conversation_id reason actor =
    get_open_for_conversation conversation_id >>= retire conversation_id reason actor

unfoldable pub unpin_swept : List AgentSession → Exec Db (Unit {0})
unfolding unpin insert_audit ◌>>=◌ abandon_entry
unpin_swept [] = pure tt
unpin_swept (row ∷ rows) = do
  unpin row.conversation_id
  insert_audit (abandon_entry (codes "system") none row (some (codes "idle sweep")))
  unpin_swept rows

unfoldable pub sweep_abandoned : (ℕ → Text) → ℕ → Exec Db (List AgentSession)
unfolding sweep_abandoned_older_than unpin_swept ◌>>=◌
sweep_abandoned isoformat older_than = do
  swept ←
      sweep_abandoned_older_than older_than
        (codes "idle sweep: no activity before " ++ isoformat older_than)
  unpin_swept swept
  pure swept

module _ {S : Type 0} (on_db : (A : Type 0) → Exec Db A → Exec S A) where
  unfoldable pub start : ℕ → RegisteredAgent → Exec S (Option AgentSession)
  unfolding create_pending ◌>>=◌
  start conversation_id agent =
      if not agent.spec.routing.pin_session
      then pure none
      else on_db _ (
          create_pending conversation_id agent.id
            (default_language_of (remote_of agent.spec.agent_type)))
        >>= λ row. pure (some row)

  unfoldable pub attach :
      ℕ
      → RegisteredAgent
      → (ℕ → Exec S (Unit {0}))
      → Option AgentSession
      → Exec S (Option AgentSession)
  unfolding abandon start ◌>>=◌
  attach conversation_id agent on_displace none = start conversation_id agent
  attach conversation_id agent on_displace (some existing) =
      if existing.agent_id == agent.id then pure (some existing) else do
        on_db _ (abandon conversation_id (codes "agent_switch") (codes "system"))
        on_displace conversation_id
        start conversation_id agent

  unfoldable pub open_for :
      ℕ → RegisteredAgent → (ℕ → Exec S (Unit {0})) → Exec S (Option AgentSession)
  unfolding get_open_for_conversation attach ◌>>=◌
  open_for conversation_id agent on_displace =
      on_db _ (get_open_for_conversation conversation_id)
      >>= attach conversation_id agent on_displace
