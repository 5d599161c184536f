-- ===== src/Orchestration/Finalize.antt =====
-- `OrchestrationService._finalize`, `finalize_now` and `_close_remote_channel`. The remote service
-- and the pool are optional; `Rest` is what the REST client answers (`mitra_rest`); `Client` fills it.
pub mod Client
pub mod Steps
pub mod Kept
pub mod Calls
pub mod Once
pub mod Ends
pub mod Stages
pub mod Outcomes
pub mod Repeated
mod Examples
use saarathi.Common.{
  ℕ, Text, codes, Bool, true, false, Option, none, some, List, is_empty, if◌then◌else◌,
}
use saarathi.Exec.{Exec, Error, Outcome, returned, raises, pure, raise, ◌>>=◌, ◌>>◌, is_mitra_error}
use saarathi.Database.{SessionState, completed, failed, AgentSession, AuditEntry, session_finalize}
use saarathi.Database.Sessions.{claim_finalizing, get}
use saarathi.Database.Conversations.{unpin}
use saarathi.Agents.{RegisteredAgent, RemoteSpec, UserContext, remote_of}
use saarathi.Registry.{Registry, get_by_id}
use saarathi.Sessions.{SessionDelta, apply, insert_audit}
use saarathi.Mitra.TurnRecovery.{ChatRow}
use saarathi.Mitra.Rest.Stories.{Submission}
use saarathi.Orchestration.{World, on_db, emit, submits, closes, attribute_error}

pub record Rest : Type 0 where
  pub submit_story : Submission → Outcome Text
  pub report_url_of : Option Text → Text → Outcome (Option Text)
  pub session_completed : Option Text → Outcome Bool
  pub chat_rows : Text → Text → Outcome (List ChatRow)

abbrev pub delta_to : SessionState → SessionDelta
delta_to state = record {
  state = state;
  remote_session_id = none;
  remote_profile_id = none;
  remote_flow = none;
  remote_bot_route = none;
  step = none;
  result_ref = none;
  report_url = none;
  error = none;
  state_data = none;
}

abbrev pub failed_with : Text → SessionDelta
failed_with error = record (delta_to failed) { error = some error }

abbrev pub completed_with : Text → Option Text → SessionDelta
completed_with story_id report_url = record (delta_to completed) {
  result_ref = some story_id;
  report_url = report_url;
}

abbrev pub finalize_entry : AgentSession → AgentSession → AuditEntry
finalize_entry session claimed = record {
  action = session_finalize;
  entity_id = claimed.id;
  actor = codes "system";
  before = some session;
  after = some claimed;
  note = none;
}

abbrev pub request_of : RemoteSpec → AgentSession → UserContext → Submission
request_of remote claimed user = record {
  session_id = claimed.remote_session_id;
  profile_id = claimed.remote_profile_id;
  flow = remote.flow_name;
  language = claimed.language;
  token = user.token;
  path = remote.finalize_path;
  as_guest = remote.finalize_as_guest;
}

abbrev pub of_agent : Option RegisteredAgent → Option RemoteSpec
of_agent none = none
of_agent (some agent) = remote_of agent.spec.agent_type

-- `if report_url`
abbrev pub non_empty : Option Text → Option Text
non_empty none = none
non_empty (some t) = if is_empty t then none else some t

module _ (error_text : Error → Text) (rest : Option Rest)
    (close : Option (ℕ → Outcome (Unit {0}))) where
  -- `self._mitra_sessions.close`, if there is a pool
  unfoldable pub close_channel : ℕ → Exec World (Unit {0})
  unfolding emit ◌>>=◌
  close_channel conversation_id = elim close [
    | none ↦ pure tt
    | some f ↦ emit (closes conversation_id) >> λ w. (f conversation_id, w)
  ]

  -- `_close_remote_channel` goes on when closing fails
  abbrev swallowed : Outcome (Unit {0}) × World → Outcome (Unit {0}) × World
  swallowed (o, w) = (returned tt, w)

  unfoldable pub close_remote_channel : ℕ → Exec World (Unit {0})
  unfolding close_channel
  close_remote_channel conversation_id w = swallowed (close_channel conversation_id w)

  -- the call of `finalize`; without a client, an agent or a remote part an attribute is missing
  unfoldable pub call_finalize :
      Option Rest → Option RemoteSpec → AgentSession → UserContext → Exec World (Outcome Text)
  unfolding emit ◌>>=◌
  call_finalize (some client) (some remote) claimed user =
      emit (submits claimed.id) >> pure (client.submit_story (request_of remote claimed user))
  call_finalize _ _ claimed user = pure (raises attribute_error)

  -- what stands after the call: an error fails the session and is raised again
  unfoldable pub after_call : AgentSession → Outcome Text → Exec World Text
  unfolding on_db apply ◌>>=◌
  after_call claimed (returned story_id) = pure story_id
  after_call claimed (raises e) = on_db _ (apply claimed (failed_with (error_text e))) >> raise e

  -- an error of the service leaves the report for later
  abbrev pub report_or_none : Outcome (Option Text) → Exec World (Option Text)
  report_or_none (returned url) = pure (non_empty url)
  report_or_none (raises e) = if is_mitra_error e then pure none else raise e

  unfoldable pub fetch_report :
      Option Rest → Option RemoteSpec → AgentSession → Exec World (Option Text)
  fetch_report (some client) (some remote) claimed =
      report_or_none (client.report_url_of claimed.remote_session_id remote.report_media_type)
  fetch_report _ _ claimed = raise attribute_error

  unfoldable pub complete : AgentSession → Text → Option Text → Exec World AgentSession
  unfolding on_db apply ◌>>=◌ unpin
  complete claimed story_id report_url = do
    done ← on_db _ (apply claimed (completed_with story_id report_url))
    on_db _ (unpin claimed.conversation_id)
    pure done

  -- the steps up to the call of the remote service, for the request that has won the claim
  unfoldable pub submit :
      AgentSession → Option RegisteredAgent → UserContext → AgentSession → Exec World (Outcome Text)
  unfolding on_db insert_audit close_channel call_finalize ◌>>=◌
  submit session agent user claimed = do
    on_db _ (insert_audit (finalize_entry session claimed))
    close_channel claimed.conversation_id
    call_finalize rest (of_agent agent) claimed user

  -- and those after it
  unfoldable pub conclude :
      Option RegisteredAgent → AgentSession → Outcome Text → Exec World AgentSession
  unfolding after_call fetch_report complete ◌>>=◌
  conclude agent claimed answer = do
    story_id ← after_call claimed answer
    report_url ← fetch_report rest (of_agent agent) claimed
    complete claimed story_id report_url

  abbrev pub current_or : AgentSession → Option AgentSession → AgentSession
  current_or session none = session
  current_or session (some current) = current

  unfoldable pub finalize_claimed :
      AgentSession
      → Option RegisteredAgent
      → UserContext
      → Option AgentSession
      → Exec World AgentSession
  unfolding on_db get submit conclude ◌>>=◌
  finalize_claimed session agent user none =
      on_db _ (get session.id) >>= λ current. pure (current_or session current)
  finalize_claimed session agent user (some claimed) =
      submit session agent user claimed >>= conclude agent claimed

  unfoldable pub finalize :
      AgentSession → Option RegisteredAgent → UserContext → Exec World AgentSession
  unfolding on_db claim_finalizing finalize_claimed ◌>>=◌
  finalize session agent user =
      on_db _ (claim_finalizing session.id) >>= finalize_claimed session agent user

  unfoldable pub finalize_found :
      Registry → UserContext → Option AgentSession → Exec World (Option AgentSession)
  unfolding finalize get_by_id ◌>>=◌
  finalize_found registry user none = pure none
  finalize_found registry user (some session) =
      finalize session (get_by_id session.agent_id registry) user >>= λ s. pure (some s)

  unfoldable pub finalize_now : Registry → ℕ → UserContext → Exec World (Option AgentSession)
  unfolding on_db get finalize_found ◌>>=◌
  finalize_now registry session_id user = on_db _ (get session_id) >>= finalize_found registry user
