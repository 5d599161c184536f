-- ===== src/Database/Sessions.antt =====
-- backend/app/repositories/sessions.py, over the constraints of `agent_sessions`
-- (backend/app/models/orm.py). A statement that would violate one raises and changes nothing.
use mathlib.Core.Bool.{Bool, true, false, not, ◌&&◌, ◌||◌}
use saarathi.Common.{
  ℕ, suc, Text, codes, Option, none, some, List, [], ◌∷◌, keep, is_some, mem_text, text_eq, ltb,
  ◌==◌, if◌then◌else◌,
}
use saarathi.Python.{ℤ, pos, negsuc, dict, end}
use saarathi.Exec.{Exec, Outcome, returned, raises, integrity_error, one_or_none}
use saarathi.Database.Rows.{
  SessionState, pending, in_progress, awaiting_user, finalizing, completed, failed, abandoned,
  is_terminal, state_index, AgentSession, Db,
}
use saarathi.Database.Tables.{update, updated}

-- `_CLAIMABLE`
abbrev pub is_claimable : SessionState → Bool
is_claimable in_progress = true
is_claimable awaiting_user = true
is_claimable _ = false

abbrev pub is_open : AgentSession → Bool
is_open row = not (is_terminal row.state)

abbrev pub is_open_in : ℕ → AgentSession → Bool
is_open_in conversation_id row = (row.conversation_id == conversation_id) && is_open row

-- `sess_active_has_remote` exempts these states
abbrev pub needs_no_remote : SessionState → Bool
needs_no_remote pending = true
needs_no_remote failed = true
needs_no_remote abandoned = true
needs_no_remote _ = false

abbrev is_completed : SessionState → Bool
is_completed completed = true
is_completed _ = false

abbrev not_negative : ℤ → Bool
not_negative (pos n) = true
not_negative (negsuc n) = false

abbrev same_truth : Bool → Bool → Bool
same_truth true b = b
same_truth false b = not b

-- the CHECK constraints of the table
unfoldable pub row_ok : AgentSession → Bool
row_ok row =
    mem_text row.language (codes "en" ∷ codes "hi" ∷ codes "kn" ∷ codes "te" ∷ [])
    && (not_negative row.step
        && (same_truth (is_terminal row.state) (is_some row.ended_at)
            && ((needs_no_remote row.state || is_some row.remote_session_id)
                && (not (is_completed row.state) || is_some row.result_ref))))

abbrev pub same_remote : Option Text → Option Text → Bool
same_remote (some a) (some b) = text_eq a b
same_remote _ _ = false

-- two rows that `uq_sess_one_open_per_conv` or `uq_sess_remote` forbid together
unfoldable pub clash : AgentSession → AgentSession → Bool
clash a b =
    (is_open a && is_open_in a.conversation_id b)
    || same_remote a.remote_session_id b.remote_session_id

abbrev pub none_of {ℓ} : {A : Type ℓ} → (A → Bool) → List A → Bool
none_of p [] = true
none_of p (row ∷ rows) = not (p row) && none_of p rows

unfoldable pub table_ok : List AgentSession → Bool
unfolding row_ok clash
table_ok [] = true
table_ok (row ∷ rows) = row_ok row && (none_of (clash row) rows && table_ok rows)

-- Writes the table, if its constraints hold.
unfoldable pub write : {A : Type 0} → List AgentSession → Outcome A → Exec Db A
unfolding table_ok
write sessions result db =
    if table_ok sessions
    then (result, record db { sessions = sessions })
    else (raises integrity_error, db)

abbrev pub has_id : ℕ → AgentSession → Bool
has_id session_id row = row.id == session_id

unfoldable pub get : ℕ → Exec Db (Option AgentSession)
unfolding one_or_none
get session_id db = (one_or_none (keep (has_id session_id) db.sessions), db)

unfoldable pub get_open_for_conversation : ℕ → Exec Db (Option AgentSession)
unfolding one_or_none
get_open_for_conversation conversation_id db =
    (one_or_none (keep (is_open_in conversation_id) db.sessions), db)

unfoldable pub new_pending : ℕ → ℕ → Text → Db → AgentSession
new_pending conversation_id agent_id language db = record {
  id = db.fresh;
  conversation_id = conversation_id;
  agent_id = agent_id;
  state = pending;
  remote_provider = none;
  remote_session_id = none;
  remote_profile_id = none;
  remote_flow = none;
  remote_bot_route = none;
  language = language;
  step = pos 0;
  turn_count = 0;
  result_ref = none;
  report_url = none;
  error = none;
  error_code = none;
  state_data = dict end;
  started_at = db.now;
  last_activity_at = db.now;
  finalized_at = none;
  ended_at = none;
}

unfoldable pub create_pending : ℕ → ℕ → Text → Exec Db AgentSession
unfolding new_pending write
create_pending conversation_id agent_id language db =
    let row = new_pending conversation_id agent_id language db in
    write (row ∷ db.sessions) (returned row) (record db { fresh = suc db.fresh })

-- `UPDATE … WHERE p … RETURNING`, read by `scalar_one_or_none`
unfoldable pub update_returning :
    (AgentSession → Bool) → (AgentSession → AgentSession) → Exec Db (Option AgentSession)
unfolding write one_or_none
update_returning p f db = write (update p f db.sessions) (one_or_none (updated p f db.sessions)) db

abbrev pub has_state : SessionState → AgentSession → Bool
has_state state row = state_index row.state == state_index state

-- `expected_states` is the one state that the caller has read
unfoldable pub update_state_and_fields :
    ℕ → SessionState → SessionState → (AgentSession → AgentSession) → Exec Db (Option AgentSession)
unfolding update_returning
update_state_and_fields session_id expected new_state fields =
    update_returning (λ row. has_id session_id row && has_state expected row)
      (λ row. record (fields row) { state = new_state })

unfoldable pub claim_finalizing : ℕ → Exec Db (Option AgentSession)
unfolding update_returning
claim_finalizing session_id =
    update_returning (λ row. has_id session_id row && is_claimable row.state)
      (λ row. record row { state = finalizing })

abbrev pub as_abandoned : Text → ℕ → AgentSession → AgentSession
as_abandoned reason now row = record row {
  state = abandoned;
  ended_at = some now;
  error = some reason;
}

unfoldable pub abandon_open_session : ℕ → Text → Exec Db (Option AgentSession)
unfolding update_returning
abandon_open_session conversation_id reason db =
    update_returning (is_open_in conversation_id) (as_abandoned reason db.now) db

abbrev pub is_idle : ℕ → AgentSession → Bool
is_idle cutoff row = is_open row && ltb row.last_activity_at cutoff

unfoldable pub sweep_abandoned_older_than : ℕ → Text → Exec Db (List AgentSession)
unfolding write
sweep_abandoned_older_than cutoff reason db =
    let f = as_abandoned reason db.now in
    write (update (is_idle cutoff) f db.sessions)
      (returned (updated (is_idle cutoff) f db.sessions)) db

-- the row that comes first when ordered by `started_at`, the earlier row first among equals
newest_from : AgentSession → List AgentSession → AgentSession
newest_from best [] = best
newest_from best (row ∷ rows) =
    newest_from (if ltb best.started_at row.started_at then row else best) rows

newest : List AgentSession → Option AgentSession
unfolding newest_from
newest [] = none
newest (row ∷ rows) = some (newest_from row rows)

unfoldable pub get_latest_for_conversation : ℕ → Exec Db (Option AgentSession)
unfolding newest
get_latest_for_conversation conversation_id db =
    (returned (newest (keep (λ row. row.conversation_id == conversation_id) db.sessions)), db)
