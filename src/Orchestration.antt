-- ===== src/Orchestration.antt =====
-- backend/app/services/orchestration.py: a turn of a conversation, from the request to the reply.
-- `World` is what a request reads and writes: its transaction (`db`), what is committed, the
-- advisory locks by connection, and the calls of other services, the last one first.
pub mod Finalize
pub mod Recovery
pub mod Turn
pub mod Stable
pub mod Steps
pub mod Locks
pub mod Gives
pub mod Kept
mod Terminal
pub mod Sample
mod Examples
use saarathi.Common.{
  ℕ, ◌+◌, Text, codes, Bool, true, false, not, ◌&&◌, Option, none, some, List, [], ◌∷◌, ◌++◌, keep,
  length, take, is_empty, leb, ltb, ◌==◌, if◌then◌else◌,
}
use saarathi.Exec.{
  Exec, Error, Outcome, returned, raises, pure, raise, ◌>>=◌, ◌>>◌, turn_limit_exceeded,
  runtime_error,
}
use saarathi.Database.{Db, AgentSession, Message, user}
use saarathi.Database.Tools.{ToolExecution}
use saarathi.Database.Messages.{is_user, in_conversation}
use saarathi.Database.Sessions.{get_open_for_conversation}
use saarathi.Agents.{RegisteredAgent, LimitsSpec}
use saarathi.Registry.Scopes.{ScopeEntry}

-- the calls that leave the process
pub data Event : Type 0 where
  -- the remote service is asked for the story of a session
  submits : ℕ → Event
  -- the pool closes the channel of a conversation
  closes : ℕ → Event
  -- the handler answers a turn of a conversation
  handles : ℕ → Event

pub record World : Type 0 where
  pub db : Db
  pub committed : Db
  -- a statement has been sent since the last commit
  pub in_transaction : Bool
  -- a connection, and the key that it holds
  pub locks : List (ℕ × ℕ)
  pub events : List Event
  pub scopes : List ScopeEntry
  pub tools : List ToolExecution
  pub model_calls : List (List RegisteredAgent)

-- a statement of the request's transaction
unfoldable pub on_db : (A : Type 0) → Exec Db A → Exec World A
on_db A m w = ((m w.db).0, record w { db = (m w.db).1; in_transaction = true })

unfoldable pub commit : Exec World (Unit {0})
commit w = (returned tt, record w { committed = w.db; in_transaction = false })

unfoldable pub emit : Event → Exec World (Unit {0})
emit e w = (returned tt, record w { events = e ∷ w.events })

-- `None.x`, or a field that is not there
abbrev pub attribute_error : Error
attribute_error = runtime_error (codes "AttributeError")

-- `TITLE_MAX_LEN`, `TITLE_TRUNCATE_AT`
abbrev pub title_max_len : ℕ
title_max_len = 60

abbrev pub title_truncate_at : ℕ
title_truncate_at = 57

unfoldable pub conversation_title : Text → Text
conversation_title text =
    if leb (length text) title_max_len then text else take title_truncate_at text ++ codes "..."

-- `today` is the date and the time as `%d %b %H:%M`; 8212 is the dash
unfoldable pub agent_fallback_title : RegisteredAgent → Text → Text
unfolding conversation_title
agent_fallback_title agent today =
    conversation_title (agent.name ++ (codes " " ++ (8212 ∷ (codes " " ++ today))))

-- `RateLimits.check`: the open session's turns, then the messages of the last minute
abbrev pub at_limit : ℕ → Option AgentSession → Bool
at_limit max_turns none = false
at_limit max_turns (some session) = leb max_turns session.turn_count

-- `if max_turns`: neither None nor 0
abbrev pub check_turns : ℕ → Option ℕ → Exec Db (Unit {0})
unfolding get_open_for_conversation ◌>>=◌
check_turns conv_id none = pure tt
check_turns conv_id (some max_turns) =
    if max_turns == 0
    then pure tt
    else get_open_for_conversation conv_id >>= λ session.
        if at_limit max_turns session
        then raise (turn_limit_exceeded (codes "max_turns"))
        else pure tt

abbrev pub is_recent : ℕ → ℕ → ℕ → Message → Bool
is_recent minute now conv_id row =
    in_conversation conv_id row && (is_user row.role && ltb now (row.created_at + minute))

unfoldable pub recent_count : ℕ → ℕ → Db → ℕ
recent_count minute conv_id db = length (keep (is_recent minute db.now conv_id) db.messages)

unfoldable pub check_rate : ℕ → ℕ → ℕ → Exec Db (Unit {0})
unfolding recent_count
check_rate minute conv_id per_min db =
    if per_min == 0
    then (returned tt, db)
    else if ltb per_min (recent_count minute conv_id db)
    then (raises (turn_limit_exceeded (codes "rate_limit_per_conversation_per_min")), db)
    else (returned tt, db)

unfoldable pub check_limits : ℕ → ℕ → LimitsSpec → Exec Db (Unit {0})
unfolding check_turns check_rate ◌>>=◌
check_limits minute conv_id limits =
    check_turns conv_id limits.max_turns
    >> check_rate minute conv_id limits.rate_limit_per_conversation_per_min
