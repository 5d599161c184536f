-- ===== src/Orchestration/Turn/Request.antt =====
-- What a turn is asked for, what it comes to, and what one request finds outside.
use saarathi.Common.{ℕ, Text, Bool, true, false, Option, none, some, List, is_empty, if◌then◌else◌}
use saarathi.Python.{Json, Runtime}
use saarathi.Exec.{Error, Outcome, raises, mitra_turn_timeout, integrity_error}
use saarathi.Database.{Db, Conversation, AgentSession, Message}
use saarathi.Database.Conversations.{Owner}
use saarathi.Agents.{AgentSpec, RegisteredAgent, UserContext}
use saarathi.Registry.{Registry}
use saarathi.Registry.Scopes.{ScopedConfig, default_scope}
use saarathi.Router.{RouterState, RouteDecision}
use saarathi.Orchestration.{World}
use saarathi.Orchestration.Finalize.{Rest}
use saarathi.Orchestration.Recovery.{AgentTurn}

pub record TurnInput : Type 0 where
  pub conversation_id : Option ℕ
  pub caller : UserContext
  pub text : Text
  pub option_id : Option Text
  pub agent_key : Option Text
  pub autostart : Bool

pub record TurnContext : Type 0 where
  pub conversation_id : ℕ
  pub caller : UserContext
  pub text : Text
  pub option_id : Option Text
  pub history : List Message
  pub session : Option AgentSession
  pub locale : Text

pub record TurnResult : Type 0 where
  pub conversation : Conversation
  pub message : Message
  pub agent : RegisteredAgent
  pub decision : RouteDecision
  pub turn : AgentTurn
  pub session : Option AgentSession

-- what the first transaction has found
pub record Prepared : Type 0 where
  pub agent : RegisteredAgent
  pub decision : RouteDecision
  pub session : Option AgentSession
  pub history : List Message

-- `meanwhile` is what other requests commit while the handler runs.
pub record Deployment : Type 0 where
  pub rt : Runtime
  pub registry : Registry
  pub invoke : List RegisteredAgent → Outcome Text
  pub loads : Text → Outcome Json
  pub float_of : Json → Outcome ℕ
  pub at_least : ℕ → ℕ → Bool
  pub scoped_rows : Outcome (List ScopedConfig)
  pub error_text : Error → Text
  pub rest : Option Rest
  pub close : Option (ℕ → Outcome (Unit {0}))
  pub build : AgentSpec → Text → Outcome (TurnContext → Outcome AgentTurn)
  pub meanwhile : Db → Db
  pub minute : ℕ
  pub today : Text
  pub is_postgres : Bool
  pub connection : ℕ
  pub hashtext : ℕ → ℕ

abbrev pub owner_of : UserContext → Owner
owner_of caller = record {
  tenant_code = caller.tenant_code;
  user_id = caller.user_id;
  active_org_id = caller.active_org_id;
  user_locale = caller.locale;
}

-- `… or "default"`
abbrev pub or_default_scope : Option Text → Text
or_default_scope none = default_scope
or_default_scope (some t) = if is_empty t then default_scope else t

abbrev pub is_timeout : Error → Bool
is_timeout mitra_turn_timeout = true
is_timeout _ = false

-- An error of the database aborts the transaction: until the request ends and rolls it back,
-- PostgreSQL refuses every other statement.
abbrev pub is_aborted : {V : Type 0} → Outcome V → Bool
is_aborted (raises integrity_error) = true
is_aborted _ = false

-- the router, over the request's database; a transaction is open since the message was stored
abbrev pub routed : World → Outcome RouteDecision × RouterState → Outcome RouteDecision × World
routed w (o, s) = (o, record w { db = s.db; in_transaction = true; model_calls = s.calls })
