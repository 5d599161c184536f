-- ===== src/Router.antt =====
-- backend/app/services/router_service.py: which agent answers a turn, by five gates. The language
-- model and the parsers of what it answers are parameters: `invoke` is the model's text for the
-- agents offered, `loads` is `json_repair.loads`, `float_of` is `float(v)` and `at_least` compares
-- two doubles. `calls` are the calls of the model, by the agents offered.
pub mod Priority
pub mod Answers
pub mod Cases
pub mod Routes
pub mod Exits
pub mod Stable
mod Examples
use saarathi.Common.{
  ℕ, suc, ◌+◌, Text, codes, Bool, true, false, not, ◌&&◌, ◌||◌, Option, none, some, List, [], ◌∷◌,
  ◌++◌, keep, find, is_empty, text_eq, mem_text, strip, strip_chars, join, words, contains, ltb,
  ◌==◌, if◌then◌else◌,
}
use saarathi.Python.{Json, null, int, pos, str, dict, Runtime, Fields, has_key, truthy}
use saarathi.Python
use saarathi.Exec.{
  Exec, Error, Outcome, returned, raises, pure, raise, catch, agent_not_found, runtime_error, ◌>>=◌,
  ◌>>◌,
}
use saarathi.Database.{Db, Conversation, AgentSession}
use saarathi.Database.Sessions.{get_open_for_conversation}
use saarathi.Database.Conversations.{unpin}
use saarathi.Agents.{RegisteredAgent, UserContext, RoutingSpec}
use saarathi.Agents.Access.{matches}
use saarathi.Registry.{Registry, get_by_id, get_by_key_exact, routable, default}
use saarathi.Registry
use saarathi.Sessions.{abandon}

pub data Reason : Type 0 where
  explicit pinned keyword llm by_default exit_to_default : Reason

pub record RouteDecision : Type 0 where
  pub agent : Option RegisteredAgent
  pub reason : Reason
  -- the bits of a double
  pub confidence : ℕ
  pub unpinned : Bool

abbrev pub one_float : ℕ
one_float = 4607182418800017408

abbrev pub decide : RegisteredAgent → Reason → RouteDecision
decide agent reason = record {
  agent = some agent;
  reason = reason;
  confidence = one_float;
  unpinned = false;
}

-- `_COMMAND_PUNCTUATION`
abbrev pub command_punctuation : List ℕ
command_punctuation =
    codes " "
    ++ (9 ∷ 13 ∷ 10 ∷ [])
    ++ codes "'\"`.,!?;:"
    ++ (8230 ∷ [])
    ++ codes "-"
    ++ (8211 ∷ 8212 ∷ [])
    ++ codes "()[]{}"

abbrev pub is_nil {ℓ} : {A : Type ℓ} → List A → Bool
is_nil [] = true
is_nil (x ∷ xs) = false

-- the first of the agents with the highest priority
unfoldable pub top_from : RegisteredAgent → List RegisteredAgent → RegisteredAgent
top_from best [] = best
top_from best (a ∷ rest) =
    top_from (if ltb best.spec.routing.priority a.spec.routing.priority then a else best) rest

pub record RouterState : Type 0 where
  pub db : Db
  pub calls : List (List RegisteredAgent)

abbrev pub on_db : {A : Type 0} → Exec Db A → Exec RouterState A
on_db m s = ((m s.db).0, record s { db = (m s.db).1 })

-- `if explicit_key`
abbrev pub given : Option Text → Option Text
given none = none
given (some key) = if is_empty key then none else some key

module _ (rt : Runtime) where
  unfoldable pub normalise_command : Text → Text
  normalise_command text =
      join (codes " ")
        (words (rt.lower (strip_chars (Registry.among command_punctuation) (strip text))))

  -- `for kw in exit_keywords if kw and kw.strip()`
  unfoldable pub commands : Text → List Text → Bool
  unfolding normalise_command
  commands normalised [] = false
  commands normalised (kw ∷ kws) =
      (not (is_empty kw)
        && (not (is_empty (strip kw)) && text_eq normalised (normalise_command kw)))
      || commands normalised kws

  unfoldable pub is_exit : Text → List Text → Bool
  unfolding commands normalise_command
  is_exit text exit_keywords =
      let normalised = normalise_command text in
      if is_empty normalised then false else commands normalised exit_keywords

  unfoldable pub kw_match : Text → List Text → Bool
  kw_match lowered [] = false
  kw_match lowered (kw ∷ kws) = contains (rt.lower kw) lowered || kw_match lowered kws

  abbrev pub is_hit : Text → RegisteredAgent → Bool
  unfolding kw_match
  is_hit text a = kw_match (rt.lower text) a.spec.routing.keywords

  module _ (registry : Registry) where
    unfoldable pub exit_decision : ℕ → Exec Db RouteDecision
    unfolding unpin ◌>>=◌ default
    exit_decision conversation_id = do
      abandon conversation_id (codes "user_exit") (codes "system")
      unpin conversation_id
      pure (record {
        agent = default registry;
        reason = exit_to_default;
        confidence = one_float;
        unpinned = true;
      })

    unfoldable pub agent_of_session : Option AgentSession → Option RegisteredAgent
    unfolding get_by_id
    agent_of_session none = none
    agent_of_session (some session) = get_by_id session.agent_id registry

    unfoldable pub pinned_agent : Option ℕ → Option RegisteredAgent
    unfolding get_by_id
    pinned_agent none = none
    pinned_agent (some id) = get_by_id id registry

    unfoldable pub or_session : ℕ → Option RegisteredAgent → Exec Db (Option RegisteredAgent)
    unfolding get_open_for_conversation ◌>>=◌ agent_of_session
    or_session conversation_id (some agent) = pure (some agent)
    or_session conversation_id none =
        get_open_for_conversation conversation_id >>= λ session. pure (agent_of_session session)

    -- `_pin_for`
    unfoldable pub pin_for : Conversation → Exec Db (Option RegisteredAgent)
    unfolding or_session pinned_agent
    pin_for conv = or_session conv.id (pinned_agent conv.pinned_agent_id)

    unfoldable pub visible : Option UserContext → List RegisteredAgent
    unfolding routable matches
    visible user = keep (λ a. matches a.spec.access user) (routable registry)

    module _ (invoke : List RegisteredAgent → Outcome Text) (loads : Text → Outcome Json)
        (float_of : Json → Outcome ℕ) (at_least : ℕ → ℕ → Bool) where
      -- `parsed.get("agent_key")`, and the agent; a key that is no text has no `strip`
      unfoldable pub agent_of_key : Json → Outcome (Option RegisteredAgent)
      unfolding get_by_key_exact truthy
      agent_of_key (str key) = returned (get_by_key_exact rt key registry)
      agent_of_key key =
          if truthy key then raises (runtime_error (codes "AttributeError")) else returned none

      abbrev pub confidence_of : Fields → Json
      unfolding Python.get has_key
      confidence_of fields =
          if has_key (codes "confidence") fields
          then Python.get (codes "confidence") fields
          else int (pos 0)

      -- what the model's answer comes to
      abbrev pub answered : Outcome (Option RegisteredAgent) → Outcome ℕ → Option RouteDecision
      answered (returned (some a)) (returned conf) =
          if a.spec.routing.router_selectable && at_least conf a.spec.routing.confidence_threshold
          then some (record { agent = some a; reason = llm; confidence = conf; unpinned = false })
          else none
      answered _ _ = none

      unfoldable pub parsed : Outcome Json → Option RouteDecision
      unfolding agent_of_key confidence_of Python.get
      parsed (returned (dict fields)) =
          answered (agent_of_key (Python.get (codes "agent_key") fields))
            (float_of (confidence_of fields))
      parsed _ = none

      abbrev pub read : Outcome Text → Outcome Json
      read (returned raw) = loads raw
      read (raises e) = raises e

      -- GATE 4; None is the way to GATE 5
      unfoldable pub ask_model : List RegisteredAgent → Exec RouterState (Option RouteDecision)
      unfolding parsed
      ask_model offered s =
          (returned (parsed (read (invoke offered))), record s { calls = offered ∷ s.calls })

      abbrev pub or_default : Option RouteDecision → Exec RouterState RouteDecision
      unfolding default
      or_default (some decision) = pure decision
      or_default none = pure (record {
        agent = default registry;
        reason = by_default;
        confidence = 0;
        unpinned = false;
      })

      -- GATES 3 to 5
      unfoldable pub by_hits :
          List RegisteredAgent → List RegisteredAgent → Exec RouterState RouteDecision
      unfolding top_from ask_model or_default ◌>>=◌
      by_hits offered [] = ask_model offered >>= or_default
      by_hits offered (a ∷ rest) = pure (decide (top_from a rest) keyword)

      unfoldable pub unpinned_gates : Text → Option UserContext → Exec RouterState RouteDecision
      unfolding by_hits visible is_hit
      unpinned_gates text user =
          let offered = visible user in by_hits offered (keep (is_hit text) offered)

      -- GATE 2
      unfoldable pub by_pin :
          Conversation
          → Text
          → Option UserContext
          → Option RegisteredAgent
          → Exec RouterState RouteDecision
      unfolding is_exit exit_decision unpinned_gates
      by_pin conv text user none = unpinned_gates text user
      by_pin conv text user (some pin) =
          if is_exit text pin.spec.routing.exit_keywords
          then on_db (exit_decision conv.id)
          else pure (decide pin pinned)

      -- GATE 1
      unfoldable pub by_key :
          Conversation → Text → Text → Option RegisteredAgent → Exec RouterState RouteDecision
      unfolding is_exit exit_decision
      by_key conv text key none = raise (agent_not_found key)
      by_key conv text key (some a) =
          if not a.spec.routing.direct_selectable
          then raise (agent_not_found key)
          else if is_exit text a.spec.routing.exit_keywords
          then on_db (exit_decision conv.id)
          else pure (decide a explicit)

      unfoldable pub gates :
          Conversation → Text → Option UserContext → Option Text → Exec RouterState RouteDecision
      unfolding by_key by_pin pin_for ◌>>=◌ Registry.get
      gates conv text user (some key) = by_key conv text key (Registry.get key registry)
      gates conv text user none = on_db (pin_for conv) >>= by_pin conv text user

      unfoldable pub select :
          Conversation → Text → Option UserContext → Option Text → Exec RouterState RouteDecision
      unfolding gates
      select conv text user explicit_key = gates conv text user (given explicit_key)
