-- ===== src/Router/Cases.antt =====
-- What a decision of `select` may be.
use mathlib.Core.List.{Memᴰ}
use saarathi.Common.{
  ℕ, ◌≤◌, Text, codes, Bool, true, false, Option, none, some, List, ◌∷◌, find, ◌≡◌, ◌⊎◌,
}
use saarathi.Python.{Json, Runtime}
use saarathi.Exec.{Outcome, returned, raises, agent_not_found}
use saarathi.Database.{Db, Conversation}
use saarathi.Database.Tables.{update}
use saarathi.Database.Sessions.{is_open_in}
use saarathi.Database.Conversations.{is_conversation}
use saarathi.Agents.{RegisteredAgent, UserContext}
use saarathi.Registry.{Registry, get_by_id, default}
use saarathi.Registry
use saarathi.Sessions.Abandoned.{unpinned, abandon_result}
use saarathi.Router.{
  explicit, pinned, keyword, llm, by_default, exit_to_default, RouteDecision, one_float, decide,
  RouterState, is_exit, is_hit, pinned_agent, visible, given, agent_of_session,
}
use saarathi.Router.Answers.{Accepted}
use saarathi.Router.Priority.{priority}

-- what an exit does to the database: the open session is abandoned and the conversation unpinned
abbrev pub after_exit : ℕ → Db → Db
after_exit c db =
    let left =
      (abandon_result c (codes "user_exit") (codes "system") db
        (find (is_open_in c) db.sessions)).1 in
    record left { conversations = update (is_conversation c) unpinned left.conversations }

module _ (rt : Runtime) (registry : Registry) where
  -- the agent that the conversation is pinned to: by its own column, or by its open session
  abbrev pub pin_of : Conversation → Db → Option RegisteredAgent
  pin_of conv db = elim (pinned_agent rt registry conv.pinned_agent_id) [
    | some a ↦ some a
    | none ↦ agent_of_session rt registry (find (is_open_in conv.id) db.sessions)
  ]

  abbrev pub exit_to : RouteDecision
  exit_to = record {
    agent = default registry;
    reason = exit_to_default;
    confidence = one_float;
    unpinned = true;
  }

  module _ (invoke : List RegisteredAgent → Outcome Text) (loads : Text → Outcome Json)
      (float_of : Json → Outcome ℕ) (at_least : ℕ → ℕ → Bool) (conv : Conversation) (text : Text)
      (user : Option UserContext) (explicit_key : Option Text) (s : RouterState) where
    abbrev exits : RegisteredAgent → Bool
    exits a = is_exit rt text a.spec.routing.exit_keywords

    -- no key is named, and the conversation is pinned to no agent
    abbrev pub IsFree : Type 0
    IsFree = (given explicit_key ≡ none) × (pin_of conv s.db ≡ none)

    -- The decision, and the state after it.
    pub data Route : Outcome RouteDecision × RouterState → Type 0 where
      by_name :
          (key : Text) (a : RegisteredAgent)
          → given explicit_key ≡ some key
          → Registry.get key registry ≡ some a
          → a.spec.routing.direct_selectable ≡ true
          → exits a ≡ false
          → Route (returned (decide a explicit), s)
      not_found :
          (key : Text)
          → given explicit_key ≡ some key
          → ((a : RegisteredAgent)
              → Registry.get key registry ≡ some a
              → a.spec.routing.direct_selectable ≡ false)
          → Route (raises (agent_not_found key), s)
      by_exit :
          (a : RegisteredAgent)
          → exits a ≡ true
          → (((key : Text) × (given explicit_key ≡ some key)
                × (Registry.get key registry ≡ some a)
                × (a.spec.routing.direct_selectable ≡ true))
              ⊎ ((given explicit_key ≡ none) × (pin_of conv s.db ≡ some a)))
          → Route (returned exit_to, record s { db = after_exit conv.id s.db })
      stays :
          (a : RegisteredAgent)
          → given explicit_key ≡ none
          → pin_of conv s.db ≡ some a
          → exits a ≡ false
          → Route (returned (decide a pinned), s)
      by_keyword :
          (a : RegisteredAgent)
          → IsFree
          → Memᴰ a (visible rt registry user)
          → is_hit rt text a ≡ true
          → ((b : RegisteredAgent)
              → Memᴰ b (visible rt registry user)
              → is_hit rt text b ≡ true
              → priority b ≤ priority a)
          → Route (returned (decide a keyword), s)
      by_model :
          (a : RegisteredAgent) (conf : ℕ)
          → IsFree
          → ((b : RegisteredAgent) → Memᴰ b (visible rt registry user) → is_hit rt text b ≡ false)
          → Accepted rt registry invoke loads float_of at_least (visible rt registry user) a conf
          → Route (
            returned (record { agent = some a; reason = llm; confidence = conf; unpinned = false }),
            record s { calls = visible rt registry user ∷ s.calls },
          )
      fell_back :
          IsFree
          → ((b : RegisteredAgent) → Memᴰ b (visible rt registry user) → is_hit rt text b ≡ false)
          → ((b : RegisteredAgent) (conf : ℕ)
              → ¬ Accepted rt registry invoke loads float_of at_least
                  (visible rt registry user)
                  b
                  conf)
          → Route (
            returned (record {
              agent = default registry;
              reason = by_default;
              confidence = 0;
              unpinned = false;
            }),
            record s { calls = visible rt registry user ∷ s.calls },
          )
