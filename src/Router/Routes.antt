-- ===== src/Router/Routes.antt =====
-- The decision of `select`, gate by gate.
use mathlib.Core.List.{Memᴰ}
use saarathi.Common.{
  ℕ, Text, codes, Bool, true, false, not, Option, none, some, List, [], ◌∷◌, keep, find, Bool-cases,
  Option-cases, ◌≡◌, inl, inr, refl, if◌then◌else◌,
}
use saarathi.Python.{Json, Runtime}
use saarathi.Exec.{Outcome, returned, agent_not_found, pure, raise, ◌>>=◌}
use saarathi.Database.{Db, Conversation, AgentSession}
use saarathi.Database.Selects.{one_or_none-keep}
use saarathi.Database.Sessions.{get_open_for_conversation, is_open_in, as_abandoned}
use saarathi.Database.Conversations.{unpin}
use saarathi.Agents.{RegisteredAgent, UserContext}
use saarathi.Registry.{Registry, get_by_id, default}
use saarathi.Registry
use saarathi.Sessions.Consistent.{Consistent, constraints→Sole}
use saarathi.Sessions.Abandoned.{abandon_result, abandon_lem}
use saarathi.Router.{
  explicit, pinned, RouteDecision, decide, top_from, RouterState, is_exit, is_hit, exit_decision,
  pinned_agent, pin_for, visible, or_default, unpinned_gates, by_pin, by_key, given, select, on_db,
  gates, agent_of_session, or_session, by_hits,
}
use saarathi.Selection.{keep-Mem, Mem-keep}
use saarathi.Router.Answers.{Answer, no_answer, answer, parsed-Answer}
use saarathi.Router.Priority.{top_from-Mem, top_from-max}
use saarathi.Router.Cases.{
  after_exit, pin_of, exit_to, IsFree, Route, by_name, not_found, by_exit, stays, by_keyword,
  by_model, fell_back,
}

some-inj : {A : Type 0} {o : Option A} {a b : A} → o ≡ some a → o ≡ some b → b ≡ a
some-inj h g = cc

abandon_returns :
    (c : ℕ) (db : Db) (o : Option AgentSession)
    → (x : Option AgentSession) × ((abandon_result c (codes "user_exit") (codes "system") db o).0
        ≡ returned x)
abandon_returns c db none = (none, refl)
abandon_returns c db (some row) = (some (as_abandoned (codes "user_exit") db.now row), refl)

module _ (rt : Runtime) (registry : Registry) where
  module _ (invoke : List RegisteredAgent → Outcome Text) (loads : Text → Outcome Json)
      (float_of : Json → Outcome ℕ) (at_least : ℕ → ℕ → Bool) (conv : Conversation) (text : Text)
      (user : Option UserContext) (explicit_key : Option Text) (s : RouterState) where
    abbrev Free : Type 0
    Free = IsFree rt registry invoke loads float_of at_least conv text user explicit_key s

    abbrev Routed : Outcome RouteDecision × RouterState → Type 0
    Routed = Route rt registry invoke loads float_of at_least conv text user explicit_key s

    exit_decision_lem :
        Consistent s.db
        → exit_decision rt registry conv.id s.db
          ≡ (returned (exit_to rt registry), after_exit conv.id s.db)
    unfolding exit_decision unpin ◌>>=◌
    exit_decision_lem c =
        let (x, e) = abandon_returns conv.id s.db (find (is_open_in conv.id) s.db.sessions) in
        rw (abandon_lem conv.id (codes "user_exit") (codes "system") s.db c, e)

    pin_for_lem :
        Consistent s.db
        → pin_for rt registry conv s.db ≡ (returned (pin_of rt registry conv s.db), s.db)
    unfolding pin_for or_session get_open_for_conversation ◌>>=◌
    pin_for_lem c = go (pinned_agent rt registry conv.pinned_agent_id)
      where
        go :
            (o : Option RegisteredAgent)
            → or_session rt registry conv.id o s.db ≡ (
              returned (elim o [
                | some a ↦ some a
                | none ↦ agent_of_session rt registry (find (is_open_in conv.id) s.db.sessions)
              ]),
              s.db,
            )
        go (some a) = refl
        go none = rw (
            one_or_none-keep (is_open_in conv.id) s.db.sessions
              (constraints→Sole conv.id s.db.sessions c.constraints))

    asked-Route :
        (o : Option RouteDecision)
        → Answer rt registry invoke loads float_of at_least (visible rt registry user) o
        → Free
        → ((b : RegisteredAgent) → Memᴰ b (visible rt registry user) → is_hit rt text b ≡ false)
        → Routed (
            or_default rt registry invoke loads float_of at_least o
              (record s { calls = visible rt registry user ∷ s.calls }))
    unfolding or_default
    asked-Route _ (no_answer k) f n = fell_back f n k
    asked-Route _ (answer a conf k) f n = by_model a conf f n k

    unpinned_gates-Route :
        Free → Routed (unpinned_gates rt registry invoke loads float_of at_least text user s)
    unfolding unpinned_gates by_hits
    unpinned_gates-Route f = go (keep (is_hit rt text) (visible rt registry user)) refl
      where
        no_hit :
            keep (is_hit rt text) (visible rt registry user) ≡ []
            → (b : RegisteredAgent) → Memᴰ b (visible rt registry user)
            → is_hit rt text b ≡ false
        no_hit e b m = elim (Bool-cases (is_hit rt text b)) [
          | inl h ↦ elim (rw e at (Mem-keep (is_hit rt text) _ b m h)) [ ]
          | inr h ↦ h
        ]

        go :
            (hits : List RegisteredAgent)
            → keep (is_hit rt text) (visible rt registry user) ≡ hits
            → Routed (
                by_hits rt registry invoke loads float_of at_least
                  (visible rt registry user)
                  hits
                  s)
        go [] e =
            asked-Route _
              (parsed-Answer rt registry invoke loads float_of at_least (visible rt registry user) _
                refl)
              f (no_hit e)
        go (a ∷ rest) e =
            let m : Memᴰ (top_from a rest) (keep (is_hit rt text) (visible rt registry user)) =
              rw e (top_from-Mem a rest) in
            let (v, h) = keep-Mem (is_hit rt text) (visible rt registry user) (top_from a rest) m in
            by_keyword (top_from a rest) f v h
              (λ b m h. top_from-max a rest b (rw e at (Mem-keep (is_hit rt text) _ b m h)))

    key-Route :
        Consistent s.db
        → (key : Text) → given explicit_key ≡ some key
        → Routed (
            by_key rt registry invoke loads float_of at_least conv text key
              (Registry.get key registry)
              s)
    unfolding by_key
    key-Route c key e = elim (Option-cases (Registry.get key registry)) [
      | inl n ↦ rw n (not_found key e (λ a h. cc))
      | inr (a, h) ↦ rw h (
          named a h a.spec.routing.direct_selectable refl
            (is_exit rt text a.spec.routing.exit_keywords) refl)
    ]
      where
        named :
            (a : RegisteredAgent)
            → Registry.get key registry ≡ some a
            → (d : Bool) → a.spec.routing.direct_selectable ≡ d
            → (x : Bool) → is_exit rt text a.spec.routing.exit_keywords ≡ x
            → Routed (
                (if not d
                    then raise (agent_not_found key)
                    else if x
                    then on_db (exit_decision rt registry conv.id)
                    else pure (decide a explicit))
                  s)
        named a h false d x k = not_found key e (λ b g. rw (some-inj h g) d)
        named a h true d true k = rw (exit_decision_lem c) (by_exit a k (inl (key, e, h, d)))
        named a h true d false k = by_name key a e h d k

    pinned-Route :
        Consistent s.db
        → given explicit_key ≡ none
        → Routed (gates rt registry invoke loads float_of at_least conv text user none s)
    unfolding gates by_pin ◌>>=◌
    pinned-Route c n = rw (pin_for_lem c) (go (pin_of rt registry conv s.db) refl)
      where
        go :
            (o : Option RegisteredAgent)
            → pin_of rt registry conv s.db ≡ o
            → Routed (by_pin rt registry invoke loads float_of at_least conv text user o s)
        go none e = unpinned_gates-Route (n, e)
        go (some a) e = stay (is_exit rt text a.spec.routing.exit_keywords) refl
          where
            stay :
                (x : Bool)
                → is_exit rt text a.spec.routing.exit_keywords ≡ x
                → Routed (
                    (if x
                        then on_db (exit_decision rt registry conv.id)
                        else pure (decide a pinned))
                      s)
            stay true k = rw (exit_decision_lem c) (by_exit a k (inr (n, e)))
            stay false k = stays a n e k

    -- On a consistent database each decision is one of these. A named agent that may be selected
    -- directly answers, and a named one that is not, or is unknown, is the only error. Without a
    -- name the agent that the conversation is pinned to answers, by its column or else by its open
    -- session. In both cases, if the text is an exit command of that agent, the open session is
    -- abandoned, the conversation unpinned and the default agent answers. These never call the
    -- model. Without a name and a pin, the agents that are visible to the user and match a keyword
    -- are asked for: one of the highest priority answers, without a call of the model. If there is
    -- none, the model is called once, offered the visible agents. If its answer is an object whose
    -- `agent_key` is the key of an agent that the router may select, with a confidence of at least
    -- the agent's threshold, then that agent answers, and if it is not, the default does.
    -- The database changes only by an exit.
    pub select-Route :
        Consistent s.db
        → Route rt registry invoke loads float_of at_least conv text user explicit_key s
            (select rt registry invoke loads float_of at_least conv text user explicit_key s)
    unfolding select
    select-Route c = elim (Option-cases (given explicit_key)) [
      | inl n ↦ rw n (pinned-Route c n)
      | inr (key, e) ↦ rw e (key-Route c key e)
    ]
