-- ===== src/Router/Stable.antt =====
-- Routing keeps every invariant of the database that no single statement can break.
use saarathi.Common.{ℕ, Text, codes, Bool, true, not, Option, none, some, List, [], ◌∷◌}
use saarathi.Python.{Json, Runtime}
use saarathi.Exec.{Exec, Outcome, agent_not_found}
use saarathi.Exec.Maintains.{
  Maintains, Maintains-pure, Maintains-raise, Maintains-choice, Maintains-then,
}
use saarathi.Database.{Db, Conversation}
use saarathi.Database.Stable.{DbStable, Maintains-get_open, Maintains-unpin}
use saarathi.Agents.{RegisteredAgent, UserContext}
use saarathi.Registry.{Registry}
use saarathi.Registry
use saarathi.Sessions.Stable.{Maintains-abandon}
use saarathi.Router.{
  RouterState, RouteDecision, on_db, given, is_exit, exit_decision, or_session, pinned_agent,
  pin_for, exit_to_default, one_float, ask_model, or_default, by_hits, unpinned_gates, by_pin,
  by_key, gates, select,
}

module _ {Inv : Db → Type 0} (stable : DbStable Inv) where
  abbrev OnDb : RouterState → Type 0
  OnDb s = Inv s.db

  Maintains-on_db : {A : Type 0} (m : Exec Db A) → Maintains Inv m → Maintains OnDb (on_db m)
  Maintains-on_db m k = record { after = λ s h. k.after s.db h }

  module _ (rt : Runtime) (registry : Registry) where
    Maintains-exit : (c : ℕ) → Maintains Inv (exit_decision rt registry c)
    unfolding exit_decision
    Maintains-exit c =
        Maintains-then _ _ (Maintains-abandon stable c (codes "user_exit") (codes "system")) (λ _.
          Maintains-then _ _ (Maintains-unpin stable c) (λ _. Maintains-pure (record {
            agent = Registry.default registry;
            reason = exit_to_default;
            confidence = one_float;
            unpinned = true;
          })))

    Maintains-or_session :
        (c : ℕ) (agent : Option RegisteredAgent) → Maintains Inv (or_session rt registry c agent)
    unfolding or_session
    Maintains-or_session c (some agent) = Maintains-pure (some agent)
    Maintains-or_session c none =
        Maintains-then _ _ (Maintains-get_open stable c) (λ session. Maintains-pure _)

    module _ (invoke : List RegisteredAgent → Outcome Text) (loads : Text → Outcome Json)
        (float_of : Json → Outcome ℕ) (at_least : ℕ → ℕ → Bool) where
      Maintains-or_default :
          (o : Option RouteDecision)
          → Maintains OnDb (or_default rt registry invoke loads float_of at_least o)
      unfolding or_default
      Maintains-or_default none = Maintains-pure _
      Maintains-or_default (some decision) = Maintains-pure decision

      Maintains-ask :
          (offered : List RegisteredAgent)
          → Maintains OnDb (ask_model rt registry invoke loads float_of at_least offered)
      unfolding ask_model
      Maintains-ask offered = record { after = λ s h. h }

      Maintains-by_hits :
          (offered hits : List RegisteredAgent)
          → Maintains OnDb (by_hits rt registry invoke loads float_of at_least offered hits)
      unfolding by_hits
      Maintains-by_hits offered [] = Maintains-then _ _ (Maintains-ask offered) Maintains-or_default
      Maintains-by_hits offered (a ∷ rest) = Maintains-pure _

      Maintains-unpinned :
          (text : Text) (user : Option UserContext)
          → Maintains OnDb (unpinned_gates rt registry invoke loads float_of at_least text user)
      unfolding unpinned_gates
      Maintains-unpinned text user = Maintains-by_hits _ _

      Maintains-by_pin :
          (conv : Conversation) (text : Text) (user : Option UserContext)
          (pin : Option RegisteredAgent)
          → Maintains OnDb (by_pin rt registry invoke loads float_of at_least conv text user pin)
      unfolding by_pin
      Maintains-by_pin conv text user none = Maintains-unpinned text user
      Maintains-by_pin conv text user (some pin) =
          Maintains-choice (is_exit rt text pin.spec.routing.exit_keywords) _ _
            (Maintains-on_db _ (Maintains-exit conv.id)) (Maintains-pure _)

      Maintains-by_key :
          (conv : Conversation) (text key : Text) (agent : Option RegisteredAgent)
          → Maintains OnDb (by_key rt registry invoke loads float_of at_least conv text key agent)
      unfolding by_key
      Maintains-by_key conv text key none = Maintains-raise (agent_not_found key)
      Maintains-by_key conv text key (some a) =
          Maintains-choice (not a.spec.routing.direct_selectable) _ _
            (Maintains-raise (agent_not_found key))
            (Maintains-choice (is_exit rt text a.spec.routing.exit_keywords) _ _
              (Maintains-on_db _ (Maintains-exit conv.id)) (Maintains-pure _))

      Maintains-gates :
          (conv : Conversation) (text : Text) (user : Option UserContext) (key : Option Text)
          → Maintains OnDb (gates rt registry invoke loads float_of at_least conv text user key)
      unfolding gates pin_for
      Maintains-gates conv text user (some key) = Maintains-by_key conv text key _
      Maintains-gates conv text user none =
          Maintains-then _ _
            (Maintains-on_db _
              (Maintains-or_session conv.id (pinned_agent rt registry conv.pinned_agent_id)))
            (Maintains-by_pin conv text user)

      pub Maintains-select :
          (conv : Conversation) (text : Text) (user : Option UserContext) (key : Option Text)
          → Maintains OnDb (select rt registry invoke loads float_of at_least conv text user key)
      unfolding select
      Maintains-select conv text user key = Maintains-gates conv text user (given key)
