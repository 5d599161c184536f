-- ===== src/Orchestration/Steps.antt =====
-- ... and so do the steps of a turn, but for what other requests commit while the handler runs.
use saarathi.Common.{
  ℕ, Bool, true, false, Option, none, some, List, ◌∷◌, ◌==◌, inl, inr, Bool-cases, ltb, codes,
}
use saarathi.Exec.{Outcome, returned, raises, turn_limit_exceeded, mitra_turn_timeout}
use saarathi.Exec.Maintains.{
  Maintains, Maintains-pure, Maintains-raise, Maintains-choice, Maintains-then,
}
use saarathi.Database.{Db, AgentSession, Conversation, Message, user, assistant}
use saarathi.Database.Messages.{recent}
use saarathi.Database.Tools.{ToolExecution, bulk_insert}
use saarathi.Database.Stable.{
  DbStable, Maintains-get_open, Maintains-next_seq, Maintains-touch, Maintains-placeholder,
  Maintains-replace, Maintains-pin, Maintains-insert,
}
use saarathi.Agents.{remote_of, RegisteredAgent, UserContext, LimitsSpec}
use saarathi.Sessions.{SessionDelta}
use saarathi.Sessions.Stable.{Maintains-apply, Maintains-open_for}
use saarathi.Router.Stable.{Maintains-select}
use saarathi.Orchestration.{
  World, handles, on_db, check_limits, check_turns, check_rate, at_limit, recent_count,
  conversation_title, agent_fallback_title,
}
use saarathi.Orchestration.Finalize.{close_remote_channel}
use saarathi.Orchestration.Recovery.{AgentTurn, recover_timed_out_turn}
use saarathi.Orchestration.Stable.{
  WorldStable, lifts, Maintains-commit, Maintains-close_remote, Maintains-finalize,
}
use saarathi.Orchestration.Turn.{
  Deployment, TurnContext, is_timeout, TurnInput, Prepared, title_now, record_message, route,
  resolve, pin_if, open_turn, prepare, handled_by, or_timeout, or_recovered, answer, apply_delta,
  finalize_terminal, record_tools, add_tools, refresh_title, finish, id_of_session,
  handle_turn_locked,
}

module _ {P : Db → Type 0} (stable : DbStable P) where
  Maintains-check_turns : (c : ℕ) (max : Option ℕ) → Maintains P (check_turns c max)
  unfolding check_turns
  Maintains-check_turns c none = Maintains-pure tt
  Maintains-check_turns c (some max) = Maintains-choice (max == 0) _ _ (Maintains-pure tt) (
      Maintains-then _ _ (Maintains-get_open stable c) (λ session.
        Maintains-choice (at_limit max session) _ _
          (Maintains-raise (turn_limit_exceeded (codes "max_turns"))) (Maintains-pure tt)))

  Maintains-check_rate : (minute c per_min : ℕ) → Maintains P (check_rate minute c per_min)
  unfolding check_rate
  Maintains-check_rate minute c per_min = record {
    after = λ db h. elim (Bool-cases (per_min == 0)) [
      | inl e ↦ rw e h
      | inr e ↦ rw e (elim (Bool-cases (ltb per_min (recent_count minute c db))) [
        | inl f ↦ rw f h
        | inr f ↦ rw f h
      ])
    ];
  }

  Maintains-check_limits :
      (minute c : ℕ) (limits : LimitsSpec) → Maintains P (check_limits minute c limits)
  unfolding check_limits
  Maintains-check_limits minute c limits =
      Maintains-then _ _ (Maintains-check_turns c limits.max_turns)
        (λ _. Maintains-check_rate minute c limits.rate_limit_per_conversation_per_min)

module _ {Inv : World → Type 0} (stable : WorldStable Inv) (d : Deployment) where
  pub Maintains-title_now : (input : TurnInput) (c : ℕ) → Maintains Inv (title_now d input c)
  unfolding title_now
  Maintains-title_now input c =
      Maintains-choice input.autostart _ _ (lifts stable _ _ (λ P k. Maintains-touch k c none)) (
        Maintains-then _ _
          (lifts stable _ _ (λ P k. Maintains-touch k c (some (conversation_title input.text))))
          (λ _. lifts stable _ _ (λ P k. Maintains-replace k c (conversation_title input.text))))

  pub Maintains-record_message :
      (input : TurnInput) (c : ℕ) → Maintains Inv (record_message d input c)
  unfolding record_message
  Maintains-record_message input c =
      Maintains-then _ _ (lifts stable _ _ (λ P k. Maintains-next_seq k c)) (λ seq.
        Maintains-then _ _
          (lifts stable _ _ (λ P k. Maintains-insert k c seq user input.text none none))
          (λ msg. Maintains-title_now input c))

  pub Maintains-route :
      (input : TurnInput) (conv : Conversation) → Maintains Inv (route d input conv)
  unfolding route
  Maintains-route input conv = record {
    after = λ w h. stable.calls _ _ (
        (Maintains-select (stable.db w) d.rt d.registry d.invoke d.loads d.float_of d.at_least conv
            input.text (some input.caller) input.agent_key).after
          _ (stable.opened w h));
  }

  pub Maintains-resolve :
      (input : TurnInput) (o : Option RegisteredAgent) → Maintains Inv (resolve d input o)
  unfolding resolve
  Maintains-resolve input none = record { after = λ w h. h }
  Maintains-resolve input (some agent) = record { after = λ w h. stable.scopes w _ h }

  Maintains-pin_if : (pins : Bool) (c a : ℕ) → Maintains Inv (pin_if d pins c a)
  Maintains-pin_if pins c a =
      Maintains-choice pins _ _ (lifts stable _ _ (λ P k. Maintains-pin k c a)) (Maintains-pure tt)

  Maintains-recent :
      (c n : ℕ)
      → Maintains Inv (on_db (List Message) (λ (db : Db). (returned (recent c n db.messages), db)))
  unfolding on_db
  Maintains-recent c n = record { after = λ w h. stable.opened w h }

  pub Maintains-open_turn :
      (input : TurnInput) (conv : Conversation) → Maintains Inv (open_turn d input conv)
  unfolding open_turn
  Maintains-open_turn input conv = Maintains-then _ _ (Maintains-route input conv) (λ decision.
      Maintains-then _ _ (Maintains-resolve input decision.agent) (λ agent.
        Maintains-then _ _
          (lifts stable _ _ (λ P k. Maintains-check_limits k d.minute conv.id agent.spec.limits))
          (λ _.
            Maintains-then _ _
              (Maintains-open_for on_db (lifts stable) conv.id agent
                (close_remote_channel d.error_text d.rest d.close)
                (Maintains-close_remote stable d.error_text d.rest d.close conv.id))
              (λ session.
                Maintains-then _ _
                  (Maintains-pin_if agent.spec.routing.pin_session conv.id agent.id)
                  (λ _.
                    Maintains-then _ _ (Maintains-recent conv.id agent.spec.memory.history_turns)
                      (λ history. Maintains-then _ _ (Maintains-commit stable) (λ _.
                        Maintains-pure (record {
                          agent = agent;
                          decision = decision;
                          session = session;
                          history = history;
                        }))))))))

  Maintains-apply_delta :
      (session : Option AgentSession) (delta : Option SessionDelta)
      → Maintains Inv (apply_delta d session delta)
  unfolding apply_delta
  Maintains-apply_delta none delta = Maintains-pure none
  Maintains-apply_delta (some session) none = Maintains-pure (some session)
  Maintains-apply_delta (some session) (some delta) =
      Maintains-then _ _ (lifts stable _ _ (λ P k. Maintains-apply k session delta))
        (λ row. Maintains-pure (some row))

  Maintains-terminal :
      (agent : RegisteredAgent) (caller : UserContext) (done : Bool) (session : Option AgentSession)
      → Maintains Inv (finalize_terminal d agent caller done session)
  unfolding finalize_terminal
  Maintains-terminal agent caller true (some session) =
      Maintains-then _ _
        (Maintains-finalize stable d.error_text d.rest d.close session (some agent) caller)
        (λ s. Maintains-pure (some s))
  Maintains-terminal agent caller true none = Maintains-pure none
  Maintains-terminal agent caller false session = Maintains-pure session

  Maintains-tools :
      (agent : RegisteredAgent) (msg : Message) (turn : AgentTurn)
      → Maintains Inv (record_tools d agent msg turn)
  unfolding record_tools
  Maintains-tools agent msg turn =
      Maintains-choice agent.spec.record_tool_executions _ _
        (go (bulk_insert msg.id (some agent.id) turn.tool_traces)) (Maintains-pure tt)
    where
      go : (o : Outcome (List ToolExecution)) → Maintains Inv (add_tools d o)
      go (raises e) = record { after = λ w h. h }
      go (returned rows) = record { after = λ w h. stable.tools w _ h }

  Maintains-refresh :
      (input : TurnInput) (c : ℕ) (agent : RegisteredAgent)
      → Maintains Inv (refresh_title d input c agent)
  unfolding refresh_title
  Maintains-refresh input c agent =
      Maintains-choice input.autostart _ _
        (Maintains-then _ _ (lifts stable _ _ (λ P k. Maintains-touch k c none)) (λ _.
          lifts stable _ _ (λ P k. Maintains-placeholder k c (agent_fallback_title agent d.today))))
        (lifts stable _ _ (λ P k. Maintains-touch k c (some (conversation_title input.text))))

  pub Maintains-finish :
      (input : TurnInput) (conv : Conversation) (p : Prepared) (turn : AgentTurn)
      → Maintains Inv (finish d input conv p turn)
  unfolding finish
  Maintains-finish input conv p turn =
      Maintains-then _ _ (Maintains-apply_delta p.session turn.session_delta) (λ applied.
        Maintains-then _ _ (Maintains-terminal p.agent input.caller turn.terminal applied)
          (λ session.
            Maintains-then _ _ (lifts stable _ _ (λ P k. Maintains-next_seq k conv.id)) (λ seq.
              Maintains-then _ _
                (lifts stable _ _ (λ P k.
                  Maintains-insert k conv.id seq assistant turn.text (some p.agent.id)
                    (id_of_session d session)))
                (λ msg. Maintains-then _ _ (Maintains-tools p.agent msg turn) (λ _.
                  Maintains-then _ _ (Maintains-refresh input conv.id p.agent) (λ _.
                    Maintains-then _ _ (Maintains-commit stable) (λ _. Maintains-pure (record {
                      conversation = conv;
                      message = msg;
                      agent = p.agent;
                      decision = p.decision;
                      turn = turn;
                      session = session;
                    }))))))))

  Maintains-or_recovered :
      (input : TurnInput) (p : Prepared) (o : Outcome AgentTurn)
      → Maintains Inv (or_recovered d input p o)
  unfolding or_recovered
  Maintains-or_recovered input p (returned turn) = Maintains-pure turn
  Maintains-or_recovered input p (raises e) =
      Maintains-choice (is_timeout e) _ _
        (go
          (recover_timed_out_turn d.rest (remote_of p.agent.spec.agent_type) p.session input.text))
        (Maintains-raise e)
    where
      go : (o : Option AgentTurn) → Maintains Inv (or_timeout d o)
      go none = Maintains-raise mitra_turn_timeout
      go (some turn) = Maintains-pure turn

  -- what other requests may do while the handler runs
  abbrev pub Unharmed : Type 0
  Unharmed =
      (w : World) → Inv w → Inv (record w { db = d.meanwhile w.db; committed = d.meanwhile w.db })

  pub Maintains-answer :
      Unharmed → (input : TurnInput) (c : ℕ) (p : Prepared) → Maintains Inv (answer d input c p)
  unfolding answer
  Maintains-answer safe input c p = go (d.build p.agent.spec p.agent.checksum)
    where
      go :
          (o : Outcome (TurnContext → Outcome AgentTurn)) → Maintains Inv (handled_by d input c p o)
      go (raises e) = record { after = λ w h. h }
      go (returned handle) = record {
        after = λ w h.
            (Maintains-or_recovered input p _).after _
              (safe (record w { events = handles c ∷ w.events }) (stable.events w _ h));
      }

  pub Maintains-turn :
      Unharmed
      → (input : TurnInput) (conv : Conversation) → Maintains Inv (handle_turn_locked d input conv)
  unfolding handle_turn_locked prepare
  Maintains-turn safe input conv =
      Maintains-then _ _
        (Maintains-then _ _ (Maintains-record_message input conv.id)
          (λ _. Maintains-open_turn input conv))
        (λ p.
          Maintains-then _ _ (Maintains-answer safe input conv.id p)
            (Maintains-finish input conv p))
