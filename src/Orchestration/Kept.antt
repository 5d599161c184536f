-- ===== src/Orchestration/Kept.antt =====
-- What the user has said is committed before the handler is called, and is still there when the
-- turn has failed.
use mathlib.Core.List.{Memᴰ}
use saarathi.Common.{ℕ, suc, Bool, true, false, Option, none, List, ◌∷◌, ◌≡◌, refl, if◌then◌else◌}
use saarathi.Exec.{Outcome, returned, raises, pure, ◌>>=◌, integrity_error}
use saarathi.Exec.Maintains.{Maintains-then, rest_maintains}
use saarathi.Database.{Db, Conversation, AgentSession, Message, user}
use saarathi.Agents.{RegisteredAgent}
use saarathi.Router.{RouteDecision}
use saarathi.Database.Messages.{insert, message_ok, is_user, recent}
use saarathi.Database.Conversations.{next_seq_for_update}
use saarathi.Sessions.{open_for}
use saarathi.Orchestration.{World, on_db, commit, check_limits}
use saarathi.Orchestration.Finalize.{close_remote_channel}
use saarathi.Orchestration.Gives.{Ensures, ensured, raised, Gives, Gives-then, Gives-skip}
use saarathi.Orchestration.Stable.{WorldStable}
use saarathi.Orchestration.Steps.{
  Maintains-title_now, Maintains-open_turn, Maintains-answer, Maintains-finish,
}
use saarathi.Orchestration.Turn.{
  Deployment, TurnInput, Prepared, title_now, record_message, open_turn, route, resolve, pin_if,
  prepare, answer, finish, handle_turn_locked,
}

-- the row of what the user has said
pub record Said (input : TurnInput) (conv_id : ℕ) (m : Message) : Type 0 where
  pub in_conversation : m.conversation_id ≡ conv_id
  pub content : m.content ≡ input.text
  pub by_user : is_user m.role ≡ true

abbrev Stored : Message → World → Type 0
Stored m w = Memᴰ m w.db.messages

Stored-WorldStable : (m : Message) → WorldStable (Stored m)
Stored-WorldStable m = record {
  db = λ w. record {
    sessions = λ db x h. h;
    conversations = λ db x h. h;
    audit = λ db x h. h;
    message = λ db x h. Memᴰ.tail h;
    fresh = λ db x h. h;
  };
  events = λ w x h. h;
  scopes = λ w x h. h;
  calls = λ w x h. h;
  tools = λ w x h. h;
  committed = λ w h. h;
  opened = λ w h. h;
}

-- ... in the request's transaction and in what is committed
abbrev Durable : Message → World → Type 0
Durable m w = Memᴰ m w.db.messages × Memᴰ m w.committed.messages

Durable-WorldStable : (m : Message) → WorldStable (Durable m)
Durable-WorldStable m = record {
  db = λ w. record {
    sessions = λ db x h. h;
    conversations = λ db x h. h;
    audit = λ db x h. h;
    message = λ db x h. (Memᴰ.tail h.0, h.1);
    fresh = λ db x h. h;
  };
  events = λ w x h. h;
  scopes = λ w x h. h;
  calls = λ w x h. h;
  tools = λ w x h. h;
  committed = λ w h. (h.0, h.0);
  opened = λ w h. h;
}

module _ (d : Deployment) (input : TurnInput) where
  abbrev SaidIn : ℕ → World → Type 0
  SaidIn conv_id w = (m : Message) × Said input conv_id m × Stored m w

  insert-Ensures :
      (conv_id seq : ℕ) (w : World)
      → Ensures
          (λ (v : Message) w'. SaidIn conv_id w')
          (on_db _ (insert conv_id seq user input.text none none) w)
  unfolding on_db insert
  insert-Ensures conv_id seq w = go (message_ok w.db.messages row)
    where
      row : Message
      row = record {
        id = w.db.fresh;
        conversation_id = conv_id;
        seq = seq;
        role = user;
        content = input.text;
        agent_id = none;
        agent_session_id = none;
        created_at = w.db.now;
      }

      go :
          (b : Bool)
          → let r : Outcome Message × Db =
              if b
              then (
                returned row,
                record w.db { messages = row ∷ w.db.messages; fresh = suc w.db.fresh },
              )
              else (raises integrity_error, w.db) in
            Ensures
              (λ (v : Message) w'. SaidIn conv_id w')
              (r.0, record w { db = r.1; in_transaction = true })
      go true =
          ensured _ _
            (row, record { in_conversation = refl; content = refl; by_user = refl }, Memᴰ.head refl)
      go false = raised _ _

  title_now-Gives :
      (conv_id : ℕ)
      → Gives (SaidIn conv_id) (λ (v : Unit {0}) w'. SaidIn conv_id w') (title_now d input conv_id)
  title_now-Gives conv_id = record {
    after = λ w s.
        keep w s (title_now d input conv_id w)
          ((Maintains-title_now (Stored-WorldStable s.0) d input conv_id).after w s.2);
  }
    where
      keep :
          (w : World) (s : SaidIn conv_id w) (r : Outcome (Unit {0}) × World)
          → Stored s.0 r.1
          → Ensures (λ (v : Unit {0}) w'. SaidIn conv_id w') r
      keep w s (returned v, w') m = ensured v w' (s.0, s.1, m)
      keep w s (raises e, w') m = raised e w'

  abbrev Always : World → Type 0
  Always w = Unit {0}

  record_message-Gives :
      (conv_id : ℕ)
      → Gives Always (λ (v : Unit {0}) w'. SaidIn conv_id w') (record_message d input conv_id)
  unfolding record_message
  record_message-Gives conv_id = Gives-skip (on_db _ (next_seq_for_update conv_id)) _ (λ seq.
      Gives-then (λ v w'. SaidIn conv_id w') _ _
        (record { after = λ w i. insert-Ensures conv_id seq w }) (λ msg. title_now-Gives conv_id))

  -- nothing is uncommitted, and no transaction is open
  abbrev Closed : {V : Type 0} → V → World → Type 0
  Closed p w = (w.committed ≡ w.db) × (w.in_transaction ≡ false)

  commit-Gives : (Pre : World → Type 0) → Gives Pre (Closed {V = Unit {0}}) commit
  unfolding commit
  commit-Gives Pre = record { after = λ w i. ensured tt _ (refl, refl) }

  abbrev prepared : RegisteredAgent → RouteDecision → Option AgentSession → List Message → Prepared
  prepared agent decision session history = record {
    agent = agent;
    decision = decision;
    session = session;
    history = history;
  }

  prepared-Gives :
      (agent : RegisteredAgent) (decision : RouteDecision) (session : Option AgentSession)
      (history : List Message)
      → Gives
          (Closed {V = Unit {0}} tt)
          (Closed {V = Prepared})
          (pure (prepared agent decision session history))
  prepared-Gives agent decision session history = record {
    after = λ w h. ensured (prepared agent decision session history) w h;
  }

  open_turn-Gives :
      (conv : Conversation) → Gives Always (Closed {V = Prepared}) (open_turn d input conv)
  unfolding open_turn
  open_turn-Gives conv = Gives-skip (route d input conv) _ (λ decision.
      Gives-skip (resolve d input decision.agent) _ (λ agent.
        Gives-skip (on_db _ (check_limits d.minute conv.id agent.spec.limits)) _ (λ v.
          Gives-skip
            (open_for on_db conv.id agent (close_remote_channel d.error_text d.rest d.close)) _
            (λ session.
              Gives-skip (pin_if d agent.spec.routing.pin_session conv.id agent.id) _ (λ v.
                Gives-skip
                  (on_db (List Message) (λ (db : Db).
                    (returned (recent conv.id agent.spec.memory.history_turns db.messages), db)))
                  _
                  (λ history.
                    Gives-then Closed commit (λ v. pure (prepared agent decision session history))
                      (commit-Gives _) (λ v. prepared-Gives agent decision session history)))))))

  -- the state in which the handler is called
  abbrev pub Ready : ℕ → Prepared → World → Type 0
  Ready conv_id p w =
      (w.committed ≡ w.db)
      × (w.in_transaction ≡ false)
      × (m : Message) × Said input conv_id m
      × Memᴰ m w.committed.messages

  both :
      (conv : Conversation) (w : World) (s : SaidIn conv.id w) (r : Outcome Prepared × World)
      → Ensures (Closed {V = Prepared}) r
      → Stored s.0 r.1
      → Ensures (Ready conv.id) r
  both conv w s _ (ensured p w' (c, o)) m = ensured p w' (c, o, s.0, s.1, rw c m)
  both conv w s _ (raised e w') m = raised e w'

  prepare-Gives : (conv : Conversation) → Gives Always (Ready conv.id) (prepare d input conv)
  unfolding prepare
  prepare-Gives conv =
      Gives-then (λ v w'. SaidIn conv.id w') _ _ (record_message-Gives conv.id)
        (λ v. record {
          after = λ w s.
              both conv w s (open_turn d input conv w) ((open_turn-Gives conv).after w tt)
                ((Maintains-open_turn (Stored-WorldStable s.0) d input conv).after w s.2);
        })

  ready :
      (conv : Conversation) (w : World) (p : Prepared)
      → (prepare d input conv w).0 ≡ returned p
      → Ready conv.id p (prepare d input conv w).1
  ready conv w p e = go (prepare d input conv w) ((prepare-Gives conv).after w tt) e
    where
      go :
          (r : Outcome Prepared × World)
          → Ensures (Ready conv.id) r
          → r.0 ≡ returned p
          → Ready conv.id p r.1
      go _ (ensured q w' h) e = h
      go _ (raised x w') e = cc

  -- If a turn gets as far as the handler, then no statement has been sent since the last commit when
  -- the handler is called, so that no transaction is open; nothing is uncommitted; and a message of the user with the text of the request is committed to the conversation; and however
  -- the turn ends, by the handler's error or a later one too, the message is committed then, if the
  -- requests that commit in the meantime delete no message.
  pub handle_turn_locked-Kept :
      (conv : Conversation) (w : World) (p : Prepared)
      → ((m : Message) (db : Db) → Memᴰ m db.messages → Memᴰ m (d.meanwhile db).messages)
      → (prepare d input conv w).0 ≡ returned p
      → ((prepare d input conv w).1.committed ≡ (prepare d input conv w).1.db)
        × ((prepare d input conv w).1.in_transaction ≡ false)
        × (m : Message) × Said input conv.id m
        × Memᴰ m (prepare d input conv w).1.committed.messages
        × Memᴰ m (handle_turn_locked d input conv w).1.committed.messages
  unfolding handle_turn_locked ◌>>=◌
  handle_turn_locked-Kept conv w p safe e =
      let (c, o, m, s, k) = ready conv w p e in
      let durable : Durable m (prepare d input conv w).1 = (rw (← c) k, k) in
      let rest =
        rest_maintains (λ p. answer d input conv.id p >>= finish d input conv p)
          (λ p.
            Maintains-then _ _
              (Maintains-answer (Durable-WorldStable m) d
                (λ w h. (safe m w.db h.0, safe m w.db h.0)) input conv.id p)
              (Maintains-finish (Durable-WorldStable m) d input conv p))
          (prepare d input conv w).0 (prepare d input conv w).1 durable in
      (c, o, m, s, k, rest.1)
