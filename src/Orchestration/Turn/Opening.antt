-- ===== src/Orchestration/Turn/Opening.antt =====
-- The turn lock, and the steps of a turn up to its first commit: the message, the route, the limits,
-- the session, the pin and the history.
use saarathi.Common.{
  ℕ, Bool, true, false, not, ◌&&◌, ◌||◌, Option, none, some, List, [], ◌∷◌, ◌==◌, if◌then◌else◌,
}
use saarathi.Exec.{Exec, returned, raises, pure, ◌>>=◌, ◌>>◌}
use saarathi.Database.{Db, Message, Conversation, user}
use saarathi.Database.Messages.{insert, recent}
use saarathi.Database.Conversations.{next_seq_for_update, touch, replace_placeholder_title, pin}
use saarathi.Agents.{RegisteredAgent}
use saarathi.Registry.Scopes.{resolve_for_scope}
use saarathi.Router.{RouteDecision, select}
use saarathi.Sessions.{open_for}
use saarathi.Orchestration.{World, on_db, commit, attribute_error, conversation_title, check_limits}
use saarathi.Orchestration.Finalize.{close_remote_channel}
use saarathi.Orchestration.Turn.Request.{TurnInput, Prepared, Deployment, or_default_scope, routed}

module _ (d : Deployment) where
  abbrev key_of : ℕ → ℕ
  key_of conversation_id = d.hashtext conversation_id

  -- a lock of the key that another connection holds
  unfoldable pub held_elsewhere : ℕ → List (ℕ × ℕ) → Bool
  held_elsewhere key [] = false
  held_elsewhere key ((c, k) ∷ locks) =
      ((k == key) && not (c == d.connection)) || held_elsewhere key locks

  -- `pg_try_advisory_lock`
  unfoldable pub try_lock_conversation : ℕ → Exec World Bool
  unfolding held_elsewhere
  try_lock_conversation conversation_id w =
      if not d.is_postgres
      then (returned true, w)
      else if held_elsewhere (key_of conversation_id) w.locks
      then (returned false, w)
      else (returned true, record w { locks = (d.connection, key_of conversation_id) ∷ w.locks })

  -- `pg_advisory_unlock`: one lock of the connection, if it has one
  unfoldable pub release : ℕ → List (ℕ × ℕ) → List (ℕ × ℕ)
  release key [] = []
  release key ((c, k) ∷ locks) =
      let rest = release key locks in
      if (k == key) && (c == d.connection) then locks else (c, k) ∷ rest

  unfoldable pub unlock_conversation : ℕ → World → World
  unfolding release
  unlock_conversation conversation_id w =
      if not d.is_postgres then w else record w { locks = release (key_of conversation_id) w.locks }

  -- step 3b
  unfoldable pub title_now : TurnInput → ℕ → Exec World (Unit {0})
  unfolding on_db touch replace_placeholder_title conversation_title ◌>>=◌
  title_now input conv_id =
      if input.autostart
      then on_db _ (touch conv_id none)
      else on_db _ (touch conv_id (some (conversation_title input.text)))
        >> on_db _ (replace_placeholder_title conv_id (conversation_title input.text))

  -- steps 2 to 3b
  unfoldable pub record_message : TurnInput → ℕ → Exec World (Unit {0})
  unfolding on_db next_seq_for_update insert title_now ◌>>=◌
  record_message input conv_id = do
    seq ← on_db _ (next_seq_for_update conv_id)
    on_db _ (insert conv_id seq user input.text none none)
    title_now input conv_id

  -- step 4
  unfoldable pub route : TurnInput → Conversation → Exec World RouteDecision
  unfolding select
  route input conv w = routed w (
      select d.rt d.registry d.invoke d.loads d.float_of d.at_least conv input.text
        (some input.caller) input.agent_key (record { db = w.db; calls = w.model_calls }))

  -- step 4b; without a default agent there may be none
  unfoldable pub resolve : TurnInput → Option RegisteredAgent → Exec World RegisteredAgent
  unfolding resolve_for_scope
  resolve input none w = (raises attribute_error, w)
  resolve input (some agent) w =
      let (resolved, scopes) =
        resolve_for_scope d.registry d.scoped_rows agent
          (or_default_scope (some input.caller.tenant_code))
          (or_default_scope input.caller.active_org_id) w.scopes in
      (returned resolved, record w { scopes = scopes })

  -- step 7
  abbrev pub pin_if : Bool → ℕ → ℕ → Exec World (Unit {0})
  pin_if pins conv_id agent_id = if pins then on_db _ (pin conv_id agent_id) else pure tt

  -- steps 4 to 9
  unfoldable pub open_turn : TurnInput → Conversation → Exec World Prepared
  unfolding route resolve on_db check_limits open_for close_remote_channel pin commit ◌>>=◌
  open_turn input conv = do
    decision ← route input conv
    agent ← resolve input decision.agent
    on_db _ (check_limits d.minute conv.id agent.spec.limits)
    session ← open_for on_db conv.id agent (close_remote_channel d.error_text d.rest d.close)
    pin_if agent.spec.routing.pin_session conv.id agent.id
    history ←
        on_db (List Message)
          (λ (db : Db). (returned (recent conv.id agent.spec.memory.history_turns db.messages), db))
    commit
    pure (record { agent = agent; decision = decision; session = session; history = history })

  -- steps 2 to 9
  unfoldable pub prepare : TurnInput → Conversation → Exec World Prepared
  unfolding record_message open_turn ◌>>=◌
  prepare input conv = record_message input conv.id >> open_turn input conv
