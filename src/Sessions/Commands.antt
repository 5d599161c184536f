-- ===== src/Sessions/Commands.antt =====
-- Sequences of operations of the session service, by any callers in any order.
use saarathi.Common.{
  ℕ, Text, codes, true, not, Option, none, some, List, [], ◌∷◌, ◌≡◌, refl, inl, inr, arith,
  Bool-cases, ◌==◌,
}
use saarathi.Exec.{concurrent_modification, returned, pure}
use saarathi.Exec.Maintains.{
  Maintains, Maintains-pure, Maintains-raise, Maintains-choice, Maintains-then,
}
use saarathi.Database.{SessionState, AgentSession, Db, AuditEntry}
use saarathi.Database.Sessions.{
  update_returning, new_pending, claim_finalizing, create_pending, abandon_open_session,
  sweep_abandoned_older_than, update_state_and_fields, get_open_for_conversation,
}
use saarathi.Database.Conversations.{unpin}
use saarathi.Agents.{RegisteredAgent, remote_of, default_language_of}
use saarathi.Sessions.{
  allowed, SessionDelta, apply, abandon, sweep_abandoned, unpin_swept, insert_audit, open_for,
  or_modified, with_fields, retire, start, attach, abandon_entry,
}
use saarathi.Sessions.Consistent.{Sound, Sound-update, Sound-create}
use saarathi.Sessions.Transitions.{has_state→≡, claimable→allowed}
use saarathi.Sessions.Evolution.{allowed-Moves, abandoned-Moves}

-- One call, with the arguments of its caller. The row given to `applies` may be out of date. Time
-- passes between transactions.
pub data Command : Type 0 where
  opens : ℕ → RegisteredAgent → Command
  applies : AgentSession → SessionDelta → Command
  claims : ℕ → Command
  abandons : ℕ → Text → Text → Command
  sweeps : (ℕ → Text) → ℕ → Command
  waits : ℕ → Command

unfoldable pub run : Command → Db → Db
unfolding open_for apply claim_finalizing abandon sweep_abandoned
run (opens conversation_id agent) db =
    (open_for (λ A m. m) conversation_id agent (λ _. pure tt) db).1
run (applies session delta) db = (apply session delta db).1
run (claims session_id) db = (claim_finalizing session_id db).1
run (abandons conversation_id reason actor) db = (abandon conversation_id reason actor db).1
run (sweeps isoformat older_than) db = (sweep_abandoned isoformat older_than db).1
run (waits time) db = record db { now = time }

unfoldable pub run_all : List Command → Db → Db
unfolding run
run_all [] db = db
run_all (c ∷ rest) db = run_all rest (run c db)

module _ (base : List AgentSession) where
  Maintains-update_state :
      (i : ℕ) (s t : SessionState) (fields : AgentSession → AgentSession)
      → ((a : AgentSession) → (fields a).id ≡ a.id)
      → ((a : AgentSession) → (fields a).conversation_id ≡ a.conversation_id)
      → ((a : AgentSession) → (fields a).agent_id ≡ a.agent_id)
      → allowed s t ≡ true
      → Maintains (Sound base) (update_state_and_fields i s t fields)
  unfolding update_state_and_fields update_returning
  Maintains-update_state i s t fields hi hc ha h = record {
    after = λ db k.
        Sound-update base db _ _ _
          (λ a e. allowed-Moves a _ (hi a) (hc a) (ha a) (rw (has_state→≡ s a (ground arith)) h)) k;
  }

  Maintains-or_modified :
      (i : ℕ) (o : Option AgentSession) → Maintains (Sound base) (or_modified i o)
  Maintains-or_modified i none = Maintains-raise (concurrent_modification i)
  Maintains-or_modified i (some row) = Maintains-pure row

  pub Maintains-apply :
      (session : AgentSession) (delta : SessionDelta) → Maintains (Sound base) (apply session delta)
  unfolding apply
  Maintains-apply session delta = record {
    after = λ db s. elim (Bool-cases (allowed session.state delta.state)) [
      | inl e ↦ rw e (
          (Maintains-then _ (or_modified session.id)
              (Maintains-update_state session.id session.state delta.state
                (with_fields delta db.now) (λ a. refl) (λ a. refl) (λ a. refl) e)
              (Maintains-or_modified session.id)).after
            db s)
      | inr e ↦ rw e s
    ];
  }

  pub Maintains-claim_finalizing : (i : ℕ) → Maintains (Sound base) (claim_finalizing i)
  unfolding claim_finalizing update_returning
  Maintains-claim_finalizing i = record {
    after = λ db s.
        Sound-update base db _ _ _
          (λ a e. allowed-Moves a _ refl refl refl (claimable→allowed a.state (ground arith))) s;
  }

  Maintains-abandon_open_session :
      (c : ℕ) (reason : Text) → Maintains (Sound base) (abandon_open_session c reason)
  unfolding abandon_open_session update_returning
  Maintains-abandon_open_session c reason = record {
    after = λ db s.
        Sound-update base db _ _ _ (λ a e. abandoned-Moves reason db.now a (ground arith)) s;
  }

  Maintains-sweep :
      (older_than : ℕ) (reason : Text)
      → Maintains (Sound base) (sweep_abandoned_older_than older_than reason)
  unfolding sweep_abandoned_older_than
  Maintains-sweep older_than reason = record {
    after = λ db s.
        Sound-update base db _ _ _ (λ a e. abandoned-Moves reason db.now a (ground arith)) s;
  }

  Maintains-create_pending :
      (c agent : ℕ) (language : Text) → Maintains (Sound base) (create_pending c agent language)
  unfolding create_pending new_pending
  Maintains-create_pending c agent language = record {
    after = λ db s.
        Sound-create base db (new_pending c agent language db)
          (returned (new_pending c agent language db)) refl refl s;
  }

  pub Maintains-unpin : (c : ℕ) → Maintains (Sound base) (unpin c)
  unfolding unpin
  Maintains-unpin c = record {
    after = λ db s. record {
      consistent = record {
        constraints = s.consistent.constraints;
        distinct = s.consistent.distinct;
        below = s.consistent.below;
      };
      evolves = s.evolves;
    };
  }

  pub Maintains-insert_audit : (entry : AuditEntry) → Maintains (Sound base) (insert_audit entry)
  unfolding insert_audit
  Maintains-insert_audit entry = record {
    after = λ db s. record {
      consistent = record {
        constraints = s.consistent.constraints;
        distinct = s.consistent.distinct;
        below = s.consistent.below;
      };
      evolves = s.evolves;
    };
  }

  Maintains-retire :
      (c : ℕ) (reason actor : Text) (o : Option AgentSession)
      → Maintains (Sound base) (retire c reason actor o)
  unfolding retire
  Maintains-retire c reason actor none = Maintains-pure none
  Maintains-retire c reason actor (some session) =
      Maintains-then _ _ (Maintains-abandon_open_session c reason) (λ o.
        Maintains-then _ _ (Maintains-or_modified session.id o) (λ row.
          Maintains-then _ _ (Maintains-unpin c) (λ _.
            Maintains-then _ _
              (Maintains-insert_audit (abandon_entry actor (some session) row (some reason)))
              (λ _. Maintains-pure (some row)))))

  pub Maintains-get_open : (c : ℕ) → Maintains (Sound base) (get_open_for_conversation c)
  unfolding get_open_for_conversation
  Maintains-get_open c = record { after = λ db s. s }

  pub Maintains-abandon :
      (c : ℕ) (reason actor : Text) → Maintains (Sound base) (abandon c reason actor)
  unfolding abandon
  Maintains-abandon c reason actor =
      Maintains-then _ _ (Maintains-get_open c) (Maintains-retire c reason actor)

  Maintains-unpin_swept : (rows : List AgentSession) → Maintains (Sound base) (unpin_swept rows)
  unfolding unpin_swept
  Maintains-unpin_swept [] = Maintains-pure tt
  Maintains-unpin_swept (row ∷ rows) =
      Maintains-then _ _ (Maintains-unpin row.conversation_id) (λ _.
        Maintains-then _ _
          (Maintains-insert_audit
            (abandon_entry (codes "system") none row (some (codes "idle sweep"))))
          (λ _. Maintains-unpin_swept rows))

  Maintains-sweep_abandoned :
      (isoformat : ℕ → Text) (older_than : ℕ)
      → Maintains (Sound base) (sweep_abandoned isoformat older_than)
  unfolding sweep_abandoned
  Maintains-sweep_abandoned isoformat older_than =
      Maintains-then _ _ (Maintains-sweep older_than _)
        (λ swept. Maintains-then _ _ (Maintains-unpin_swept swept) (λ _. Maintains-pure swept))

  Maintains-start :
      (c : ℕ) (agent : RegisteredAgent) → Maintains (Sound base) (start (λ A m. m) c agent)
  unfolding start
  Maintains-start c agent =
      Maintains-choice (not agent.spec.routing.pin_session) _ _ (Maintains-pure none) (
        Maintains-then _ _
          (Maintains-create_pending c agent.id
            (default_language_of (remote_of agent.spec.agent_type)))
          (λ row. Maintains-pure (some row)))

  Maintains-attach :
      (c : ℕ) (agent : RegisteredAgent) (o : Option AgentSession)
      → Maintains (Sound base) (attach (λ A m. m) c agent (λ _. pure tt) o)
  unfolding attach
  Maintains-attach c agent none = Maintains-start c agent
  Maintains-attach c agent (some existing) =
      Maintains-choice (existing.agent_id == agent.id) _ _ (Maintains-pure (some existing)) (
        Maintains-then _ _ (Maintains-abandon c (codes "agent_switch") (codes "system"))
          (λ _. Maintains-then _ _ (Maintains-pure tt) (λ _. Maintains-start c agent)))

  Maintains-open_for :
      (c : ℕ) (agent : RegisteredAgent)
      → Maintains (Sound base) (open_for (λ A m. m) c agent (λ _. pure tt))
  unfolding open_for
  Maintains-open_for c agent = Maintains-then _ _ (Maintains-get_open c) (Maintains-attach c agent)

  pub run-Sound : (c : Command) (db : Db) → Sound base db → Sound base (run c db)
  unfolding run
  run-Sound (opens c agent) db s = (Maintains-open_for c agent).after db s
  run-Sound (applies session delta) db s = (Maintains-apply session delta).after db s
  run-Sound (claims i) db s = (Maintains-claim_finalizing i).after db s
  run-Sound (abandons c reason actor) db s = (Maintains-abandon c reason actor).after db s
  run-Sound (sweeps isoformat older_than) db s =
      (Maintains-sweep_abandoned isoformat older_than).after db s
  run-Sound (waits time) db s = record {
    consistent = record {
      constraints = s.consistent.constraints;
      distinct = s.consistent.distinct;
      below = s.consistent.below;
    };
    evolves = s.evolves;
  }

  pub run_all-Sound : (cs : List Command) (db : Db) → Sound base db → Sound base (run_all cs db)
  unfolding run_all
  run_all-Sound [] db s = s
  run_all-Sound (c ∷ cs) db s = run_all-Sound cs (run c db) (run-Sound c db s)
