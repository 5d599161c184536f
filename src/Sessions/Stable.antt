-- ===== src/Sessions/Stable.antt =====
-- The session service keeps every invariant that no single statement can break.
use saarathi.Common.{ℕ, Text, codes, not, Option, none, some, inl, inr, Bool-cases, ◌==◌}
use saarathi.Exec.{Exec, concurrent_modification}
use saarathi.Exec.Maintains.{
  Maintains, Maintains-pure, Maintains-raise, Maintains-choice, Maintains-then,
}
use saarathi.Database.{AgentSession, Db, AuditEntry}
use saarathi.Database.Stable.{
  DbStable, Maintains-update_state, Maintains-abandon_open, Maintains-create_pending,
  Maintains-get_open, Maintains-unpin,
}
use saarathi.Agents.{RegisteredAgent}
use saarathi.Sessions.{
  allowed, SessionDelta, apply, abandon, retire, insert_audit, or_modified, with_fields,
  abandon_entry, start, attach, open_for,
}

module _ {Inv : Db → Type 0} (stable : DbStable Inv) where
  Maintains-or_modified : (i : ℕ) (o : Option AgentSession) → Maintains Inv (or_modified i o)
  Maintains-or_modified i none = Maintains-raise (concurrent_modification i)
  Maintains-or_modified i (some row) = Maintains-pure row

  pub Maintains-apply :
      (session : AgentSession) (delta : SessionDelta) → Maintains Inv (apply session delta)
  unfolding apply
  Maintains-apply session delta = record {
    after = λ db h. elim (Bool-cases (allowed session.state delta.state)) [
      | inl e ↦ rw e (
          (Maintains-then _ (or_modified session.id)
              (Maintains-update_state stable session.id session.state delta.state
                (with_fields delta db.now))
              (Maintains-or_modified session.id)).after
            db h)
      | inr e ↦ rw e h
    ];
  }

  pub Maintains-audit : (entry : AuditEntry) → Maintains Inv (insert_audit entry)
  unfolding insert_audit
  Maintains-audit entry = record { after = λ db h. stable.audit db _ h }

  Maintains-retire :
      (c : ℕ) (reason actor : Text) (o : Option AgentSession)
      → Maintains Inv (retire c reason actor o)
  unfolding retire
  Maintains-retire c reason actor none = Maintains-pure none
  Maintains-retire c reason actor (some session) =
      Maintains-then _ _ (Maintains-abandon_open stable c reason) (λ o.
        Maintains-then _ _ (Maintains-or_modified session.id o) (λ row.
          Maintains-then _ _ (Maintains-unpin stable c) (λ _.
            Maintains-then _ _
              (Maintains-audit (abandon_entry actor (some session) row (some reason)))
              (λ _. Maintains-pure (some row)))))

  pub Maintains-abandon : (c : ℕ) (reason actor : Text) → Maintains Inv (abandon c reason actor)
  unfolding abandon
  Maintains-abandon c reason actor =
      Maintains-then _ _ (Maintains-get_open stable c) (Maintains-retire c reason actor)

-- `open_for`, for an invariant of the caller's state that the actions on the database keep
module _ {S : Type 0} {Inv : S → Type 0} (on_db : (A : Type 0) → Exec Db A → Exec S A)
    (lifts : (A : Type 0) (m : Exec Db A)
      → ((P : Db → Type 0) → DbStable P → Maintains P m)
      → Maintains Inv (on_db A m)) where
  Maintains-start : (c : ℕ) (agent : RegisteredAgent) → Maintains Inv (start on_db c agent)
  unfolding start
  Maintains-start c agent =
      Maintains-choice (not agent.spec.routing.pin_session) _ _ (Maintains-pure none) (
        Maintains-then _ _ (lifts _ _ (λ P k. Maintains-create_pending k c agent.id _))
          (λ row. Maintains-pure (some row)))

  Maintains-attach :
      (c : ℕ) (agent : RegisteredAgent) (displace : ℕ → Exec S (Unit {0}))
      → Maintains Inv (displace c)
      → (o : Option AgentSession) → Maintains Inv (attach on_db c agent displace o)
  unfolding attach
  Maintains-attach c agent displace k none = Maintains-start c agent
  Maintains-attach c agent displace k (some existing) =
      Maintains-choice (existing.agent_id == agent.id) _ _ (Maintains-pure (some existing)) (
        Maintains-then _ _
          (lifts _ _ (λ P s. Maintains-abandon s c (codes "agent_switch") (codes "system")))
          (λ _. Maintains-then _ _ k (λ _. Maintains-start c agent)))

  pub Maintains-open_for :
      (c : ℕ) (agent : RegisteredAgent) (displace : ℕ → Exec S (Unit {0}))
      → Maintains Inv (displace c)
      → Maintains Inv (open_for on_db c agent displace)
  unfolding open_for
  Maintains-open_for c agent displace k =
      Maintains-then _ _ (lifts _ _ (λ P s. Maintains-get_open s c))
        (Maintains-attach c agent displace k)
