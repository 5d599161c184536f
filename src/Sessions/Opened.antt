-- ===== src/Sessions/Opened.antt =====
-- `SessionService.open_for`: which session a turn of an agent gets. The state is the database with
-- the conversations that `on_displace` has been called with, the last call first.
use saarathi.Common.{
  ℕ, suc, Text, codes, true, Option, none, some, List, ◌∷◌, ◌≡◌, ◌≢◌, refl, inl, inr, arith,
  Bool-cases, ◌==◌, if◌then◌else◌, ==_iff, find, mem_text,
}
use saarathi.Exec.{Exec, Outcome, returned, ◌>>=◌}
use saarathi.Database.{AgentSession, Db}
use saarathi.Database.Selects.{one_or_none-keep, find→none_of}
use saarathi.Database.Constraints.{table_ok-swept, table_ok-pending, none_of-abandoned, languages}
use saarathi.Database.Sessions.{
  table_ok, none_of, is_open_in, get_open_for_conversation, create_pending, new_pending, write,
}
use saarathi.Agents.{RegisteredAgent, remote_of, default_language_of}
use saarathi.Sessions.{open_for, attach, start}
use saarathi.Sessions.Consistent.{Consistent, constraints→Sole}
use saarathi.Sessions.Abandoned.{without_session, abandon_lem}

abbrev pub Traced : Type 0
Traced = Db × List ℕ

abbrev pub on_db : (A : Type 0) → Exec Db A → Exec Traced A
on_db A m (db, l) = let (r, db') = m db in (r, (db', l))

abbrev pub on_displace : ℕ → Exec Traced (Unit {0})
on_displace c (db, l) = (returned tt, (db, c ∷ l))

abbrev pub language_of : RegisteredAgent → Text
language_of agent = default_language_of (remote_of agent.spec.agent_type)

module _ (c : ℕ) (agent : RegisteredAgent) where
  -- a new session is started in `db`, if the agent pins one
  abbrev pub started : Db → List ℕ → Outcome (Option AgentSession) × Traced
  started db l =
      let row = new_pending c agent.id (language_of agent) db in
      if agent.spec.routing.pin_session
      then (
        returned (some row),
        (record db { sessions = row ∷ db.sessions; fresh = suc db.fresh }, l),
      )
      else (returned none, (db, l))

  -- What comes of a call.
  pub data Fate (db : Db) (l : List ℕ) : Outcome (Option AgentSession) × Traced → Type 0 where
    attached :
        (row : AgentSession)
        → find (is_open_in c) db.sessions ≡ some row
        → row.agent_id ≡ agent.id
        → Fate db l (returned (some row), (db, l))
    opened : find (is_open_in c) db.sessions ≡ none → Fate db l (started db l)
    switched :
        (row : AgentSession)
        → find (is_open_in c) db.sessions ≡ some row
        → row.agent_id ≢ agent.id
        → Fate db l
            (started (without_session c (codes "agent_switch") (codes "system") row db) (c ∷ l))

  start_lem :
      (db : Db) (l : List ℕ)
      → mem_text (language_of agent) languages ≡ true
      → none_of (is_open_in c) db.sessions ≡ true
      → table_ok db.sessions ≡ true
      → start on_db c agent (db, l) ≡ started db l
  unfolding start create_pending write ◌>>=◌
  start_lem db l h n t = elim (Bool-cases agent.spec.routing.pin_session) [
    | inl e ↦ rw (e, table_ok-pending c agent.id (language_of agent) db h n t)
    | inr e ↦ rw e
  ]

  -- A turn never gets a session of another agent. On a consistent database, for an agent whose
  -- default language the table accepts, `open_for` never raises, and: the open session of the
  -- conversation is returned if it is the agent's; if there is none, a new one is started in
  -- `pending` for an agent that pins sessions, and none for another; and if it is another agent's,
  -- it is abandoned, the conversation is unpinned, `on_displace` is called once with the
  -- conversation, and then the same is done as if there had been none.
  pub open_for-Fate :
      (db : Db) (l : List ℕ)
      → Consistent db
      → mem_text (language_of agent) languages ≡ true
      → Fate db l (open_for on_db c agent on_displace (db, l))
  unfolding open_for attach get_open_for_conversation ◌>>=◌
  open_for-Fate db l k h =
      rw
        (one_or_none-keep (is_open_in c) db.sessions (constraints→Sole c db.sessions k.constraints))
        (go (find (is_open_in c) db.sessions) refl)
    where
      go :
          (o : Option AgentSession)
          → find (is_open_in c) db.sessions ≡ o
          → Fate db l (attach on_db c agent on_displace o (db, l))
      go none e = rw (start_lem db l h (find→none_of _ db.sessions e) k.constraints) (opened e)
      go (some row) e = elim (Bool-cases (row.agent_id == agent.id)) [
        | inl f ↦ rw f (attached row e ((==_iff row.agent_id agent.id).0 f))
        | inr f ↦
            rw
              (
                f,
                abandon_lem c (codes "agent_switch") (codes "system") db k,
                e,
                start_lem (without_session c (codes "agent_switch") (codes "system") row db) (c ∷ l)
                    h (none_of-abandoned c (codes "agent_switch") db.now db.sessions)
                    (table_ok-swept (is_open_in c) (codes "agent_switch") db.now db.sessions
                      k.constraints),
              )
              (switched row e (λ g. ground arith))
      ]
