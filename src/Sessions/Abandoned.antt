-- ===== src/Sessions/Abandoned.antt =====
-- Abandoning a session, and the idle sweep.
use mathlib.Core.List.{append_assoc, append-nil}
use saarathi.Common.{
  ℕ, Text, codes, Bool, false, ◌||◌, Option, none, some, List, [], ◌∷◌, ◌++◌, map, ◌≡◌, refl, inl,
  inr, Bool-cases, ◌==◌, find,
}
use saarathi.Exec.{Outcome, returned, ◌>>=◌}
use saarathi.Database.{AgentSession, Db, AuditEntry, Conversation}
use saarathi.Database.Tables.{update, updated}
use saarathi.Database.Selects.{one_or_none-keep, update_returning-cases}
use saarathi.Database.Constraints.{table_ok-swept}
use saarathi.Database.Sessions.{
  is_open_in, is_idle, as_abandoned, get_open_for_conversation, abandon_open_session,
  sweep_abandoned_older_than, write,
}
use saarathi.Database.Conversations.{unpin, is_conversation}
use saarathi.Sessions.{abandon, retire, insert_audit, abandon_entry, sweep_abandoned, unpin_swept}
use saarathi.Sessions.Consistent.{Consistent, constraints→Sole}

abbrev pub unpinned : Conversation → Conversation
unpinned row = record row { pinned_agent_id = none }

-- the database after the open session of conversation `c` has been abandoned
abbrev pub without_session : ℕ → Text → Text → AgentSession → Db → Db
without_session c reason actor row db = record db {
  sessions = update (is_open_in c) (as_abandoned reason db.now) db.sessions;
  conversations = update (is_conversation c) unpinned db.conversations;
  audit =
      db.audit
      ++ (abandon_entry actor (some row) (as_abandoned reason db.now row) (some reason) ∷ []);
}

abbrev pub abandon_result :
    ℕ → Text → Text → Db → Option AgentSession → Outcome (Option AgentSession) × Db
abandon_result c reason actor db none = (returned none, db)
abandon_result c reason actor db (some row) =
    (returned (some (as_abandoned reason db.now row)), without_session c reason actor row db)

-- On a consistent database `abandon` never raises. If a session of the conversation is open, it is
-- returned as abandoned, ended now for the reason given, the conversation is unpinned and one audit
-- entry with the session before and after is added; otherwise nothing changes.
pub abandon_lem :
    (c : ℕ) (reason actor : Text) (db : Db)
    → Consistent db
    → abandon c reason actor db ≡ abandon_result c reason actor db (find (is_open_in c) db.sessions)
unfolding abandon get_open_for_conversation retire abandon_open_session unpin insert_audit ◌>>=◌
abandon_lem c reason actor db k =
    rw (one_or_none-keep (is_open_in c) db.sessions (constraints→Sole c db.sessions k.constraints))
      (go (find (is_open_in c) db.sessions) refl)
  where
    go :
        (o : Option AgentSession)
        → find (is_open_in c) db.sessions ≡ o
        → retire c reason actor o db ≡ abandon_result c reason actor db o
    go none e = refl
    go (some row) e =
        elim (update_returning-cases (is_open_in c) (as_abandoned reason db.now) db
          (constraints→Sole c db.sessions k.constraints)) [
            | inl (f, _) ↦
                cc (table_ok-swept (is_open_in c) reason db.now db.sessions k.constraints)
            | inr (_, h) ↦ rw (h, e)
          ]

-- whether a row of the list belongs to the conversation
abbrev pub belongs_to_any : List AgentSession → Conversation → Bool
belongs_to_any [] row = false
belongs_to_any (s ∷ ss) row = (row.id == s.conversation_id) || belongs_to_any ss row

abbrev pub sweep_entry : AgentSession → AuditEntry
sweep_entry row = abandon_entry (codes "system") none row (some (codes "idle sweep"))

update-update :
    (p q : Conversation → Bool) (rows : List Conversation)
    → ((a : Conversation) → q (unpinned a) ≡ q a)
    → update q unpinned (update p unpinned rows) ≡ update (λ a. p a || q a) unpinned rows
unfolding update
update-update p q [] h = refl
update-update p q (a ∷ rows) h = elim (Bool-cases (p a)) [
  | inl e ↦ elim (Bool-cases (q a)) [
    | inl f ↦ rw (e, h a, f, update-update p q rows h)
    | inr f ↦ rw (e, h a, f, update-update p q rows h)
  ]
  | inr e ↦ elim (Bool-cases (q a)) [
    | inl f ↦ rw (e, f, update-update p q rows h)
    | inr f ↦ rw (e, f, update-update p q rows h)
  ]
]

update_nothing : (rows : List Conversation) → update (λ a. false) unpinned rows ≡ rows
unfolding update
update_nothing [] = refl
update_nothing (a ∷ rows) = rw (update_nothing rows)

belongs_to_any-unpinned :
    (rows : List AgentSession) (a : Conversation)
    → belongs_to_any rows (unpinned a) ≡ belongs_to_any rows a
belongs_to_any-unpinned [] a = refl
belongs_to_any-unpinned (s ∷ rows) a = rw (belongs_to_any-unpinned rows a)

unpin_swept_lem :
    (rows : List AgentSession) (db : Db)
    → unpin_swept rows db ≡ (
      returned tt,
      record db {
        conversations = update (belongs_to_any rows) unpinned db.conversations;
        audit = db.audit ++ map sweep_entry rows;
      },
    )
unfolding unpin_swept unpin insert_audit ◌>>=◌
unpin_swept_lem [] db = rw (update_nothing db.conversations, append-nil db.audit)
unpin_swept_lem (row ∷ rows) db = rw (
  unpin_swept_lem rows,
  update-update (is_conversation row.conversation_id) (belongs_to_any rows) db.conversations
      (belongs_to_any-unpinned rows),
  append_assoc db.audit (sweep_entry row ∷ []) (map sweep_entry rows),
)

abbrev pub idle_reason : (ℕ → Text) → ℕ → Text
idle_reason isoformat older_than = codes "idle sweep: no activity before " ++ isoformat older_than

-- the rows that the sweep returns
abbrev pub swept_rows : (ℕ → Text) → ℕ → Db → List AgentSession
swept_rows isoformat older_than db =
    updated (is_idle older_than) (as_abandoned (idle_reason isoformat older_than) db.now)
      db.sessions

-- On a consistent database the idle sweep never raises. The sessions that are open and were last
-- active before the cutoff are abandoned, ended now, and returned; no other session changes; the
-- conversations of the returned sessions are unpinned and no others; and one audit entry is added
-- for each, in their order.
pub sweep_abandoned_lem :
    (isoformat : ℕ → Text) (older_than : ℕ) (db : Db)
    → Consistent db
    → sweep_abandoned isoformat older_than db ≡ (
      returned (swept_rows isoformat older_than db),
      record db {
        sessions =
            update
              (is_idle older_than)
              (as_abandoned (idle_reason isoformat older_than) db.now)
              db.sessions;
        conversations =
            update (belongs_to_any (swept_rows isoformat older_than db)) unpinned db.conversations;
        audit = db.audit ++ map sweep_entry (swept_rows isoformat older_than db);
      },
    )
unfolding sweep_abandoned sweep_abandoned_older_than write ◌>>=◌
sweep_abandoned_lem isoformat older_than db c = rw (
  table_ok-swept (is_idle older_than) (idle_reason isoformat older_than) db.now db.sessions
      c.constraints,
  unpin_swept_lem (swept_rows isoformat older_than db),
)
