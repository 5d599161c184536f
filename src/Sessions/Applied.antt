-- ===== src/Sessions/Applied.antt =====
-- `SessionService.apply`, on every branch.
use mathlib.Core.List.{Memᴰ}
use saarathi.Common.{
  ℕ, Bool, true, false, ◌&&◌, none, some, List, [], ◌∷◌, ◌≡◌, refl, inl, inr, arith, Bool-cases,
  Option-cases, find, or_else,
}
use saarathi.Exec.{
  Outcome, returned, raises, integrity_error, invalid_transition, concurrent_modification, ◌>>=◌,
}
use saarathi.Database.{completed, AgentSession, Db}
use saarathi.Database.Tables.{update}
use saarathi.Database.Selects.{
  Sole, Sole-weaken, update_returning-none, update_returning-cases, find-updated-Mem,
}
use saarathi.Database.Sessions.{has_id, has_state, table_ok, row_ok, update_state_and_fields}
use saarathi.Sessions.{allowed, apply, SessionDelta, with_fields}
use saarathi.Sessions.Consistent.{Consistent, distinct→Sole}

-- the row that the guarded UPDATE writes, and what it writes
abbrev pub as_read : AgentSession → AgentSession → Bool
as_read session row = has_id session.id row && has_state session.state row

abbrev pub applied : SessionDelta → ℕ → AgentSession → AgentSession
applied delta now row = record (with_fields delta now row) { state = delta.state }

module _ (session : AgentSession) (delta : SessionDelta) (db : Db) (c : Consistent db) where
  pub Sole-as_read : Sole (as_read session) db.sessions
  Sole-as_read =
      Sole-weaken (has_id session.id) (as_read session) (λ a e. ground arith) db.sessions
        (distinct→Sole session.id db.sessions c.distinct)

  -- What comes of a call: the database is as before unless a row is returned.
  pub data Fate : Outcome AgentSession × Db → Type 0 where
    refused :
        allowed session.state delta.state ≡ false
        → Fate (raises (invalid_transition session.id), db)
    stale :
        allowed session.state delta.state ≡ true
        → find (as_read session) db.sessions ≡ none
        → Fate (raises (concurrent_modification session.id), db)
    violated :
        allowed session.state delta.state ≡ true
        → table_ok (update (as_read session) (applied delta db.now) db.sessions) ≡ false
        → Fate (raises integrity_error, db)
    done :
        (row : AgentSession)
        → allowed session.state delta.state ≡ true
        → find (as_read session) db.sessions ≡ some row
        → table_ok (update (as_read session) (applied delta db.now) db.sessions) ≡ true
        → Fate (
          returned (applied delta db.now row),
          record db { sessions = update (as_read session) (applied delta db.now) db.sessions },
        )

  -- each call has one of them
  pub apply-Fate : Fate (apply session delta db)
  unfolding apply update_state_and_fields ◌>>=◌
  apply-Fate = elim (Bool-cases (allowed session.state delta.state)) [
    | inr e ↦ rw e (refused e)
    | inl e ↦
        rw e
          (elim (update_returning-cases (as_read session) (applied delta db.now) db Sole-as_read) [
            | inl (t, h) ↦ rw h (violated e t)
            | inr (t, h) ↦ elim (Option-cases (find (as_read session) db.sessions)) [
              | inl n ↦
                  rw
                    (update_returning-none (as_read session) (applied delta db.now) db Sole-as_read
                      c.constraints n)
                    (stale e n)
              | inr (row, k) ↦ rw (h, k) (done row e k t)
            ]
          ])
  ]

table_ok-row_ok :
    (rows : List AgentSession) (b : AgentSession)
    → table_ok rows ≡ true
    → Memᴰ b rows
    → row_ok b ≡ true
unfolding table_ok
table_ok-row_ok [] b h m = elim m [ ]
table_ok-row_ok (row ∷ rows) b h (Memᴰ.head e) = rw e (ground arith)
table_ok-row_ok (row ∷ rows) b h (Memᴰ.tail m) = table_ok-row_ok rows b (ground arith) m

no_result_ok :
    (delta : SessionDelta) (now : ℕ) (row : AgentSession)
    → delta.state ≡ completed
    → or_else delta.result_ref row.result_ref ≡ none
    → row_ok (applied delta now row) ≡ false
unfolding row_ok
no_result_ok delta now row e n = rw (e, n) (ground arith)

-- A session is never completed without a result: if neither the row nor the delta has one, then
-- a call that would complete the session raises the database's error and changes nothing.
pub apply-no_result :
    (session : AgentSession) (delta : SessionDelta) (db : Db) (row : AgentSession)
    → Consistent db
    → allowed session.state completed ≡ true
    → delta.state ≡ completed
    → find (as_read session) db.sessions ≡ some row
    → or_else delta.result_ref row.result_ref ≡ none
    → apply session delta db ≡ (raises integrity_error, db)
apply-no_result session delta db row c a e k n =
    go (apply session delta db) (apply-Fate session delta db c)
  where
    go :
        (o : Outcome AgentSession × Db)
        → Fate session delta db c o
        → o ≡ (raises integrity_error, db)
    go _ (refused h) = cc
    go _ (stale _ h) = cc
    go _ (violated _ _) = refl
    go _ (done row' _ h t) =
        let ok =
          table_ok-row_ok _ _ t (find-updated-Mem _ (applied delta db.now) db.sessions row k) in
        cc (ok, no_result_ok delta db.now row e n)
