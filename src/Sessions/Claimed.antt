-- ===== src/Sessions/Claimed.antt =====
-- A claim of the finalisation that succeeds: no constraint of the table refuses it.
use mathlib.Core.List.{Memᴰ}
use saarathi.Common.{
  ℕ, Bool, true, false, some, List, [], ◌∷◌, ◌≡◌, refl, inl, inr, arith, ==_iff, if◌then◌else◌,
  find,
}
use saarathi.Exec.{returned}
use saarathi.Database.{finalizing, AgentSession, Db}
use saarathi.Database.Tables.{update}
use saarathi.Database.Selects.{update_returning-cases, find-Sole}
use saarathi.Database.Sessions.{
  claim_finalizing, is_claimable, none_of, table_ok, row_ok, clash, is_open,
}
use saarathi.Sessions.Consistent.{Consistent}
use saarathi.Sessions.Claims.{claims_id, claims_id-Sole}

abbrev pub as_finalizing : AgentSession → AgentSession
as_finalizing row = record row { state = finalizing }

module _ (i : ℕ) where
  abbrev claimed : AgentSession → AgentSession
  claimed row = if claims_id i row then as_finalizing row else row

  row_ok-as_finalizing :
      (row : AgentSession)
      → is_claimable row.state ≡ true
      → row_ok row ≡ true
      → row_ok (as_finalizing row) ≡ true
  unfolding row_ok
  row_ok-as_finalizing row e h = ground arith

  row_ok-claimed : (row : AgentSession) → row_ok row ≡ true → row_ok (claimed row) ≡ true
  row_ok-claimed row h = go (claims_id i row) refl
    where
      go : (b : Bool) → claims_id i row ≡ b → row_ok (if b then as_finalizing row else row) ≡ true
      go true e = row_ok-as_finalizing row (ground arith) h
      go false e = h

  is_open-claimed : (row : AgentSession) → is_open (claimed row) ≡ is_open row
  is_open-claimed row = go (claims_id i row) refl
    where
      go :
          (b : Bool)
          → claims_id i row ≡ b
          → is_open (if b then as_finalizing row else row) ≡ is_open row
      go true e = ground arith
      go false e = refl

  conversation_id-claimed :
      (row : AgentSession) → (claimed row).conversation_id ≡ row.conversation_id
  conversation_id-claimed row = go (claims_id i row)
    where
      go : (b : Bool) → (if b then as_finalizing row else row).conversation_id ≡ row.conversation_id
      go true = refl
      go false = refl

  remote-claimed : (row : AgentSession) → (claimed row).remote_session_id ≡ row.remote_session_id
  remote-claimed row = go (claims_id i row)
    where
      go :
          (b : Bool)
          → (if b then as_finalizing row else row).remote_session_id ≡ row.remote_session_id
      go true = refl
      go false = refl

  clash-claimed : (a b : AgentSession) → clash (claimed a) (claimed b) ≡ clash a b
  unfolding clash
  clash-claimed a b = rw (
    is_open-claimed a,
    is_open-claimed b,
    conversation_id-claimed a,
    conversation_id-claimed b,
    remote-claimed a,
    remote-claimed b,
  )

  none_of-clash-claimed :
      (a : AgentSession) (rows : List AgentSession)
      → none_of (clash (claimed a)) (update (claims_id i) as_finalizing rows)
        ≡ none_of (clash a) rows
  unfolding update
  none_of-clash-claimed a [] = refl
  none_of-clash-claimed a (b ∷ rows) = rw (clash-claimed a b, none_of-clash-claimed a rows)

  table_ok-claimed :
      (rows : List AgentSession)
      → table_ok rows ≡ true
      → table_ok (update (claims_id i) as_finalizing rows) ≡ true
  unfolding table_ok update
  table_ok-claimed [] h = refl
  table_ok-claimed (a ∷ rows) h =
      let n : none_of (clash a) rows ≡ true = ground arith in
      rw (
        row_ok-claimed a (ground arith),
        none_of-clash-claimed a rows,
        n,
        table_ok-claimed rows (ground arith),
      )

  -- A session that is there, in a state that can be claimed, is claimed by the next caller: it is
  -- returned as it was, now in `finalizing`.
  pub claim_finalizing_lem :
      (db : Db) (row : AgentSession)
      → Consistent db
      → Memᴰ row db.sessions
      → row.id ≡ i
      → is_claimable row.state ≡ true
      → (claim_finalizing i db).0 ≡ returned (some (as_finalizing row))
  unfolding claim_finalizing
  claim_finalizing_lem db row c m e h =
      let k : find (claims_id i) db.sessions ≡ some row =
        find-Sole (claims_id i) db.sessions row (claims_id-Sole i db c) m
          (rw ((==_iff row.id i).1 e) h) in
      elim (update_returning-cases (claims_id i) as_finalizing db (claims_id-Sole i db c)) [
        | inl (t, _) ↦ cc (t, table_ok-claimed db.sessions c.constraints)
        | inr (_, u) ↦ rw (u, k)
      ]
