-- ===== src/Database/Constraints.antt =====
-- Which writes the constraints of `agent_sessions` accept: abandoning sessions always, and a new
-- session where none is open in its conversation.
use saarathi.Common.{
  ℕ, Text, codes, Bool, true, false, List, [], ◌∷◌, ◌≡◌, refl, inl, inr, arith, Bool-cases,
  if◌then◌else◌, mem_text,
}
use saarathi.Database.Rows.{AgentSession, Db}
use saarathi.Database.Tables.{update}
use saarathi.Database.Sessions.{
  none_of, table_ok, row_ok, clash, as_abandoned, is_open, is_open_in, new_pending,
}

abbrev pub languages : List Text
languages = codes "en" ∷ codes "hi" ∷ codes "kn" ∷ codes "te" ∷ []

-- What a write that ends sessions has to respect, at the rows that it selects.
pub record Closes (p : AgentSession → Bool) (f : AgentSession → AgentSession) : Type 0 where
  pub ok : (a : AgentSession) → p a ≡ true → row_ok a ≡ true → row_ok (f a) ≡ true
  pub shut : (a : AgentSession) → is_open (f a) ≡ false
  pub remote : (a : AgentSession) → (f a).remote_session_id ≡ a.remote_session_id

module _ (p : AgentSession → Bool) (f : AgentSession → AgentSession) (closes : Closes p f) where
  abbrev closed : AgentSession → AgentSession
  closed row = if p row then f row else row

  row_ok-closed : (row : AgentSession) → row_ok row ≡ true → row_ok (closed row) ≡ true
  row_ok-closed row h = go (p row) refl
    where
      go : (b : Bool) → p row ≡ b → row_ok (if b then f row else row) ≡ true
      go true e = closes.ok row e h
      go false e = h

  clash-closed : (a b : AgentSession) → clash a b ≡ false → clash (closed a) (closed b) ≡ false
  unfolding clash
  clash-closed a b h = go (p a) (p b)
    where
      go : (x y : Bool) → clash (if x then f a else a) (if y then f b else b) ≡ false
      go true true = rw (closes.shut a, closes.remote a, closes.remote b) (ground arith)
      go true false = rw (closes.shut a, closes.remote a) (ground arith)
      go false true = rw (closes.shut b, closes.remote b) (ground arith)
      go false false = h

  none_of-clash-closed :
      (a : AgentSession) (rows : List AgentSession)
      → none_of (clash a) rows ≡ true
      → none_of (clash (closed a)) (update p f rows) ≡ true
  unfolding update
  none_of-clash-closed a [] h = refl
  none_of-clash-closed a (b ∷ rows) h =
      rw (clash-closed a b (ground arith)) (none_of-clash-closed a rows (ground arith))

  pub table_ok-closed :
      (rows : List AgentSession) → table_ok rows ≡ true → table_ok (update p f rows) ≡ true
  unfolding table_ok update
  table_ok-closed [] h = refl
  table_ok-closed (a ∷ rows) h = rw (
    row_ok-closed a (ground arith),
    none_of-clash-closed a rows (ground arith),
    table_ok-closed rows (ground arith),
  )

Closes-abandoned :
    (p : AgentSession → Bool) (reason : Text) (now : ℕ) → Closes p (as_abandoned reason now)
unfolding row_ok
Closes-abandoned p reason now = record {
  ok = λ a e h. ground arith;
  shut = λ a. refl;
  remote = λ a. refl;
}

-- abandons the rows that satisfy `p`
pub table_ok-swept :
    (p : AgentSession → Bool) (reason : Text) (now : ℕ) (rows : List AgentSession)
    → table_ok rows ≡ true
    → table_ok (update p (as_abandoned reason now) rows) ≡ true
table_ok-swept p reason now rows h = table_ok-closed p _ (Closes-abandoned p reason now) rows h

-- Nothing is open in a conversation after its open sessions have been abandoned.
pub none_of-abandoned :
    (c : ℕ) (reason : Text) (now : ℕ) (rows : List AgentSession)
    → none_of (is_open_in c) (update (is_open_in c) (as_abandoned reason now) rows) ≡ true
unfolding update
none_of-abandoned c reason now [] = refl
none_of-abandoned c reason now (a ∷ rows) = elim (Bool-cases (is_open_in c a)) [
  | inl e ↦ rw e (ground (arith, none_of-abandoned c reason now rows))
  | inr e ↦ rw e (rw e (none_of-abandoned c reason now rows))
]

none_of-clash-pending :
    (c agent : ℕ) (language : Text) (db : Db) (rows : List AgentSession)
    → none_of (is_open_in c) rows ≡ true
    → none_of (clash (new_pending c agent language db)) rows ≡ true
unfolding clash new_pending
none_of-clash-pending c agent language db [] h = refl
none_of-clash-pending c agent language db (a ∷ rows) h =
    ground (arith, none_of-clash-pending c agent language db rows)

pub table_ok-pending :
    (c agent : ℕ) (language : Text) (db : Db)
    → mem_text language languages ≡ true
    → none_of (is_open_in c) db.sessions ≡ true
    → table_ok db.sessions ≡ true
    → table_ok (new_pending c agent language db ∷ db.sessions) ≡ true
unfolding table_ok row_ok new_pending
table_ok-pending c agent language db l n h =
    rw (l, none_of-clash-pending c agent language db db.sessions n) h
