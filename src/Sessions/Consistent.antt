-- ===== src/Sessions/Consistent.antt =====
-- The table of sessions as the database keeps it: its constraints hold, and its keys are unique
-- and generated.
use saarathi.Common.{
  ℕ, suc, Bool, true, false, ◌&&◌, List, [], ◌∷◌, ◌≡◌, refl, inl, inr, arith, Bool-cases, ltb,
  if◌then◌else◌, ==_iff, ◌∙◌,
}
use saarathi.Exec.{Outcome}
use saarathi.Database.{AgentSession, Db, pending}
use saarathi.Database.Tables.{update}
use saarathi.Database.Sessions.{write, has_id, none_of, table_ok, is_open_in, clash}
use saarathi.Database.Selects.{Sole, none_of-weaken}
use saarathi.Sessions.Transitions.{here}
use saarathi.Sessions.Evolution.{
  Moves, Evolves, created, Evolves-refl, Evolves-trans, update-Evolves,
}

unfoldable pub distinct_ids : List AgentSession → Bool
distinct_ids [] = true
distinct_ids (row ∷ rows) = none_of (has_id row.id) rows && distinct_ids rows

unfoldable pub ids_below : ℕ → List AgentSession → Bool
ids_below n [] = true
ids_below n (row ∷ rows) = ltb row.id n && ids_below n rows

pub record Consistent (db : Db) : Type 0 where
  pub constraints : table_ok db.sessions ≡ true
  pub distinct : distinct_ids db.sessions ≡ true
  pub below : ids_below db.fresh db.sessions ≡ true

-- ... and the table has evolved from an earlier one.
pub record Sound (base : List AgentSession) (db : Db) : Type 0 where
  pub consistent : Consistent db
  pub evolves : Evolves base db.sessions

pub ids_below-suc :
    (n : ℕ) (rows : List AgentSession) → ids_below n rows ≡ true → ids_below (suc n) rows ≡ true
unfolding ids_below
ids_below-suc n [] h = refl
ids_below-suc n (row ∷ rows) h = ground (arith, ids_below-suc n rows)

pub ids_below→none_of :
    (n : ℕ) (rows : List AgentSession) → ids_below n rows ≡ true → none_of (has_id n) rows ≡ true
unfolding ids_below
ids_below→none_of n [] h = refl
ids_below→none_of n (row ∷ rows) h = ground (arith, ids_below→none_of n rows)

module _ (p : AgentSession → Bool) (f : AgentSession → AgentSession)
    (h : (a : AgentSession) → p a ≡ true → Moves a (f a)) where
  updated_id : (a : AgentSession) → (if p a then f a else a).id ≡ a.id
  updated_id a = go (p a) refl
    where
      go : (b : Bool) → p a ≡ b → (if b then f a else a).id ≡ a.id
      go true e = (h a e).same_id
      go false e = refl

  none_of-update :
      (i : ℕ) (rows : List AgentSession)
      → none_of (has_id i) (update p f rows) ≡ none_of (has_id i) rows
  unfolding update
  none_of-update i [] = refl
  none_of-update i (row ∷ rows) = rw (updated_id row, none_of-update i rows)

  distinct_ids-update :
      (rows : List AgentSession) → distinct_ids (update p f rows) ≡ distinct_ids rows
  unfolding update distinct_ids
  distinct_ids-update [] = refl
  distinct_ids-update (row ∷ rows) =
      rw (updated_id row, none_of-update row.id rows, distinct_ids-update rows)

  ids_below-update :
      (n : ℕ) (rows : List AgentSession) → ids_below n (update p f rows) ≡ ids_below n rows
  unfolding update ids_below
  ids_below-update n [] = refl
  ids_below-update n (row ∷ rows) = rw (updated_id row, ids_below-update n rows)

module _ (base : List AgentSession) where
  -- Writing a table that the present one evolves into, under new or old keys.
  Sound-write :
      {A : Type 0} (db : Db) (rows : List AgentSession) (result : Outcome A)
      → Sound base db
      → Evolves db.sessions rows
      → distinct_ids rows ≡ true
      → ids_below db.fresh rows ≡ true
      → Sound base (write rows result db).1
  unfolding write
  Sound-write db rows result s e d b = elim (Bool-cases (table_ok rows)) [
    | inl t ↦ rw t (record {
      consistent = record { constraints = t; distinct = d; below = b };
      evolves = Evolves-trans _ _ _ s.evolves e;
    })
    | inr t ↦ rw t s
  ]

  pub Sound-update :
      {A : Type 0} (db : Db) (p : AgentSession → Bool) (f : AgentSession → AgentSession)
      (result : Outcome A)
      → ((a : AgentSession) → p a ≡ true → Moves a (f a))
      → Sound base db
      → Sound base (write (update p f db.sessions) result db).1
  Sound-update db p f result h s =
      Sound-write db _ result s (update-Evolves p f h db.sessions)
        (distinct_ids-update p f h db.sessions ∙ s.consistent.distinct)
        (ids_below-update p f h db.fresh db.sessions ∙ s.consistent.below)

  pub Sound-fresh : (db : Db) → Sound base db → Sound base (record db { fresh = suc db.fresh })
  Sound-fresh db s = record {
    consistent = record {
      constraints = s.consistent.constraints;
      distinct = s.consistent.distinct;
      below = ids_below-suc db.fresh db.sessions s.consistent.below;
    };
    evolves = s.evolves;
  }

  pub Sound-create :
      {A : Type 0} (db : Db) (row : AgentSession) (result : Outcome A)
      → row.id ≡ db.fresh
      → row.state ≡ pending
      → Sound base db
      → Sound base (write (row ∷ db.sessions) result (record db { fresh = suc db.fresh })).1
  unfolding distinct_ids ids_below
  Sound-create db row result i p s =
      Sound-write (record db { fresh = suc db.fresh }) _ result (Sound-fresh db s)
        (created row _ _ (rw p (here pending)) (Evolves-refl db.sessions))
        (rw (i, ids_below→none_of db.fresh db.sessions s.consistent.below) s.consistent.distinct)
        (ground (arith, ids_below-suc db.fresh db.sessions s.consistent.below))

-- The key of a session selects one row, and one row of a conversation is open.
pub distinct→Sole :
    (i : ℕ) (rows : List AgentSession) → distinct_ids rows ≡ true → Sole (has_id i) rows
unfolding distinct_ids
distinct→Sole i [] h = tt
distinct→Sole i (row ∷ rows) h =
    (λ e. rw (← (==_iff row.id i).0 e) (ground arith), distinct→Sole i rows (ground arith))

clash-open :
    (row : AgentSession) (c : ℕ)
    → is_open_in c row ≡ true
    → (a : AgentSession) → is_open_in c a ≡ true
    → clash row a ≡ true
unfolding clash
clash-open row c e a h = ground arith

pub constraints→Sole :
    (c : ℕ) (rows : List AgentSession) → table_ok rows ≡ true → Sole (is_open_in c) rows
unfolding table_ok
constraints→Sole c [] h = tt
constraints→Sole c (row ∷ rows) h = (
  λ e. none_of-weaken (clash row) (is_open_in c) (clash-open row c e) rows (ground arith),
  constraints→Sole c rows (ground arith),
)
