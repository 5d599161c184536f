-- ===== src/Database/Selects.antt =====
-- What a statement reads and writes when its WHERE clause holds of one row at most.
use mathlib.Core.List.{Memᴰ}
use saarathi.Common.{
  Bool, true, false, Option, none, some, List, [], ◌∷◌, ◌≡◌, refl, inl, inr, arith, find, keep,
  Bool-cases, sym, ap, ◌∙◌, ◌⊎◌,
}
use saarathi.Exec.{Outcome, returned, raises, integrity_error, one_or_none}
use saarathi.Database.Tables.{update, updated}
use saarathi.Database.Sessions.{none_of, update_returning, write, table_ok}
use saarathi.Database.Rows.{AgentSession, Db}

abbrev pub map_option {ℓ} : {A B : Type ℓ} → (A → B) → Option A → Option B
map_option f none = none
map_option f (some a) = some (f a)

module _ {A : Type 0} where
  -- At most one row satisfies `p`.
  abbrev pub Sole : (A → Bool) → List A → Type 0
  Sole p [] = Unit
  Sole p (row ∷ rows) = (p row ≡ true → none_of p rows ≡ true) × Sole p rows

  pub none_of-weaken :
      (p q : A → Bool)
      → ((a : A) → q a ≡ true → p a ≡ true)
      → (rows : List A) → none_of p rows ≡ true
      → none_of q rows ≡ true
  none_of-weaken p q w [] h = refl
  none_of-weaken p q w (row ∷ rows) h = elim (Bool-cases (q row)) [
    | inl e ↦ ground (arith, w row e)
    | inr e ↦ ground (arith, none_of-weaken p q w rows)
  ]

  pub Sole-weaken :
      (p q : A → Bool)
      → ((a : A) → q a ≡ true → p a ≡ true)
      → (rows : List A) → Sole p rows
      → Sole q rows
  Sole-weaken p q w [] h = tt
  Sole-weaken p q w (row ∷ rows) (h, hs) =
      (λ e. none_of-weaken p q w rows (h (w row e)), Sole-weaken p q w rows hs)

  pub none_of→find : (p : A → Bool) (rows : List A) → none_of p rows ≡ true → find p rows ≡ none
  unfolding find
  none_of→find p [] h = refl
  none_of→find p (row ∷ rows) h = ground (arith, none_of→find p rows)

  pub find→none_of : (p : A → Bool) (rows : List A) → find p rows ≡ none → none_of p rows ≡ true
  unfolding find
  find→none_of p [] h = refl
  find→none_of p (row ∷ rows) h = ground (arith, find→none_of p rows)

  none_of→keep : (p : A → Bool) (rows : List A) → none_of p rows ≡ true → keep p rows ≡ []
  unfolding keep
  none_of→keep p [] h = refl
  none_of→keep p (row ∷ rows) h = ground (arith, none_of→keep p rows)

  pub none_of→updated :
      (p : A → Bool) (f : A → A) (rows : List A) → none_of p rows ≡ true → updated p f rows ≡ []
  unfolding updated
  none_of→updated p f [] h = refl
  none_of→updated p f (row ∷ rows) h = ground (arith, none_of→updated p f rows)

  pub none_of→update :
      (p : A → Bool) (f : A → A) (rows : List A) → none_of p rows ≡ true → update p f rows ≡ rows
  unfolding update
  none_of→update p f [] h = refl
  none_of→update p f (row ∷ rows) h = ground (arith, none_of→update p f rows)

  pub one_or_none-keep :
      (p : A → Bool) (rows : List A)
      → Sole p rows
      → one_or_none (keep p rows) ≡ returned (find p rows)
  unfolding keep find one_or_none
  one_or_none-keep p [] h = refl
  one_or_none-keep p (row ∷ rows) (h, hs) = elim (Bool-cases (p row)) [
    | inl e ↦ rw (e, none_of→keep p rows (h e))
    | inr e ↦ rw e (one_or_none-keep p rows hs)
  ]

  pub one_or_none-updated :
      (p : A → Bool) (f : A → A) (rows : List A)
      → Sole p rows
      → one_or_none (updated p f rows) ≡ returned (map_option f (find p rows))
  unfolding updated find one_or_none
  one_or_none-updated p f [] h = refl
  one_or_none-updated p f (row ∷ rows) (h, hs) = elim (Bool-cases (p row)) [
    | inl e ↦ rw (e, none_of→updated p f rows (h e))
    | inr e ↦ rw e (one_or_none-updated p f rows hs)
  ]

  pub find-holds : (p : A → Bool) (rows : List A) (a : A) → find p rows ≡ some a → p a ≡ true
  unfolding find
  find-holds p [] a h = cc
  find-holds p (row ∷ rows) a h = elim (Bool-cases (p row)) [
    | inl e ↦ cc
    | inr e ↦ find-holds p rows a (rw e at h)
  ]

  pub find-Mem : (p : A → Bool) (rows : List A) (a : A) → find p rows ≡ some a → Memᴰ a rows
  unfolding find
  find-Mem p [] a h = cc
  find-Mem p (row ∷ rows) a h = elim (Bool-cases (p row)) [
    | inl e ↦ Memᴰ.head cc
    | inr e ↦ Memᴰ.tail (find-Mem p rows a (rw e at h))
  ]

  pub none_of-Mem :
      (p : A → Bool) (rows : List A) (a : A) → none_of p rows ≡ true → Memᴰ a rows → p a ≡ false
  none_of-Mem p [] a h m = elim m [ ]
  none_of-Mem p (row ∷ rows) a h (Memᴰ.head e) = rw e (ground arith)
  none_of-Mem p (row ∷ rows) a h (Memᴰ.tail m) = none_of-Mem p rows a (ground arith) m

  -- The one row that satisfies `p` is the one that is found.
  pub find-Sole :
      (p : A → Bool) (rows : List A) (a : A)
      → Sole p rows
      → Memᴰ a rows
      → p a ≡ true
      → find p rows ≡ some a
  unfolding find
  find-Sole p [] a h m t = elim m [ ]
  find-Sole p (row ∷ rows) a h (Memᴰ.head e) t = rw (← e) (rw t)
  find-Sole p (row ∷ rows) a (h, hs) (Memᴰ.tail m) t = elim (Bool-cases (p row)) [
    | inl e ↦ cc (none_of-Mem p rows a (h e) m)
    | inr e ↦ rw e (find-Sole p rows a hs m t)
  ]

  pub find-updated-Mem :
      (p : A → Bool) (f : A → A) (rows : List A) (a : A)
      → find p rows ≡ some a
      → Memᴰ (f a) (update p f rows)
  unfolding find update
  find-updated-Mem p f [] a h = cc
  find-updated-Mem p f (row ∷ rows) a h = elim (Bool-cases (p row)) [
    | inl e ↦ Memᴰ.head (rw e (cc))
    | inr e ↦ Memᴰ.tail (find-updated-Mem p f rows a (rw e at h))
  ]

-- `UPDATE … RETURNING` on one row at most: it returns the row, or a constraint refuses it.
module _ (p : AgentSession → Bool) (f : AgentSession → AgentSession) (db : Db) where
  abbrev pub all_updated : Db
  all_updated = record db { sessions = update p f db.sessions }

  pub update_returning-cases :
      Sole p db.sessions
      → ((table_ok (update p f db.sessions) ≡ false)
          × (update_returning p f db ≡ (raises integrity_error, db)))
        ⊎ ((table_ok (update p f db.sessions) ≡ true)
            × (update_returning p f db
                ≡ (returned (map_option f (find p db.sessions)), all_updated)))
  unfolding update_returning write
  update_returning-cases s = elim (Bool-cases (table_ok (update p f db.sessions))) [
    | inl e ↦ inr (e, rw (e, one_or_none-updated p f db.sessions s))
    | inr e ↦ inl (e, rw e)
  ]

  pub update_returning-none :
      Sole p db.sessions
      → table_ok db.sessions ≡ true
      → find p db.sessions ≡ none
      → update_returning p f db ≡ (returned none, db)
  unfolding update_returning write
  update_returning-none s t e =
      let u = none_of→update p f db.sessions (find→none_of p db.sessions e) in
      rw (one_or_none-updated p f db.sessions s, e, u, t)

  pub update_returning-some :
      (r : AgentSession)
      → Sole p db.sessions
      → (update_returning p f db).0 ≡ returned (some r)
      → (a : AgentSession) × (find p db.sessions ≡ some a)
        × (r ≡ f a)
        × ((update_returning p f db).1 ≡ all_updated)
  update_returning-some r s e = elim (update_returning-cases s) [
    | inl (_, h) ↦ raised _ (ap (λ x. x.0) h) e
    | inr (_, h) ↦ go (find p db.sessions) refl (sym (ap (λ x. x.0) h) ∙ e) (ap (λ x. x.1) h)
  ]
    where
      raised :
          {B : Type 0} (o : Outcome (Option AgentSession))
          → o ≡ raises integrity_error
          → o ≡ returned (some r)
          → B
      raised o h k = cc

      go :
          (o : Option AgentSession)
          → find p db.sessions ≡ o
          → returned (map_option f o) ≡ returned (some r)
          → (update_returning p f db).1 ≡ all_updated
          → (a : AgentSession) × (find p db.sessions ≡ some a)
            × (r ≡ f a)
            × ((update_returning p f db).1 ≡ all_updated)
      go none k h u = cc
      go (some a) k h u = (a, k, cc, u)
