-- ===== src/Mitra/TurnRecovery/Fate.antt =====
-- `reconcile` against a relation that says, without indices, which row is ours and which the reply.
use saarathi.Common.{
  ℕ, zero, suc, Text, true, false, none, some, List, [], ◌∷◌, ◌++◌, ◌≡◌, refl, ap, inl, inr, ◌⊎◌,
  arith, All, length, ◌∙◌, drop, find, Bool-cases,
}
use mathlib.Core.Path.{subst}
use saarathi.Mitra.TurnRecovery.{
  ChatRow, Reconciliation, pending, not_delivered, is_ours, user_index_below, user_index,
  not_from_user, last_id, without_reply, with_reply, reply_after, reconcile,
}

abbrev NoneOurs : Text → List ChatRow → Type 0
NoneOurs sent_text rows = All (λ (r : ChatRow). is_ours sent_text r ≡ false) rows

abbrev AllFromUser : List ChatRow → Type 0
AllFromUser rows = All (λ (r : ChatRow). r.from_user ≡ true) rows

-- The newest row that holds our text, and the first row of the bot after it.
pub data Fate (sent_text : Text) (rows : List ChatRow) : Reconciliation → Type 0 where
  never_arrived :
      NoneOurs sent_text rows → Fate sent_text rows (without_reply not_delivered (last_id rows))
  unanswered :
      (before : List ChatRow) (ours : ChatRow) (after : List ChatRow)
      → rows ≡ before ++ ours ∷ after
      → is_ours sent_text ours ≡ true
      → NoneOurs sent_text after
      → AllFromUser after
      → Fate sent_text rows (without_reply pending (last_id rows))
  replied :
      (before : List ChatRow) (ours : ChatRow) (between : List ChatRow) (reply : ChatRow)
      (after : List ChatRow)
      → rows ≡ before ++ ours ∷ (between ++ reply ∷ after)
      → is_ours sent_text ours ≡ true
      → NoneOurs sent_text (between ++ reply ∷ after)
      → AllFromUser between
      → reply.from_user ≡ false
      → Fate sent_text rows (with_reply reply)

module _ (sent_text : Text) where
  -- looking at one more row at the front
  index_cons :
      (row : ChatRow) (rows : List ChatRow) (n : ℕ)
      → user_index_below (row ∷ rows) sent_text (suc n) ≡ elim (user_index_below rows sent_text n) [
        | some i ↦ some (suc i)
        | none ↦ elim (is_ours sent_text row) [ true ↦ some 0 | false ↦ none ]
      ]
  unfolding user_index_below
  index_cons row rows zero = refl
  index_cons row rows (suc n) = ground (arith, index_cons row rows n)

  record Newest (rows : List ChatRow) (i : ℕ) : Type 0 where
    before : List ChatRow
    ours : ChatRow
    split : rows ≡ before ++ ours ∷ drop (suc i) rows
    is_it : is_ours sent_text ours ≡ true
    newest : NoneOurs sent_text (drop (suc i) rows)

  index_cases :
      (rows : List ChatRow)
      → ((user_index rows sent_text ≡ none) × NoneOurs sent_text rows)
        ⊎ ((i : ℕ) × (user_index rows sent_text ≡ some i) × Newest rows i)
  unfolding user_index_below
  index_cases [] = inl (refl, tt)
  index_cases (row ∷ rows) = elim (index_cases rows) [
    | inl (e, h) ↦ elim (Bool-cases (is_ours sent_text row)) [
      | inl t ↦ inr (
        0,
        rw (index_cons row rows (length rows)) (rw (e, t)),
        record { before = []; ours = row; split = refl; is_it = t; newest = h },
      )
      | inr f ↦ inl (rw (index_cons row rows (length rows)) (rw (e, f)), (f, h))
    ]
    | inr (i, e, h) ↦ inr (
      suc i,
      rw (index_cons row rows (length rows)) (rw e),
      record {
        before = row ∷ h.before;
        ours = h.ours;
        split = ap (◌∷◌ row) h.split;
        is_it = h.is_it;
        newest = h.newest;
      },
    )
  ]

find_reply_cases :
    (rows : List ChatRow)
    → ((find not_from_user rows ≡ none) × AllFromUser rows)
      ⊎ ((between : List ChatRow) × (reply : ChatRow) × (after : List ChatRow) × (find not_from_user
              rows
            ≡ some reply)
          × (rows ≡ between ++ reply ∷ after)
          × AllFromUser between
          × (reply.from_user ≡ false))
unfolding find
find_reply_cases [] = inl (refl, tt)
find_reply_cases (row ∷ rows) = elim (Bool-cases row.from_user) [
  | inr f ↦ inr ([], row, rows, ground arith, refl, tt, f)
  | inl t ↦ elim (find_reply_cases rows) [
    | inl (e, h) ↦ inl (ground arith, (t, h))
    | inr (between, reply, after, e, split, h, b) ↦
        inr (row ∷ between, reply, after, ground arith, ap (◌∷◌ row) split, (t, h), b)
  ]
]

module _ (sent_text : Text) where
  index_absent : (rows : List ChatRow) → NoneOurs sent_text rows → user_index rows sent_text ≡ none
  unfolding user_index_below
  index_absent [] h = refl
  index_absent (row ∷ rows) h =
      rw (index_cons sent_text row rows (length rows)) (rw (index_absent rows h.1, h.0))

  index_found :
      (before : List ChatRow) (ours : ChatRow) (after : List ChatRow)
      → is_ours sent_text ours ≡ true
      → NoneOurs sent_text after
      → user_index (before ++ ours ∷ after) sent_text ≡ some (length before)
  index_found [] ours after t h =
      rw (index_cons sent_text ours after (length after)) (rw (index_absent after h, t))
  index_found (row ∷ before) ours after t h =
      let rows = before ++ ours ∷ after in
      rw (index_cons sent_text row rows (length rows)) (rw (index_found before ours after t h))

drop-before :
    (before : List ChatRow) (ours : ChatRow) (after : List ChatRow)
    → drop (suc (length before)) (before ++ ours ∷ after) ≡ after
drop-before [] ours after = refl
drop-before (row ∷ before) ours after = drop-before before ours after

find_absent : (rows : List ChatRow) → AllFromUser rows → find not_from_user rows ≡ none
unfolding find
find_absent [] h = refl
find_absent (row ∷ rows) h = rw h.0 (find_absent rows h.1)

find_first :
    (between : List ChatRow) (reply : ChatRow) (after : List ChatRow)
    → AllFromUser between
    → reply.from_user ≡ false
    → find not_from_user (between ++ reply ∷ after) ≡ some reply
unfolding find
find_first [] reply after h b = rw b
find_first (row ∷ between) reply after h b = rw h.0 (find_first between reply after h.1 b)

-- `reconcile` reports the fate of the turn: not delivered when no user row holds the text;
-- otherwise the newest such row is ours, the first bot row after it is the reply, and the turn is
-- pending when there is none.
pub reconcile-Fate :
    (rows : List ChatRow) (sent_text : Text) → Fate sent_text rows (reconcile rows sent_text)
unfolding reconcile
reconcile-Fate rows sent_text = elim (index_cases sent_text rows) [
  | inl (e, h) ↦ rw (e, reply_after) (never_arrived h)
  | inr (i, e, h) ↦ elim (find_reply_cases (drop (suc i) rows)) [
    | inl (f, u) ↦
        rw (e, reply_after)
          (rw f (unanswered h.before h.ours (drop (suc i) rows) h.split h.is_it h.newest u))
    | inr (between, reply, after, f, s, u, b) ↦
        rw (e, reply_after)
          (rw f (
            replied h.before h.ours between reply after
              (h.split ∙ ap (λ rest. h.before ++ h.ours ∷ rest) s) h.is_it
              (subst (NoneOurs sent_text) s h.newest) u b))
  ]
]

-- The records of the service leave no choice: any fate that the rows allow is the reported one.
pub Fate-eq-reconcile :
    (rows : List ChatRow) (sent_text : Text) (r : Reconciliation)
    → Fate sent_text rows r
    → r ≡ reconcile rows sent_text
unfolding reconcile
Fate-eq-reconcile rows sent_text _ (never_arrived h) =
    rw (index_absent sent_text rows h, reply_after)
Fate-eq-reconcile rows sent_text _ (unanswered before ours after split t h u) =
    let found = index_found sent_text before ours after t h in
    rw split (rw (found, reply_after) (rw (drop-before before ours after, find_absent after u)))
Fate-eq-reconcile rows sent_text _ (replied before ours between reply after split t h u b) =
    let rest = between ++ reply ∷ after in
    let found = index_found sent_text before ours rest t h in
    rw split (
      rw (found, reply_after)
        (rw (drop-before before ours rest, find_first between reply after u b)))
