-- ===== src/Database/Log/Refined.antt =====
-- The logs that the conversations read as.
use saarathi.Common.{
  ℕ, Bool, true, false, ◌&&◌, List, [], ◌∷◌, ◌++◌, ◌==◌, ◌≡◌, refl, ◌∙◌, inl, inr, map, keep,
  Bool-cases, ==_iff, ==_refl,
}
use saarathi.Database.Rows.{Conversation, Db}
use saarathi.Database.Sessions.{none_of}
use saarathi.Database.Conversations.{is_conversation}
use saarathi.Database.Messages.{transcript}
use saarathi.Database.Transcript.{Numbered, with_message, append_message_lem}
use saarathi.Database.Log.{
  entry_of, entries, Post, post, post_all, is_known, is_attributed, logged, log_all, Tidy,
}
use saarathi.Database.Log.Effects.{
  renumbered, Effect, nothing, gap, grown, post-Effect, Effect-known, Effect-Tidy,
}

map-append :
    {A B : Type 0} (f : A → B) (xs : List A) (y : A)
    → map f (xs ++ (y ∷ [])) ≡ map f xs ++ (f y ∷ [])
map-append f [] y = refl
map-append f (x ∷ xs) y = rw (map-append f xs y)

untouched : (q c : ℕ) (db : Db) → entries c (renumbered q db) ≡ entries c db
unfolding entries
untouched q c db = refl

never : (x y : Bool) → (x && (y && false)) ≡ false
never true true = refl
never true false = refl
never false y = refl

found_known :
    {A : Type 0} (p : A → Bool) (rows : List A) (a : A)
    → keep p rows ≡ a ∷ []
    → none_of p rows ≡ false
unfolding keep
found_known p [] a h = cc
found_known p (row ∷ rows) a h = elim (Bool-cases (p row)) [
  | inl e ↦ rw e
  | inr e ↦ rw e (found_known p rows a (rw e at h))
]

module _ (p : Post) (row : Conversation) (db : Db) (n : Numbered p.conversation_id row db)
    (a : is_attributed p.entry ≡ true) where
  abbrev longer : Db
  longer =
      with_message p.conversation_id p.entry.role p.entry.content p.entry.agent_id
        p.entry.agent_session_id row db

  entries_here : entries p.conversation_id longer ≡ entries p.conversation_id db ++ (p.entry ∷ [])
  unfolding entries
  entries_here =
      let (_, last, _) =
        append_message_lem p.conversation_id p.entry.role p.entry.content p.entry.agent_id
          p.entry.agent_session_id row db n a in
      rw last (map-append entry_of (transcript p.conversation_id db.messages) _)

  entries_elsewhere : (c : ℕ) → (p.conversation_id == c) ≡ false → entries c longer ≡ entries c db
  unfolding entries transcript keep
  entries_elsewhere c e = rw e

Effect-entries :
    (p : Post) (db db' : Db)
    → Effect p db db'
    → (c : ℕ) → entries c db' ≡ logged c (is_known c db) p (entries c db)
Effect-entries p db _ (nothing h) c = elim (Bool-cases (p.conversation_id == c)) [
  | inl e ↦
      let k : none_of (is_conversation c) db.conversations ≡ true =
        rw ((==_iff p.conversation_id c).0 e) at h in
      rw (e, k)
  | inr e ↦ rw e
]
Effect-entries p db _ (gap row n a) c =
    rw (a, never (p.conversation_id == c) (is_known c db)) (untouched p.conversation_id c db)
Effect-entries p db _ (grown row n a) c = elim (Bool-cases (p.conversation_id == c)) [
  | inl e ↦
      let k = found_known (is_conversation p.conversation_id) db.conversations row n.found in
      rw (← (==_iff p.conversation_id c).0 e, ==_refl p.conversation_id, k, a)
        (entries_here p row db n a)
  | inr e ↦ rw e (entries_elsewhere p row db n a c e)
]

-- Posting refines the logs: from a database whose conversations are numbered up to their counts,
-- whatever is posted to whichever conversations, a conversation reads as its log with the accepted
-- messages that were for it at the end, in the order in which they were posted. Accepted are those
-- for a conversation that is there, of the user or of an agent that is named; the others leave the
-- logs as they were. And the conversations are still numbered up to their counts.
pub post_all-refines :
    (ps : List Post) (db : Db)
    → Tidy db
    → Tidy (post_all ps db)
      × ((c : ℕ) → entries c (post_all ps db) ≡ log_all c (is_known c db) ps (entries c db))
unfolding post_all log_all
post_all-refines [] db t = (t, λ c. refl)
post_all-refines (p ∷ ps) db t =
    let f = post-Effect p db t in
    let (t', r) = post_all-refines ps (post p db) (Effect-Tidy p db _ f t) in
    (t', λ c. r c ∙ rw (Effect-known p db _ f c, Effect-entries p db _ f c))
