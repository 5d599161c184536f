-- ===== src/Database/Log/Effects.antt =====
-- What becomes of the tables when a message is posted: nothing, a gap in the numbers, or a row more.
use saarathi.Common.{
  ℕ, ◌+◌, Text, true, false, ◌||◌, Option, List, [], ◌∷◌, ◌==◌, ◌≡◌, refl, inl, inr, arith, is_some,
  keep, Bool-cases, ==_iff,
}
use saarathi.Exec.{raises, no_result, integrity_error, ◌>>=◌}
use saarathi.Database.Rows.{Conversation, Role, Db}
use saarathi.Database.Tables.{update}
use saarathi.Database.Sessions.{none_of}
use saarathi.Database.Selects.{none_of→update, none_of→updated}
use saarathi.Database.Conversations.{next_seq_for_update, is_conversation, one, counts}
use saarathi.Database.Messages.{insert, message_ok, in_conversation, is_user}
use saarathi.Database.Transcript.{
  append_message, Numbered, with_message, counted, all_seq_le_mono, keep-update, updated-keep,
  append_message_lem, pos_seq,
}
use saarathi.Database.Log.{Post, post, is_known, is_attributed, Kept, Tidy}

module _ (q : ℕ) where
  abbrev pub renumbered : Db → Db
  renumbered db = record db {
    conversations = update (is_conversation q) (counted q) db.conversations;
  }

  counted-known :
      (c : ℕ) (rows : List Conversation)
      → none_of (is_conversation c) (update (is_conversation q) (counted q) rows)
        ≡ none_of (is_conversation c) rows
  unfolding update
  counted-known c [] = refl
  counted-known c (row ∷ rows) = elim (Bool-cases (is_conversation q row)) [
    | inl e ↦ rw (e, counted-known c rows)
    | inr e ↦ rw (e, counted-known c rows)
  ]

  other-row :
      (c : ℕ) (rows : List Conversation)
      → (q == c) ≡ false
      → keep (is_conversation c) (update (is_conversation q) (counted q) rows)
        ≡ keep (is_conversation c) rows
  unfolding update keep
  other-row c [] n = refl
  other-row c (row ∷ rows) n = elim (Bool-cases (is_conversation q row)) [
    | inl e ↦ let f : is_conversation c row ≡ false = ground arith in rw (e, f, other-row c rows n)
    | inr e ↦ rw (e, other-row c rows n)
  ]

  -- what a refused message leaves behind
  renumbered-Numbered :
      (row : Conversation) (db : Db)
      → Numbered q row db
      → Numbered q (counted q row) (renumbered db)
  renumbered-Numbered row db n = record {
    found = rw (keep-update q db.conversations, n.found);
    numbered = all_seq_le_mono row.message_count (row.message_count + 1) _ (omega arith) n.numbered;
  }

  missing :
      (role : Role) (content : Text) (a s : Option ℕ) (db : Db)
      → none_of (is_conversation q) db.conversations ≡ true
      → append_message q role content a s db ≡ (raises no_result, db)
  unfolding append_message next_seq_for_update one counts ◌>>=◌
  missing role content a s db h = rw (
    none_of→updated (is_conversation q) (counted q) db.conversations h,
    none_of→update (is_conversation q) (counted q) db.conversations h,
  )

  refused :
      (role : Role) (content : Text) (a s : Option ℕ) (row : Conversation) (db : Db)
      → Numbered q row db
      → (is_user role || is_some a) ≡ false
      → append_message q role content a s db ≡ (raises integrity_error, renumbered db)
  unfolding append_message next_seq_for_update insert one counts message_ok ◌>>=◌
  refused role content a s row db n h =
      rw (updated-keep q db.conversations, n.found, h, pos_seq row.message_count)

  other-Kept :
      (c : ℕ) (db db' : Db)
      → (q == c) ≡ false
      → db'.conversations ≡ (renumbered db).conversations
      → keep (in_conversation c) db'.messages ≡ keep (in_conversation c) db.messages
      → Kept c db
      → Kept c db'
  other-Kept c db db' n r m (inl h) = inl (rw (r, counted-known c db.conversations) h)
  other-Kept c db db' n r m (inr (row, k)) = inr (
    row,
    record { found = rw (r, other-row c db.conversations n) k.found; numbered = rw m k.numbered },
  )

-- what becomes of a database when a message is posted
pub data Effect (p : Post) (db : Db) : Db → Type 0 where
  nothing : none_of (is_conversation p.conversation_id) db.conversations ≡ true → Effect p db db
  gap :
      (row : Conversation)
      → Numbered p.conversation_id row db
      → is_attributed p.entry ≡ false
      → Effect p db (renumbered p.conversation_id db)
  grown :
      (row : Conversation)
      → Numbered p.conversation_id row db
      → is_attributed p.entry ≡ true
      → Effect p db (
          with_message p.conversation_id p.entry.role p.entry.content p.entry.agent_id
            p.entry.agent_session_id row db)

pub post-Effect : (p : Post) (db : Db) → Tidy db → Effect p db (post p db)
unfolding post
post-Effect p db t = elim (t.each p.conversation_id) [
  | inl h ↦
      rw
        (
          post,
          missing p.conversation_id p.entry.role p.entry.content p.entry.agent_id
              p.entry.agent_session_id db h,
        )
        (nothing h)
  | inr (row, n) ↦ elim (Bool-cases (is_attributed p.entry)) [
    | inl a ↦
        let (w, _, _) =
          append_message_lem p.conversation_id p.entry.role p.entry.content p.entry.agent_id
            p.entry.agent_session_id row db n a in
        rw (post, w) (grown row n a)
    | inr a ↦
        rw
          (
            post,
            refused p.conversation_id p.entry.role p.entry.content p.entry.agent_id
                p.entry.agent_session_id row db n a,
          )
          (gap row n a)
  ]
]

pub Effect-known :
    (p : Post) (db db' : Db) → Effect p db db' → (c : ℕ) → is_known c db' ≡ is_known c db
Effect-known p db _ (nothing h) c = refl
Effect-known p db _ (gap row n a) c = rw (counted-known p.conversation_id c db.conversations)
Effect-known p db _ (grown row n a) c = rw (counted-known p.conversation_id c db.conversations)

pub Effect-Tidy : (p : Post) (db db' : Db) → Effect p db db' → Tidy db → Tidy db'
unfolding keep
Effect-Tidy p db _ (nothing h) t = t
Effect-Tidy p db _ (gap row n a) t = record {
  each = λ c. elim (Bool-cases (p.conversation_id == c)) [
    | inl e ↦
        rw (← (==_iff p.conversation_id c).0 e)
          (inr (_, renumbered-Numbered p.conversation_id row db n))
    | inr e ↦ other-Kept p.conversation_id c db _ e refl refl (t.each c)
  ];
}
Effect-Tidy p db _ (grown row n a) t = record {
  each = λ c. elim (Bool-cases (p.conversation_id == c)) [
    | inl e ↦
        let (_, _, k) =
          append_message_lem p.conversation_id p.entry.role p.entry.content p.entry.agent_id
            p.entry.agent_session_id row db n a in
        rw (← (==_iff p.conversation_id c).0 e) (inr (_, k))
    | inr e ↦ other-Kept p.conversation_id c db _ e refl (rw e) (t.each c)
  ];
}
