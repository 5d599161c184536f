-- ===== src/Database/Transcript.antt =====
-- How the messages of a conversation are numbered, and the transcript that they make.
use saarathi.Common.{
  ℕ, suc, ◌+◌, ◌≤◌, ◌<◌, Text, Bool, true, false, ◌&&◌, ◌||◌, Option, List, [], ◌∷◌, ◌++◌, ◌≡◌,
  refl, inl, inr, arith, is_some, leb, ltb, map, ==_refl, keep, Bool-cases,
}
use saarathi.Exec.{Exec, returned, ◌>>=◌}
use saarathi.Database.Rows.{Conversation, Message, Role, Db}
use saarathi.Database.Tables.{update, updated}
use saarathi.Database.Conversations.{next_seq_for_update, is_conversation, one, counts}
use saarathi.Database.Messages.{
  insert, transcript, in_conversation, has_seq, by_seq, insert_by_seq, is_user, message_ok, any,
}

-- a numbered message is added: `next_seq_for_update`, then `insert`
unfoldable pub append_message : ℕ → Role → Text → Option ℕ → Option ℕ → Exec Db Message
unfolding next_seq_for_update insert ◌>>=◌
append_message c role content agent_id agent_session_id =
    next_seq_for_update c >>= λ seq. insert c seq role content agent_id agent_session_id

unfoldable pub all_seq_le : ℕ → List Message → Bool
all_seq_le n [] = true
all_seq_le n (m ∷ ms) = leb m.seq n && all_seq_le n ms

insert_by_seq-end :
    (m : Message) (ms : List Message) (n : ℕ)
    → all_seq_le n ms ≡ true
    → n < m.seq
    → insert_by_seq m ms ≡ ms ++ (m ∷ [])
unfolding insert_by_seq all_seq_le
insert_by_seq-end m [] n h l = refl
insert_by_seq-end m (x ∷ ms) n h l = ground (arith, insert_by_seq-end m ms n)

insert_by_seq-le :
    (m : Message) (ms : List Message) (n : ℕ)
    → leb m.seq n ≡ true
    → all_seq_le n ms ≡ true
    → all_seq_le n (insert_by_seq m ms) ≡ true
unfolding insert_by_seq all_seq_le
insert_by_seq-le m [] n h l = ground arith
insert_by_seq-le m (x ∷ ms) n h l = elim (Bool-cases (ltb x.seq m.seq)) [
  | inl e ↦ rw e (ground (arith, insert_by_seq-le m ms n))
  | inr e ↦ rw e (ground arith)
]

by_seq-le : (ms : List Message) (n : ℕ) → all_seq_le n ms ≡ true → all_seq_le n (by_seq ms) ≡ true
unfolding by_seq all_seq_le
by_seq-le [] n h = refl
by_seq-le (m ∷ ms) n h =
    insert_by_seq-le m (by_seq ms) n (ground arith) (by_seq-le ms n (ground arith))

-- the next number is not taken
fresh_seq :
    (c n s : ℕ) (ms : List Message)
    → all_seq_le n (keep (in_conversation c) ms) ≡ true
    → n < s
    → any (has_seq c s) ms ≡ false
unfolding keep all_seq_le
fresh_seq c n s [] h l = refl
fresh_seq c n s (m ∷ ms) h l = elim (Bool-cases (in_conversation c m)) [
  | inl e ↦ let k = rw e at h in rw e (ground (arith, fresh_seq c n s ms, k))
  | inr e ↦ rw e (fresh_seq c n s ms (rw e at h) l)
]

pub all_seq_le_mono :
    (n m : ℕ) (ms : List Message) → n ≤ m → all_seq_le n ms ≡ true → all_seq_le m ms ≡ true
unfolding all_seq_le
all_seq_le_mono n m [] l h = refl
all_seq_le_mono n m (x ∷ ms) l h = ground (arith, all_seq_le_mono n m ms)

pub pos_seq : (n : ℕ) → ltb 0 (n + 1) ≡ true
pos_seq n = ground arith

leb_refl : (n : ℕ) → leb n n ≡ true
leb_refl n = ground arith

and_true : {a b : Bool} → a ≡ true → b ≡ true → (a && b) ≡ true
and_true e f = rw (e, f)

module _ (c : ℕ) where
  abbrev pub counted : Conversation → Conversation
  counted row = record row { message_count = row.message_count + 1 }

  pub updated-keep :
      (rows : List Conversation)
      → updated (is_conversation c) counted rows ≡ map counted (keep (is_conversation c) rows)
  unfolding updated keep
  updated-keep [] = refl
  updated-keep (r ∷ rows) = elim (Bool-cases (is_conversation c r)) [
    | inl e ↦ rw (e, updated-keep rows)
    | inr e ↦ rw (e, updated-keep rows)
  ]

  pub keep-update :
      (rows : List Conversation)
      → keep (is_conversation c) (update (is_conversation c) counted rows)
        ≡ map counted (keep (is_conversation c) rows)
  unfolding update keep
  keep-update [] = refl
  keep-update (r ∷ rows) = elim (Bool-cases (is_conversation c r)) [
    | inl e ↦ rw (e, keep-update rows) (rw e)
    | inr e ↦ rw (e, e, keep-update rows)
  ]

  -- Conversation `c` is the row `row`, and its messages have numbers up to its count.
  pub record Numbered (row : Conversation) (db : Db) : Type 0 where
    pub found : keep (is_conversation c) db.conversations ≡ row ∷ []
    pub numbered : all_seq_le row.message_count (keep (in_conversation c) db.messages) ≡ true

  module _ (role : Role) (content : Text) (agent_id agent_session_id : Option ℕ) where
    -- the message that is added
    abbrev pub added : Conversation → Db → Message
    added row db = record {
      id = db.fresh;
      conversation_id = c;
      seq = row.message_count + 1;
      role = role;
      content = content;
      agent_id = agent_id;
      agent_session_id = agent_session_id;
      created_at = db.now;
    }

    abbrev pub with_message : Conversation → Db → Db
    with_message row db = record db {
      conversations = update (is_conversation c) counted db.conversations;
      messages = added row db ∷ db.messages;
      fresh = suc db.fresh;
    }

    written :
        (row : Conversation) (db : Db)
        → Numbered row db
        → (is_user role || is_some agent_id) ≡ true
        → append_message c role content agent_id agent_session_id db
          ≡ (returned (added row db), with_message row db)
    unfolding append_message next_seq_for_update insert one counts message_ok ◌>>=◌
    written row db n a = rw (
      updated-keep db.conversations,
      n.found,
      a,
      fresh_seq c row.message_count (row.message_count + 1) db.messages n.numbered (omega arith),
      pos_seq row.message_count,
    )

    last_of :
        (row : Conversation) (db : Db)
        → Numbered row db
        → transcript c (with_message row db).messages
          ≡ transcript c db.messages ++ (added row db ∷ [])
    unfolding transcript keep by_seq
    last_of row db n = rw (==_refl c) (
        insert_by_seq-end (added row db) (transcript c db.messages) row.message_count
          (by_seq-le (keep (in_conversation c) db.messages) row.message_count n.numbered)
          (omega arith))

    with_message-Numbered :
        (row : Conversation) (db : Db)
        → Numbered row db
        → Numbered (counted row) (with_message row db)
    unfolding keep all_seq_le
    with_message-Numbered row db n = record {
      found = rw (keep-update db.conversations, n.found);
      numbered = rw (==_refl c) (
          and_true (leb_refl (row.message_count + 1))
            (all_seq_le_mono row.message_count (row.message_count + 1) _ (omega arith) n.numbered));
    }

    -- An added message never collides: in a conversation whose messages are numbered up to its
    -- count, a message of the user, or of an agent that is named, is written and returned with the
    -- next number; it comes last in the transcript, which is otherwise as before; and the messages
    -- are then numbered up to the new count.
    pub append_message_lem :
        (row : Conversation) (db : Db)
        → Numbered row db
        → (is_user role || is_some agent_id) ≡ true
        → (append_message c role content agent_id agent_session_id db
            ≡ (returned (added row db), with_message row db))
          × (transcript c (with_message row db).messages
              ≡ transcript c db.messages ++ (added row db ∷ []))
          × Numbered (counted row) (with_message row db)
    append_message_lem row db n a =
        (written row db n a, last_of row db n, with_message-Numbered row db n)
