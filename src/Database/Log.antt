-- ===== src/Database/Log.antt =====
-- The messages of the conversations as append-only logs.
pub mod Effects
pub mod Refined
use saarathi.Common.{
  ℕ, ◌+◌, Text, Bool, true, false, not, ◌&&◌, ◌||◌, Option, List, [], ◌∷◌, ◌++◌, ◌==◌, ◌≡◌, refl,
  ◌∙◌, ◌⊎◌, inl, inr, arith, is_some, map, keep, Bool-cases, ==_iff, ==_refl, if◌then◌else◌,
}
use saarathi.Exec.{raises, no_result, integrity_error, ◌>>=◌}
use saarathi.Database.Rows.{Conversation, Message, Role, Db}
use saarathi.Database.Tables.{update}
use saarathi.Database.Sessions.{none_of}
use saarathi.Database.Selects.{none_of→update, none_of→updated}
use saarathi.Database.Conversations.{next_seq_for_update, is_conversation, one, counts}
use saarathi.Database.Messages.{insert, message_ok, transcript, in_conversation, is_user}
use saarathi.Database.Transcript.{
  append_message, Numbered, with_message, counted, all_seq_le_mono, keep-update, updated-keep,
  append_message_lem, pos_seq,
}

-- what a reader of the log sees of a message
pub record Entry : Type 0 where
  pub role : Role
  pub content : Text
  pub agent_id : Option ℕ
  pub agent_session_id : Option ℕ

abbrev pub entry_of : Message → Entry
entry_of m = record {
  role = m.role;
  content = m.content;
  agent_id = m.agent_id;
  agent_session_id = m.agent_session_id;
}

pub entries : ℕ → Db → List Entry
unfolding transcript
entries c db = map entry_of (transcript c db.messages)

-- a message for a conversation
pub record Post : Type 0 where
  pub conversation_id : ℕ
  pub entry : Entry

-- written as a turn does, also when that raises
pub post : Post → Db → Db
unfolding append_message
post p db =
    (append_message p.conversation_id p.entry.role p.entry.content p.entry.agent_id
      p.entry.agent_session_id db).1

pub post_all : List Post → Db → Db
unfolding post
post_all [] db = db
post_all (p ∷ ps) db = post_all ps (post p db)

abbrev pub is_known : ℕ → Db → Bool
is_known c db = not (none_of (is_conversation c) db.conversations)

abbrev pub is_attributed : Entry → Bool
is_attributed e = is_user e.role || is_some e.agent_id

-- the log of one conversation, which is there or not
abbrev pub logged : ℕ → Bool → Post → List Entry → List Entry
logged c known p log =
    if (p.conversation_id == c) && (known && is_attributed p.entry)
    then log ++ (p.entry ∷ [])
    else log

pub log_all : ℕ → Bool → List Post → List Entry → List Entry
log_all c known [] log = log
log_all c known (p ∷ ps) log = log_all c known ps (logged c known p log)

-- A conversation is missing, or there once, with its messages numbered up to its count.
abbrev pub Kept : ℕ → Db → Type 0
Kept c db =
    (none_of (is_conversation c) db.conversations ≡ true)
    ⊎ ((row : Conversation) × Numbered c row db)

pub record Tidy (db : Db) : Type 0 where
  pub each : (c : ℕ) → Kept c db
