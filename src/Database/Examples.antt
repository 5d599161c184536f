-- ===== src/Database/Examples.antt =====
-- Tests of the repositories, and their theorems at a concrete database.
use mathlib.Core.List.{Memᴰ}
use saarathi.Common.{
  ℕ, arith, inl, inr, Bool-cases, ==_iff, ◌==◌, Text, codes, Bool, false, Option, none, some, List,
  [], ◌∷◌, ◌≡◌, refl, keep,
}
use saarathi.Database.Rows.{Conversation, active, Message, user, assistant, Db}
use saarathi.Database.Tables.{update}
use saarathi.Database.Messages.{transcript, message_ok, by_seq, insert_by_seq}
use saarathi.Database.Ascending.{stored}
use saarathi.Database.Log.Refined.{post_all-refines}
use saarathi.Database.Log.{Post, Tidy, is_known, entries, post_all, log_all}
use saarathi.Database.Paging.{read_pages, read_pages-transcript}
use saarathi.Database.Tools.{
  ToolStatus, success, timeout, ToolTrace, bulk_insert, Fate, bulk_insert-Fate,
}
use saarathi.Database.Titles.{placeholds, replaces, touches, numbers, run_all, Later, run_all-Later}
use saarathi.Database.Transcript.{Numbered, all_seq_le}

abbrev conversation : Option Text → Bool → Conversation
conversation title placeholder = record {
  id = 7;
  tenant_code = codes "t";
  organization_id = none;
  external_user_id = codes "u";
  title = title;
  status = active;
  pinned_agent_id = none;
  locale = codes "en";
  message_count = 1;
  title_is_placeholder = placeholder;
  last_message_at = none;
  created_at = 3;
}

abbrev message : ℕ → Text → Message
message seq content = record {
  id = seq;
  conversation_id = 7;
  seq = seq;
  role = user;
  content = content;
  agent_id = none;
  agent_session_id = none;
  created_at = 3;
}

abbrev database : Option Text → Db
database title = record {
  sessions = [];
  conversations = conversation title false ∷ [];
  messages = message 1 (codes "hello") ∷ [];
  audit = [];
  fresh = 9;
  now = 20;
}

-- a placeholder gives way to the user's words, once
test_title :
    (run_all
      (placeholds 7 (codes "Stories")
        ∷ replaces 7 (codes "My story")
        ∷ replaces 7 (codes "Later")
        ∷ [])
      (database none)).conversations
    ≡ conversation (some (codes "My story")) false ∷ []
unfolding run_all update
test_title = refl

run_all-Later_example :
    (b : Conversation) × Later (conversation (some (codes "My story")) false) b
    × Memᴰ b
        (run_all
          (touches 7 (some (codes "Other")) ∷ numbers 7 ∷ [])
          (database (some (codes "My story")))).conversations
run_all-Later_example =
    run_all-Later (touches 7 (some (codes "Other")) ∷ numbers 7 ∷ [])
      (database (some (codes "My story"))) (conversation (some (codes "My story")) false)
      (Memᴰ.head refl)

database-Numbered : Numbered 7 (conversation none false) (database none)
unfolding keep all_seq_le
database-Numbered = record { found = refl; numbered = refl }

database-Tidy : Tidy (database none)
database-Tidy = record {
  each = λ c. elim (Bool-cases (7 == c)) [
    | inl e ↦ rw (← (==_iff 7 c).0 e) (inr (conversation none false, database-Numbered))
    | inr e ↦ inl (rw e)
  ];
}

-- one that is accepted, one of nobody, and one for a conversation that is not there
abbrev posts : List Post
posts =
    record {
      conversation_id = 7;
      entry = record {
        role = user;
        content = codes "so";
        agent_id = none;
        agent_session_id = none;
      };
    }
    ∷ record {
      conversation_id = 7;
      entry = record {
        role = assistant;
        content = codes "hm";
        agent_id = none;
        agent_session_id = none;
      };
    }
    ∷ record {
      conversation_id = 8;
      entry = record {
        role = user;
        content = codes "oh";
        agent_id = none;
        agent_session_id = none;
      };
    }
    ∷ []

post_all-refines_example :
    Tidy (post_all posts (database none))
    × ((c : ℕ)
        → entries c (post_all posts (database none))
          ≡ log_all c (is_known c (database none)) posts (entries c (database none)))
post_all-refines_example = post_all-refines posts (database none) database-Tidy

-- three messages, in pages of two
abbrev messages : List Message
messages = message 3 (codes "bye") ∷ message 1 (codes "hello") ∷ message 2 (codes "well") ∷ []

read_pages-transcript_example : read_pages 7 2 messages 0 4 ≡ some (transcript 7 messages)
unfolding stored message_ok transcript keep by_seq insert_by_seq
read_pages-transcript_example =
    read_pages-transcript 7 2 messages 4 refl (omega arith) (omega arith)

abbrev trace : ToolStatus → Option Text → ToolTrace
trace status error = record {
  tool_name = codes "search";
  iteration = 1;
  result_excerpt = codes "two rows";
  status = status;
  error = error;
  duration_ms = 5;
}

bulk_insert-Fate_example :
    Fate 4
      (some 1)
      (trace success none ∷ trace timeout (some (codes "too slow")) ∷ [])
      (bulk_insert 4 (some 1) (trace success none ∷ trace timeout (some (codes "too slow")) ∷ []))
bulk_insert-Fate_example =
    bulk_insert-Fate 4 (some 1) (trace success none ∷ trace timeout (some (codes "too slow")) ∷ [])
