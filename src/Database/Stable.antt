-- ===== src/Database/Stable.antt =====
-- Invariants of the database that no statement of the program can break, whatever it writes to a
-- table: which fields a statement leaves alone, once for all such invariants.
use saarathi.Common.{ℕ, suc, Text, Bool, Option, List, ◌∷◌, inl, inr, Bool-cases}
use saarathi.Exec.{Outcome, returned, one_or_none}
use saarathi.Exec.Maintains.{Maintains}
use saarathi.Database.Rows.{SessionState, AgentSession, Conversation, Message, Role, AuditEntry, Db}
use saarathi.Database.Tables.{update, updated}
use saarathi.Database.Sessions.{
  write, table_ok, get, get_open_for_conversation, update_returning, create_pending, new_pending,
  update_state_and_fields, claim_finalizing, abandon_open_session,
}
use saarathi.Database.Conversations.{
  next_seq_for_update, set_placeholder_title, replace_placeholder_title, touch, pin, unpin,
}
use saarathi.Database.Messages.{insert, message_ok}

-- stable under writes of the sessions, of the conversations and of the log, and new messages
pub record DbStable (Inv : Db → Type 0) : Type 0 where
  pub sessions : (db : Db) (rows : List AgentSession) → Inv db → Inv (record db { sessions = rows })
  pub conversations :
      (db : Db) (rows : List Conversation) → Inv db → Inv (record db { conversations = rows })
  pub audit : (db : Db) (rows : List AuditEntry) → Inv db → Inv (record db { audit = rows })
  pub message :
      (db : Db) (row : Message) → Inv db → Inv (record db { messages = row ∷ db.messages })
  pub fresh : (db : Db) (n : ℕ) → Inv db → Inv (record db { fresh = n })

module _ {Inv : Db → Type 0} (stable : DbStable Inv) where
  write-stable :
      {A : Type 0} (rows : List AgentSession) (result : Outcome A) (db : Db)
      → Inv db
      → Inv (write rows result db).1
  unfolding write
  write-stable rows result db h = elim (Bool-cases (table_ok rows)) [
    | inl e ↦ rw e (stable.sessions db rows h)
    | inr e ↦ rw e h
  ]

  Maintains-update_returning :
      (p : AgentSession → Bool) (f : AgentSession → AgentSession)
      → Maintains Inv (update_returning p f)
  unfolding update_returning
  Maintains-update_returning p f = record {
    after =
        λ db h. write-stable (update p f db.sessions) (one_or_none (updated p f db.sessions)) db h;
  }

  pub Maintains-update_state :
      (i : ℕ) (s t : SessionState) (fields : AgentSession → AgentSession)
      → Maintains Inv (update_state_and_fields i s t fields)
  unfolding update_state_and_fields
  Maintains-update_state i s t fields = record {
    after = λ db h. (Maintains-update_returning _ _).after db h;
  }

  pub Maintains-claim : (i : ℕ) → Maintains Inv (claim_finalizing i)
  unfolding claim_finalizing
  Maintains-claim i = Maintains-update_returning _ _

  pub Maintains-abandon_open :
      (c : ℕ) (reason : Text) → Maintains Inv (abandon_open_session c reason)
  unfolding abandon_open_session
  Maintains-abandon_open c reason = record {
    after = λ db h. (Maintains-update_returning _ _).after db h;
  }

  pub Maintains-create_pending :
      (c agent : ℕ) (language : Text) → Maintains Inv (create_pending c agent language)
  unfolding create_pending
  Maintains-create_pending c agent language = record {
    after = λ db h.
        write-stable (new_pending c agent language db ∷ db.sessions)
          (returned (new_pending c agent language db)) (record db { fresh = suc db.fresh })
          (stable.fresh db (suc db.fresh) h);
  }

  pub Maintains-get : (i : ℕ) → Maintains Inv (get i)
  unfolding get
  Maintains-get i = record { after = λ db h. h }

  pub Maintains-get_open : (c : ℕ) → Maintains Inv (get_open_for_conversation c)
  unfolding get_open_for_conversation
  Maintains-get_open c = record { after = λ db h. h }

  pub Maintains-next_seq : (c : ℕ) → Maintains Inv (next_seq_for_update c)
  unfolding next_seq_for_update
  Maintains-next_seq c = record { after = λ db h. stable.conversations db _ h }

  pub Maintains-touch : (c : ℕ) (title : Option Text) → Maintains Inv (touch c title)
  unfolding touch
  Maintains-touch c title = record { after = λ db h. stable.conversations db _ h }

  pub Maintains-placeholder : (c : ℕ) (title : Text) → Maintains Inv (set_placeholder_title c title)
  unfolding set_placeholder_title
  Maintains-placeholder c title = record { after = λ db h. stable.conversations db _ h }

  pub Maintains-replace : (c : ℕ) (title : Text) → Maintains Inv (replace_placeholder_title c title)
  unfolding replace_placeholder_title
  Maintains-replace c title = record { after = λ db h. stable.conversations db _ h }

  pub Maintains-pin : (c agent : ℕ) → Maintains Inv (pin c agent)
  unfolding pin
  Maintains-pin c agent = record { after = λ db h. stable.conversations db _ h }

  pub Maintains-unpin : (c : ℕ) → Maintains Inv (unpin c)
  unfolding unpin
  Maintains-unpin c = record { after = λ db h. stable.conversations db _ h }

  pub Maintains-insert :
      (c seq : ℕ) (role : Role) (content : Text) (agent session : Option ℕ)
      → Maintains Inv (insert c seq role content agent session)
  unfolding insert
  Maintains-insert c seq role content agent session = record {
    after = λ db h.
        let row : Message = record {
          id = db.fresh;
          conversation_id = c;
          seq = seq;
          role = role;
          content = content;
          agent_id = agent;
          agent_session_id = session;
          created_at = db.now;
        } in
        elim (Bool-cases (message_ok db.messages row)) [
          | inl e ↦ rw e (
              stable.fresh (record db { messages = row ∷ db.messages }) (suc db.fresh)
                (stable.message db row h))
          | inr e ↦ rw e h
        ];
  }
