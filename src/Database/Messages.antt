-- ===== src/Database/Messages.antt =====
-- backend/app/repositories/messages.py. The rows of a conversation carry distinct numbers `seq`
-- (`uq_msg_seq`).
use mathlib.Core.List.{reverse}
use saarathi.Common.{
  ℕ, suc, Text, Bool, true, false, not, ◌&&◌, ◌||◌, Option, none, some, List, [], ◌∷◌, ◌++◌, keep,
  take, length, last?, is_some, ltb, ◌==◌, if◌then◌else◌,
}
use saarathi.Exec.{Exec, returned, raises, integrity_error}
use saarathi.Database.Rows.{Role, user, assistant, Message, Db}

abbrev pub is_user : Role → Bool
is_user user = true
is_user assistant = false

abbrev pub in_conversation : ℕ → Message → Bool
in_conversation conversation_id row = row.conversation_id == conversation_id

abbrev pub has_seq : ℕ → ℕ → Message → Bool
has_seq conversation_id seq row = in_conversation conversation_id row && (row.seq == seq)

abbrev pub any {ℓ} : {A : Type ℓ} → (A → Bool) → List A → Bool
any p [] = false
any p (row ∷ rows) = p row || any p rows

-- the constraints `msg_seq`, `msg_assistant_attribution` and `uq_msg_seq`
unfoldable pub message_ok : List Message → Message → Bool
message_ok rows row =
    ltb 0 row.seq
    && ((is_user row.role || is_some row.agent_id)
        && not (any (has_seq row.conversation_id row.seq) rows))

unfoldable pub insert : ℕ → ℕ → Role → Text → Option ℕ → Option ℕ → Exec Db Message
unfolding message_ok
insert conversation_id seq role content agent_id agent_session_id db =
    let row : Message = record {
      id = db.fresh;
      conversation_id = conversation_id;
      seq = seq;
      role = role;
      content = content;
      agent_id = agent_id;
      agent_session_id = agent_session_id;
      created_at = db.now;
    } in
    if message_ok db.messages row
    then (returned row, record db { messages = row ∷ db.messages; fresh = suc db.fresh })
    else (raises integrity_error, db)

-- `ORDER BY seq ASC`, by insertion
unfoldable pub insert_by_seq : Message → List Message → List Message
insert_by_seq row [] = row ∷ []
insert_by_seq row (first ∷ rest) =
    if ltb first.seq row.seq then first ∷ insert_by_seq row rest else row ∷ first ∷ rest

unfoldable pub by_seq : List Message → List Message
unfolding insert_by_seq
by_seq [] = []
by_seq (row ∷ rows) = insert_by_seq row (by_seq rows)

-- the conversation's rows, in ascending order
unfoldable pub transcript : ℕ → List Message → List Message
unfolding by_seq
transcript conversation_id rows = by_seq (keep (in_conversation conversation_id) rows)

-- The last `history_turns` rows: read in descending order with a limit, then reversed.
unfoldable pub recent : ℕ → ℕ → List Message → List Message
unfolding transcript
recent conversation_id history_turns rows =
    if history_turns == 0
    then []
    else reverse (take history_turns (reverse (transcript conversation_id rows)))

first_content : List Message → Option Text
first_content [] = none
first_content (row ∷ rows) = some row.content

unfoldable pub last_user_content : ℕ → List Message → Option Text
unfolding transcript first_content
last_user_content conversation_id rows =
    first_content (keep (λ row. is_user row.role) (reverse (transcript conversation_id rows)))

unfoldable pub next_seq : ℕ → List Message → Option ℕ
next_seq limit rows =
    if ltb limit (length rows)
    then elim (last? (take limit rows)) [ none ↦ none | some row ↦ some row.seq ]
    else none

unfoldable pub list_page : ℕ → ℕ → ℕ → List Message → List Message × Option ℕ
unfolding transcript next_seq
list_page conversation_id after_seq limit rows =
    let found =
      take (suc limit) (keep (λ row. ltb after_seq row.seq) (transcript conversation_id rows)) in
    (take limit found, next_seq limit found)

agent_ids : List Message → List ℕ
agent_ids [] = []
agent_ids (row ∷ rows) = elim row.agent_id [ none ↦ agent_ids rows | some id ↦ id ∷ agent_ids rows ]

abbrev differs_from_last : ℕ → List ℕ → Bool
differs_from_last id stops = elim (last? stops) [ none ↦ true | some last ↦ not (last == id) ]

-- the loop over `agent_ids`
collect_stops : List ℕ → List ℕ → List ℕ
collect_stops stops [] = stops
collect_stops stops (id ∷ ids) =
    collect_stops (if differs_from_last id stops then stops ++ id ∷ [] else stops) ids

unfoldable pub distinct_agent_sequence : ℕ → List Message → List ℕ
unfolding transcript agent_ids collect_stops
distinct_agent_sequence conversation_id rows =
    collect_stops [] (agent_ids (transcript conversation_id rows))
