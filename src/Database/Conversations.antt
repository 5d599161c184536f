-- ===== src/Database/Conversations.antt =====
-- backend/app/repositories/conversations.py. The key `title_is_placeholder` of `metadata` is a
-- field of the row; `list_for_user` gives the page of conversations and the next cursor.
use saarathi.Common.{
  ℕ, suc, ◌+◌, Text, Bool, true, false, ◌&&◌, Option, none, some, List, [], ◌∷◌, keep, take, length,
  last?, text_eq, is_empty, ltb, ◌==◌, if◌then◌else◌,
}
use saarathi.Exec.{Exec, Outcome, returned, raises, no_result, one_or_none}
use saarathi.Database.Rows.{ConversationStatus, active, archived, Conversation, Db}
use saarathi.Database.Tables.{update, updated}

-- the part of `UserContext` that the queries read (backend/app/domain/core.py)
pub record Owner : Type 0 where
  pub tenant_code : Text
  pub user_id : Text
  pub active_org_id : Option Text
  pub user_locale : Text

abbrev pub is_conversation : ℕ → Conversation → Bool
is_conversation id row = row.id == id

abbrev pub is_active : ConversationStatus → Bool
is_active active = true
is_active archived = false

abbrev pub owned_by : Owner → Conversation → Bool
owned_by owner row =
    text_eq row.tenant_code owner.tenant_code && text_eq row.external_user_id owner.user_id

-- `coalesce(last_message_at, created_at)`
abbrev pub activity : Conversation → ℕ
activity row = elim row.last_message_at [ none ↦ row.created_at | some t ↦ t ]

-- The first row by a key in descending order; the earlier row first among equals.
top_from : (Conversation → ℕ) → Conversation → List Conversation → Conversation
top_from key best [] = best
top_from key best (row ∷ rows) = top_from key (if ltb (key best) (key row) then row else best) rows

top : (Conversation → ℕ) → List Conversation → Option Conversation
unfolding top_from
top key [] = none
top key (row ∷ rows) = some (top_from key row rows)

new_conversation : Owner → Db → Conversation
new_conversation owner db = record {
  id = db.fresh;
  tenant_code = owner.tenant_code;
  organization_id = owner.active_org_id;
  external_user_id = owner.user_id;
  title = none;
  status = active;
  pinned_agent_id = none;
  locale = owner.user_locale;
  message_count = 0;
  title_is_placeholder = false;
  last_message_at = none;
  created_at = db.now;
}

unfoldable pub create_new : Owner → Exec Db Conversation
unfolding new_conversation
create_new owner db =
    let row = new_conversation owner db in
    (returned row, record db { conversations = row ∷ db.conversations; fresh = suc db.fresh })

-- the query of `get_or_create`: the named conversation, or the most recent active one
chosen : Option ℕ → Owner → List Conversation → Outcome (Option Conversation)
unfolding top one_or_none
chosen (some id) owner rows =
    one_or_none (keep (λ row. is_conversation id row && owned_by owner row) rows)
chosen none owner rows =
    returned (top activity (keep (λ row. owned_by owner row && is_active row.status) rows))

or_create : Owner → Outcome (Option Conversation) → Exec Db Conversation
unfolding create_new
or_create owner (returned (some row)) db = (returned row, db)
or_create owner (returned none) db = create_new owner db
or_create owner (raises e) db = (raises e, db)

unfoldable pub get_or_create : Option ℕ → Owner → Exec Db Conversation
unfolding or_create chosen
get_or_create conversation_id owner db =
    or_create owner (chosen conversation_id owner db.conversations) db

unfoldable pub find_empty_for_user : Owner → Exec Db (Option Conversation)
unfolding top
find_empty_for_user owner db = (
  returned (
      top (λ row. row.created_at)
        (keep (λ row. owned_by owner row && (is_active row.status && (row.message_count == 0)))
          db.conversations)),
  db,
)

unfoldable pub get_scoped : ℕ → Owner → Exec Db (Option Conversation)
unfolding one_or_none
get_scoped conversation_id owner db = (
  one_or_none
      (keep (λ row. is_conversation conversation_id row && owned_by owner row) db.conversations),
  db,
)

-- `scalar_one()`
unfoldable pub one : List ℕ → Outcome ℕ
one (n ∷ []) = returned n
one _ = raises no_result

unfoldable pub counts : List Conversation → List ℕ
counts [] = []
counts (row ∷ rows) = row.message_count ∷ counts rows

-- every write of a row of `conversations`
abbrev pub write_where : (Conversation → Bool) → (Conversation → Conversation) → Exec Db (Unit {0})
write_where p f db = (returned tt, record db { conversations = update p f db.conversations })

unfoldable pub next_seq_for_update : ℕ → Exec Db ℕ
unfolding one counts update updated
next_seq_for_update conversation_id db =
    let p = is_conversation conversation_id in
    let f = λ (row : Conversation). record row { message_count = row.message_count + 1 } in
    (
      one (counts (updated p f db.conversations)),
      record db { conversations = update p f db.conversations },
    )

abbrev pub is_none {ℓ} : {A : Type ℓ} → Option A → Bool
is_none none = true
is_none (some a) = false

unfoldable pub set_placeholder_title : ℕ → Text → Exec Db (Unit {0})
unfolding update
set_placeholder_title id title =
    write_where (λ row. is_conversation id row && is_none row.title)
      (λ row. record row { title = some title; title_is_placeholder = true })

unfoldable pub replace_placeholder_title : ℕ → Text → Exec Db (Unit {0})
unfolding update
replace_placeholder_title id title =
    write_where (λ row. is_conversation id row && row.title_is_placeholder)
      (λ row. record row { title = some title; title_is_placeholder = false })

-- `if title_from`: None and the empty text leave the title alone
abbrev pub coalesce_title : Option Text → Option Text → Option Text
coalesce_title (some t) given = some t
coalesce_title none none = none
coalesce_title none (some s) = if is_empty s then none else some s

unfoldable pub touch : ℕ → Option Text → Exec Db (Unit {0})
unfolding update
touch id title_from db =
    write_where (is_conversation id)
      (λ row. record row {
        last_message_at = some db.now;
        title = coalesce_title row.title title_from;
      })
      db

unfoldable pub archive : ℕ → Exec Db (Unit {0})
unfolding update
archive id = write_where (is_conversation id) (λ row. record row { status = archived })

unfoldable pub pin : ℕ → ℕ → Exec Db (Unit {0})
unfolding update
pin id agent_id =
    write_where (is_conversation id) (λ row. record row { pinned_agent_id = some agent_id })

unfoldable pub unpin : ℕ → Exec Db (Unit {0})
unfolding update
unpin id = write_where (is_conversation id) (λ row. record row { pinned_agent_id = none })

-- `ORDER BY coalesce(last_message_at, created_at) DESC`, by insertion
insert_by_activity : Conversation → List Conversation → List Conversation
insert_by_activity row [] = row ∷ []
insert_by_activity row (first ∷ rest) =
    if ltb (activity first) (activity row)
    then row ∷ first ∷ rest
    else first ∷ insert_by_activity row rest

by_activity : List Conversation → List Conversation
unfolding insert_by_activity
by_activity [] = []
by_activity (row ∷ rows) = insert_by_activity row (by_activity rows)

abbrev before : Option ℕ → Conversation → Bool
before none row = true
before (some cursor) row = ltb (activity row) cursor

abbrev pub is_listed : Owner → Option ℕ → Conversation → Bool
is_listed owner cursor row =
    (owned_by owner row && (is_active row.status && ltb 0 row.message_count)) && before cursor row

next_cursor : ℕ → List Conversation → Option ℕ
next_cursor limit rows =
    if ltb limit (length rows)
    then elim (last? (take limit rows)) [ none ↦ none | some row ↦ some (activity row) ]
    else none

unfoldable pub list_for_user : Owner → Option ℕ → ℕ → Exec Db (List Conversation × Option ℕ)
unfolding by_activity next_cursor
list_for_user owner cursor limit db =
    let rows = take (suc limit) (by_activity (keep (is_listed owner cursor) db.conversations)) in
    (returned (take limit rows, next_cursor limit rows), db)
