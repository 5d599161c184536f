-- ===== src/Database/Titles.antt =====
-- What the writes of the conversation repository do to a conversation over time.
use mathlib.Core.List.{Memᴰ}
use saarathi.Common.{
  ℕ, ◌+◌, ◌≤◌, Text, Bool, true, false, not, ◌&&◌, Option, none, some, List, [], ◌∷◌, ◌≡◌, refl,
  sym, ◌∙◌, arith, is_some, if◌then◌else◌,
}
use saarathi.Database.Rows.{Conversation, Db, archived}
use saarathi.Database.Tables.{update}
use saarathi.Database.Conversations.{
  set_placeholder_title, replace_placeholder_title, touch, archive, pin, unpin, next_seq_for_update,
  create_new, Owner, coalesce_title, is_conversation, is_none,
}

-- One call of a method.
pub data Call : Type 0 where
  placeholds replaces : ℕ → Text → Call
  touches : ℕ → Option Text → Call
  archives unpins numbers : ℕ → Call
  pins : ℕ → ℕ → Call
  creates : Owner → Call

unfoldable pub run : Call → Db → Db
unfolding set_placeholder_title replace_placeholder_title touch archive unpin pin
    next_seq_for_update create_new
run (placeholds id title) db = (set_placeholder_title id title db).1
run (replaces id title) db = (replace_placeholder_title id title db).1
run (touches id title_from) db = (touch id title_from db).1
run (archives id) db = (archive id db).1
run (unpins id) db = (unpin id db).1
run (numbers id) db = (next_seq_for_update id db).1
run (pins id agent_id) db = (pin id agent_id db).1
run (creates owner) db = (create_new owner db).1

unfoldable pub run_all : List Call → Db → Db
unfolding run
run_all [] db = db
run_all (c ∷ calls) db = run_all calls (run c db)

-- A title that the user's own words have given.
abbrev pub has_real_title : Conversation → Bool
has_real_title row = is_some row.title && not row.title_is_placeholder

-- A conversation over time: its key and owner stay, its messages are counted up, a title is not
-- lost, and a real title does not change.
pub record Later (a b : Conversation) : Type 0 where
  pub same_id : b.id ≡ a.id
  pub same_tenant : b.tenant_code ≡ a.tenant_code
  pub same_user : b.external_user_id ≡ a.external_user_id
  pub counted : a.message_count ≤ b.message_count
  pub named : is_some a.title ≡ true → is_some b.title ≡ true
  pub real : has_real_title a ≡ true → (b.title ≡ a.title) × (has_real_title b ≡ true)

Later-refl : (a : Conversation) → Later a a
Later-refl a = record {
  same_id = refl;
  same_tenant = refl;
  same_user = refl;
  counted = omega arith;
  named = λ h. h;
  real = λ h. (refl, h);
}

Later-trans : (a b c : Conversation) → Later a b → Later b c → Later a c
Later-trans a b c m n = record {
  same_id = n.same_id ∙ m.same_id;
  same_tenant = n.same_tenant ∙ m.same_tenant;
  same_user = n.same_user ∙ m.same_user;
  counted = omega (arith, m.counted, n.counted);
  named = λ h. n.named (m.named h);
  real = λ h. let (e, r) = m.real h in let (f, s) = n.real r in (f ∙ e, s);
}

update-Later :
    (p : Conversation → Bool) (f : Conversation → Conversation)
    → ((a : Conversation) → p a ≡ true → Later a (f a))
    → (rows : List Conversation) (a : Conversation) → Memᴰ a rows
    → (b : Conversation) × Later a b × Memᴰ b (update p f rows)
unfolding update
update-Later p f h [] a m = elim m [ ]
update-Later p f h (row ∷ rows) a (Memᴰ.head e) = (_, rw e (go (p row) refl), Memᴰ.head refl)
  where
    go : (b : Bool) → p row ≡ b → Later row (if b then f row else row)
    go true t = h row t
    go false t = Later-refl row
update-Later p f h (row ∷ rows) a (Memᴰ.tail m) =
    let (b, l, n) = update-Later p f h rows a m in (b, l, Memᴰ.tail n)

-- a write that leaves the title and the count alone
plain :
    (a b : Conversation)
    → b.id ≡ a.id
    → b.tenant_code ≡ a.tenant_code
    → b.external_user_id ≡ a.external_user_id
    → a.message_count ≤ b.message_count
    → b.title ≡ a.title
    → b.title_is_placeholder ≡ a.title_is_placeholder
    → Later a b
plain a b i t u c e f = record {
  same_id = i;
  same_tenant = t;
  same_user = u;
  counted = c;
  named = λ h. rw e h;
  real = λ h. (e, rw (e, f) h);
}

touched :
    (a : Conversation) (now : ℕ) (t : Option Text)
    → Later a (record a { last_message_at = some now; title = coalesce_title a.title t })
touched a now t = go a.title refl
  where
    go :
        (o : Option Text)
        → a.title ≡ o
        → Later a (record a { last_message_at = some now; title = coalesce_title o t })
    go none e = record {
      same_id = refl;
      same_tenant = refl;
      same_user = refl;
      counted = omega arith;
      named = λ h. cc (rw e at h);
      real = λ h. cc (rw e at h);
    }
    go (some x) e = plain a _ refl refl refl (omega arith) (sym e) refl

untitled :
    (c : Bool) (o : Option Text) (p : Bool)
    → (c && is_none o) ≡ true
    → (is_some o && not p) ≡ true
    → true ≡ false
untitled c none p h k = sym k
untitled true (some t) p h k = sym h
untitled false (some t) p h k = sym h

placeholder :
    (c : Bool) (o : Option Text) (p : Bool)
    → (c && p) ≡ true
    → (is_some o && not p) ≡ true
    → true ≡ false
placeholder c none p h k = sym k
placeholder c (some t) true h k = sym k
placeholder true (some t) false h k = sym h
placeholder false (some t) false h k = sym h

first_title :
    (a : Conversation) (t : Text) (c : Bool)
    → (c && is_none a.title) ≡ true
    → Later a (record a { title = some t; title_is_placeholder = true })
first_title a t c h = record {
  same_id = refl;
  same_tenant = refl;
  same_user = refl;
  counted = omega arith;
  named = λ k. refl;
  real = λ k. cc (untitled c a.title _ h k);
}

better_title :
    (a : Conversation) (t : Text) (c : Bool)
    → (c && a.title_is_placeholder) ≡ true
    → Later a (record a { title = some t; title_is_placeholder = false })
better_title a t c h = record {
  same_id = refl;
  same_tenant = refl;
  same_user = refl;
  counted = omega arith;
  named = λ k. refl;
  real = λ k. cc (placeholder c a.title _ h k);
}

run-Later :
    (c : Call) (db : Db) (a : Conversation)
    → Memᴰ a db.conversations
    → (b : Conversation) × Later a b × Memᴰ b (run c db).conversations
unfolding run
run-Later (placeholds id title) db a m =
    update-Later (λ row. is_conversation id row && is_none row.title)
      (λ row. record row { title = some title; title_is_placeholder = true })
      (λ r h. first_title r title (is_conversation id r) h) db.conversations a m
run-Later (replaces id title) db a m =
    update-Later (λ row. is_conversation id row && row.title_is_placeholder)
      (λ row. record row { title = some title; title_is_placeholder = false })
      (λ r h. better_title r title (is_conversation id r) h) db.conversations a m
run-Later (touches id title_from) db a m =
    update-Later (is_conversation id)
      (λ row. record row {
        last_message_at = some db.now;
        title = coalesce_title row.title title_from;
      })
      (λ r h. touched r db.now title_from) db.conversations a m
run-Later (archives id) db a m =
    update-Later (is_conversation id) (λ row. record row { status = archived })
      (λ r h. plain r _ refl refl refl (omega arith) refl refl) db.conversations a m
run-Later (unpins id) db a m =
    update-Later (is_conversation id) (λ row. record row { pinned_agent_id = none })
      (λ r h. plain r _ refl refl refl (omega arith) refl refl) db.conversations a m
run-Later (numbers id) db a m =
    update-Later (is_conversation id) (λ row. record row { message_count = row.message_count + 1 })
      (λ r h. plain r _ refl refl refl (omega arith) refl refl) db.conversations a m
run-Later (pins id agent_id) db a m =
    update-Later (is_conversation id) (λ row. record row { pinned_agent_id = some agent_id })
      (λ r h. plain r _ refl refl refl (omega arith) refl refl) db.conversations a m
run-Later (creates owner) db a m = (a, Later-refl a, Memᴰ.tail m)

-- Over any sequence of calls a conversation stays, with its key and its owner; its messages are
-- only counted up; a title is never lost, and once the user's own words have given it (it is there
-- and no placeholder) it never changes.
pub run_all-Later :
    (calls : List Call) (db : Db) (a : Conversation)
    → Memᴰ a db.conversations
    → (b : Conversation) × Later a b × Memᴰ b (run_all calls db).conversations
unfolding run_all
run_all-Later [] db a m = (a, Later-refl a, m)
run_all-Later (c ∷ calls) db a m =
    let (b, l, n) = run-Later c db a m in
    let (d, k, o) = run_all-Later calls (run c db) b n in (d, Later-trans a b d l k, o)
