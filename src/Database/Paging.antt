-- ===== src/Database/Paging.antt =====
-- Reading a conversation page by page, as `list_page` hands out its cursors.
use saarathi.Common.{
  ℕ, zero, suc, ◌<◌, ◌≤◌, ◌+◌, Text, true, false, Option, none, some, List, [], ◌∷◌, ◌++◌, ◌≡◌,
  refl, sym, ap, ◌∙◌, inl, inr, arith, ltb, keep, take, drop, last?, length, Bool-cases,
}
use saarathi.Database.Rows.{Message, Role, Db}
use saarathi.Database.Messages.{transcript, list_page, next_seq, insert}
use saarathi.Database.Ascending.{
  past, ascend, keep-ascend, ascend-keep, keep-keep, last_past, keep-last, stored,
  transcript-ascend,
}

abbrev put_before : List Message → Option (List Message) → Option (List Message)
put_before page none = none
put_before page (some rest) = some (page ++ rest)

abbrev and_on : List Message × Option ℕ → (ℕ → Option (List Message)) → Option (List Message)
and_on (page, none) read = some page
and_on (page, some cursor) read = put_before page (read cursor)

-- the pages after the cursor, joined; none when `fuel` pages were not enough
pub read_pages : ℕ → ℕ → List Message → ℕ → ℕ → Option (List Message)
read_pages conversation_id limit rows after_seq zero = none
read_pages conversation_id limit rows after_seq (suc fuel) =
    and_on (list_page conversation_id after_seq limit rows)
      (λ cursor. read_pages conversation_id limit rows cursor fuel)

take-take : (n : ℕ) (ms : List Message) → take n (take (suc n) ms) ≡ take n ms
take-take zero ms = refl
take-take (suc n) [] = refl
take-take (suc n) (m ∷ ms) = rw (take-take n ms)

take_all : (n : ℕ) (ms : List Message) → length ms ≤ n → take n ms ≡ ms
take_all zero [] l = refl
take_all zero (m ∷ ms) l = ground arith
take_all (suc n) [] l = refl
take_all (suc n) (m ∷ ms) l = rw (take_all n ms (omega arith))

take-drop : (n : ℕ) (ms : List Message) → take n ms ++ drop n ms ≡ ms
take-drop zero ms = refl
take-drop (suc n) [] = refl
take-drop (suc n) (m ∷ ms) = rw (take-drop n ms)

length-drop : (n : ℕ) (ms : List Message) → n ≤ length ms → n + length (drop n ms) ≡ length ms
length-drop zero ms l = omega arith
length-drop (suc n) [] l = ground arith
length-drop (suc n) (m ∷ ms) l = omega (arith, length-drop n ms (omega arith))

take-more : (n : ℕ) (ms : List Message) → ltb n (length (take (suc n) ms)) ≡ ltb n (length ms)
take-more zero [] = refl
take-more zero (m ∷ ms) = ground arith
take-more (suc n) [] = refl
take-more (suc n) (m ∷ ms) = ground (arith, take-more n ms)

last_some : (m : Message) (ms : List Message) → (r : Message) × (last? (m ∷ ms) ≡ some r)
last_some m [] = (m, refl)
last_some m (x ∷ ms) = last_some x ms

last-take :
    (n : ℕ) (ms : List Message)
    → 0 < n
    → n < length ms
    → (r : Message) × (last? (take n ms) ≡ some r)
last-take zero ms p l = ground arith
last-take (suc n) [] p l = ground arith
last-take (suc n) (m ∷ ms) p l = last_some m (take n ms)

module _ (conversation_id limit : ℕ) (rows : List Message) where
  abbrev after : ℕ → List Message
  after after_seq = keep (past after_seq) (transcript conversation_id rows)

  last_page :
      (after_seq : ℕ)
      → length (after after_seq) ≤ limit
      → list_page conversation_id after_seq limit rows ≡ (after after_seq, none)
  unfolding list_page next_seq
  last_page after_seq l =
      let all = take_all limit (after after_seq) l in
      let more : ltb limit (length (after after_seq)) ≡ false = ground arith in
      rw (take-take limit (after after_seq), take-more limit (after after_seq), more, all)

  other_page :
      (after_seq : ℕ) (r : Message)
      → limit < length (after after_seq)
      → last? (take limit (after after_seq)) ≡ some r
      → list_page conversation_id after_seq limit rows ≡ (take limit (after after_seq), some r.seq)
  unfolding list_page next_seq
  other_page after_seq r l e =
      let more : ltb limit (length (after after_seq)) ≡ true = ground arith in
      rw (take-take limit (after after_seq), take-more limit (after after_seq), more, e)

  -- the page and the pages that follow its cursor
  read_on :
      (after_seq fuel : ℕ) (r : Message)
      → limit < length (after after_seq)
      → last? (take limit (after after_seq)) ≡ some r
      → after r.seq ≡ drop limit (after after_seq)
      → read_pages conversation_id limit rows r.seq fuel ≡ some (after r.seq)
      → read_pages conversation_id limit rows after_seq (suc fuel) ≡ some (after after_seq)
  unfolding read_pages
  read_on after_seq fuel r l h cut ih =
      rw (other_page after_seq r l h, ih, cut, take-drop limit (after after_seq))

  read_pages-after :
      (after_seq fuel : ℕ)
      → ascend 0 (transcript conversation_id rows) ≡ true
      → 0 < limit
      → length (after after_seq) < fuel
      → read_pages conversation_id limit rows after_seq fuel ≡ some (after after_seq)
  unfolding read_pages
  read_pages-after after_seq zero a p l = ground arith
  read_pages-after after_seq (suc fuel) a p l =
      elim (Bool-cases (ltb limit (length (after after_seq)))) [
        | inr e ↦ rw (last_page after_seq (ground arith))
        | inl e ↦
            let (r, h) = last-take limit (after after_seq) p (ground arith) in
            let up = ascend-keep 0 after_seq (transcript conversation_id rows) a in
            let on = last_past after_seq limit (after after_seq) r up h in
            let cut : after r.seq ≡ drop limit (after after_seq) =
              sym (keep-keep after_seq r.seq (transcript conversation_id rows) (omega arith))
              ∙ keep-last after_seq limit (after after_seq) r up h in
            let fewer : length (after r.seq) < fuel =
              omega (arith, ap length cut, length-drop limit (after after_seq) (ground arith)) in
            read_on after_seq fuel r (ground arith) h cut (read_pages-after r.seq fuel a p fewer)
      ]

  -- Following the cursors of `list_page` reads a conversation whole: if the table satisfies its
  -- constraints, the limit is at least 1 and more pages are allowed than the conversation has
  -- messages, then the pages from 0 on, joined, are the transcript, each message once and in order.
  pub read_pages-transcript :
      (fuel : ℕ)
      → stored rows ≡ true
      → 0 < limit
      → length (transcript conversation_id rows) < fuel
      → read_pages conversation_id limit rows 0 fuel ≡ some (transcript conversation_id rows)
  read_pages-transcript fuel s p l =
      let up = transcript-ascend conversation_id rows s in
      let all = keep-ascend 0 (transcript conversation_id rows) up in
      read_pages-after 0 fuel up p (rw all l) ∙ rw all

-- the constraints stay satisfied
insert-stored :
    (conversation_id seq : ℕ) (role : Role) (content : Text) (agent_id agent_session_id : Option ℕ)
    (db : Db)
    → stored db.messages ≡ true
    → stored (insert conversation_id seq role content agent_id agent_session_id db).1.messages
      ≡ true
unfolding insert stored
insert-stored conversation_id seq role content agent_id agent_session_id db s = ground arith
