-- ===== src/Database/Ascending.antt =====
-- Messages with ascending numbers, and where the last one of a page cuts them.
use saarathi.Common.{
  ℕ, zero, suc, ◌<◌, ◌≤◌, Bool, true, false, ◌&&◌, ◌||◌, some, List, [], ◌∷◌, ◌==◌, ◌≡◌, refl, sym,
  ap, ◌∙◌, inl, inr, arith, ltb, keep, take, drop, last?, Bool-cases, ==_iff,
}
use saarathi.Database.Rows.{Message}
use saarathi.Database.Messages.{
  in_conversation, has_seq, any, by_seq, insert_by_seq, message_ok, transcript,
}

abbrev pub past : ℕ → Message → Bool
past n m = ltb n m.seq

-- the numbers ascend, from above `n`
pub ascend : ℕ → List Message → Bool
ascend n [] = true
ascend n (m ∷ ms) = past n m && ascend m.seq ms

pub ascend-weaken : (n k : ℕ) (ms : List Message) → n ≤ k → ascend k ms ≡ true → ascend n ms ≡ true
unfolding ascend
ascend-weaken n k [] l h = refl
ascend-weaken n k (m ∷ ms) l h = ground arith

pub keep-ascend : (n : ℕ) (ms : List Message) → ascend n ms ≡ true → keep (past n) ms ≡ ms
unfolding ascend keep
keep-ascend n [] h = refl
keep-ascend n (m ∷ ms) h =
    let e : past n m ≡ true = ground arith in
    let later : ascend n ms ≡ true = ascend-weaken n m.seq ms (ground arith) (ground arith) in
    rw (e, keep-ascend n ms later)

pub ascend-keep :
    (n k : ℕ) (ms : List Message) → ascend n ms ≡ true → ascend k (keep (past k) ms) ≡ true
unfolding ascend keep
ascend-keep n k [] h = refl
ascend-keep n k (m ∷ ms) h = elim (Bool-cases (past k m)) [
  | inl e ↦
      let later : ascend m.seq ms ≡ true = ground arith in
      let same = keep-ascend k ms (ascend-weaken k m.seq ms (ground arith) later) in
      rw (e, same) (rw e later)
  | inr e ↦ rw e (ascend-keep m.seq k ms (ground arith))
]

-- a later cursor keeps less
pub keep-keep :
    (n k : ℕ) (ms : List Message) → n ≤ k → keep (past k) (keep (past n) ms) ≡ keep (past k) ms
unfolding keep
keep-keep n k [] l = refl
keep-keep n k (m ∷ ms) l = elim (Bool-cases (past n m)) [
  | inl e ↦ elim (Bool-cases (past k m)) [
    | inl f ↦ rw (e, f, keep-keep n k ms l)
    | inr f ↦ rw (e, f, keep-keep n k ms l)
  ]
  | inr e ↦ let f : past k m ≡ false = ground arith in rw (e, f) (keep-keep n k ms l)
]

-- the last message of a page is past the cursor
pub last_past :
    (n k : ℕ) (ms : List Message) (r : Message)
    → ascend n ms ≡ true
    → last? (take k ms) ≡ some r
    → n < r.seq
unfolding ascend
last_past n zero ms r h e = cc
last_past n (suc k) [] r h e = cc
last_past n (suc zero) (m ∷ ms) r h e = ground arith
last_past n (suc (suc k)) (m ∷ []) r h e = ground arith
last_past n (suc (suc k)) (m ∷ x ∷ ms) r h e =
    let later = last_past m.seq (suc k) (x ∷ ms) r (ground arith) e in ground arith

-- what is past the last message of a page is what the page leaves out
pub keep-last :
    (n k : ℕ) (ms : List Message) (r : Message)
    → ascend n ms ≡ true
    → last? (take k ms) ≡ some r
    → keep (past r.seq) ms ≡ drop k ms
unfolding ascend keep
keep-last n zero ms r h e = cc
keep-last n (suc k) [] r h e = cc
keep-last n (suc zero) (m ∷ ms) r h e =
    let q : r ≡ m = cc in
    let s : r.seq ≡ m.seq = ap (λ x. x.seq) q in
    let later : ascend m.seq ms ≡ true = ground arith in
    let out : past r.seq m ≡ false = ground arith in rw (out, keep-ascend r.seq ms (cc (s, later)))
keep-last n (suc (suc k)) (m ∷ []) r h e =
    let q : r ≡ m = cc in
    let s : r.seq ≡ m.seq = ap (λ x. x.seq) q in
    let out : past r.seq m ≡ false = ground arith in rw out
keep-last n (suc (suc k)) (m ∷ x ∷ ms) r h e =
    let later : ascend m.seq (x ∷ ms) ≡ true = ground arith in
    let l = last_past m.seq (suc k) (x ∷ ms) r later e in
    let out : past r.seq m ≡ false = ground arith in
    rw out (keep-last m.seq (suc k) (x ∷ ms) r later e)

-- the constraints `msg_seq`, `msg_assistant_attribution` and `uq_msg_seq` hold of the table
unfoldable pub stored : List Message → Bool
unfolding message_ok
stored [] = true
stored (m ∷ ms) = message_ok ms m && stored ms

insert_by_seq-ascend :
    (n : ℕ) (m : Message) (ms : List Message)
    → ascend n ms ≡ true
    → past n m ≡ true
    → any (λ x. x.seq == m.seq) ms ≡ false
    → ascend n (insert_by_seq m ms) ≡ true
unfolding ascend insert_by_seq
insert_by_seq-ascend n m [] a l f = ground arith
insert_by_seq-ascend n m (x ∷ ms) a l f = elim (Bool-cases (ltb x.seq m.seq)) [
  | inl e ↦
      let ih = insert_by_seq-ascend x.seq m ms (ground arith) e (ground arith) in
      rw e (ground arith)
  | inr e ↦ rw e (ground arith)
]

or_swap : (a b c : Bool) → (a || (b || c)) ≡ (b || (a || c))
or_swap true true c = refl
or_swap true false c = refl
or_swap false b c = refl

any-insert_by_seq :
    (s : ℕ) (m : Message) (ms : List Message)
    → any (λ x. x.seq == s) (insert_by_seq m ms) ≡ any (λ x. x.seq == s) (m ∷ ms)
unfolding insert_by_seq
any-insert_by_seq s m [] = refl
any-insert_by_seq s m (x ∷ ms) = elim (Bool-cases (ltb x.seq m.seq)) [
  | inl e ↦ rw (e, any-insert_by_seq s m ms) (or_swap (x.seq == s) (m.seq == s) _)
  | inr e ↦ rw e
]

any-by_seq :
    (s : ℕ) (ms : List Message) → any (λ x. x.seq == s) (by_seq ms) ≡ any (λ x. x.seq == s) ms
unfolding by_seq
any-by_seq s [] = refl
any-by_seq s (m ∷ ms) = any-insert_by_seq s m (by_seq ms) ∙ rw (any-by_seq s ms)

any-in_conversation :
    (c s : ℕ) (ms : List Message)
    → any (has_seq c s) ms ≡ any (λ x. x.seq == s) (keep (in_conversation c) ms)
unfolding keep
any-in_conversation c s [] = refl
any-in_conversation c s (m ∷ ms) = elim (Bool-cases (in_conversation c m)) [
  | inl e ↦ rw (e, any-in_conversation c s ms)
  | inr e ↦ rw (e, any-in_conversation c s ms)
]

-- the numbers of a stored conversation ascend, from above 0
pub transcript-ascend :
    (c : ℕ) (ms : List Message) → stored ms ≡ true → ascend 0 (transcript c ms) ≡ true
unfolding stored message_ok transcript keep by_seq ascend
transcript-ascend c [] h = refl
transcript-ascend c (m ∷ ms) h = elim (Bool-cases (in_conversation c m)) [
  | inl e ↦
      let ih = transcript-ascend c ms (ground arith) in
      let same : m.conversation_id ≡ c = (==_iff m.conversation_id c).0 e in
      let free : any (has_seq m.conversation_id m.seq) ms ≡ false = ground arith in
      let free_c : any (has_seq c m.seq) ms ≡ false = rw same at free in
      rw e (
        insert_by_seq-ascend 0 m (transcript c ms) ih (ground arith) (
          any-by_seq m.seq (keep (in_conversation c) ms)
          ∙ sym (any-in_conversation c m.seq ms)
          ∙ free_c))
  | inr e ↦ rw e (transcript-ascend c ms (ground arith))
]
