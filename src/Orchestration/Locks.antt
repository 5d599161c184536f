-- ===== src/Orchestration/Locks.antt =====
-- The turn lock: taken for the whole turn, the call of the handler included, and given back.
use saarathi.Common.{
  ℕ, Bool, true, false, not, ◌&&◌, List, ◌∷◌, ◌≡◌, refl, ap, ◌∙◌, inl, inr, Bool-cases, ==_refl,
  if◌then◌else◌,
}
use saarathi.Exec.{Error, Outcome, returned, raises, continue, ◌>>=◌, concurrent_turn}
use saarathi.Database.{Db, Conversation}
use saarathi.Database.Conversations.{get_or_create}
use saarathi.Orchestration.{World, on_db}
use saarathi.Orchestration.Stable.{WorldStable}
use saarathi.Orchestration.Steps.{Maintains-turn}
use saarathi.Orchestration.Turn.{
  Deployment, TurnInput, TurnResult, owner_of, held_elsewhere, try_lock_conversation, release,
  unlock_conversation, is_aborted, handle_turn_locked, claimed_turn, handle_turn,
}

locks-WorldStable : (locks : List (ℕ × ℕ)) → WorldStable (λ w. w.locks ≡ locks)
locks-WorldStable locks = record {
  db = λ w. record {
    sessions = λ db x h. h;
    conversations = λ db x h. h;
    audit = λ db x h. h;
    message = λ db x h. h;
    fresh = λ db x h. h;
  };
  events = λ w x h. h;
  scopes = λ w x h. h;
  calls = λ w x h. h;
  tools = λ w x h. h;
  committed = λ w h. h;
  opened = λ w h. h;
}

module _ (d : Deployment) (input : TurnInput) (w : World) where
  abbrev pub held : ℕ → Bool
  held conv_id = d.is_postgres && held_elsewhere d (d.hashtext conv_id) w.locks

  -- the locks while the turn runs
  abbrev pub taken : ℕ → List (ℕ × ℕ)
  taken conv_id = if d.is_postgres then (d.connection, d.hashtext conv_id) ∷ w.locks else w.locks

  -- What a request to take a turn comes to.
  pub data Turned : Outcome TurnResult × World → Type 0 where
    no_conversation :
        (e : Error) (db : Db)
        → get_or_create input.conversation_id (owner_of input.caller) w.db ≡ (raises e, db)
        → Turned (raises e, record w { db = db; in_transaction = true })
    busy :
        (conv : Conversation) (db : Db)
        → get_or_create input.conversation_id (owner_of input.caller) w.db ≡ (returned conv, db)
        → held conv.id ≡ true
        → Turned (raises (concurrent_turn conv.id), record w { db = db; in_transaction = true })
    ran :
        (conv : Conversation) (db : Db) (o : Outcome TurnResult) (w' : World)
        → get_or_create input.conversation_id (owner_of input.caller) w.db ≡ (returned conv, db)
        → held conv.id ≡ false
        → handle_turn_locked d input conv
            (record w { db = db; in_transaction = true; locks = taken conv.id })
          ≡ (o, w')
        → w'.locks ≡ taken conv.id
        → is_aborted o ≡ false
        → Turned (o, record w' { locks = w.locks })
    leaked :
        (conv : Conversation) (db : Db) (o : Outcome TurnResult) (w' : World)
        → get_or_create input.conversation_id (owner_of input.caller) w.db ≡ (returned conv, db)
        → held conv.id ≡ false
        → handle_turn_locked d input conv
            (record w { db = db; in_transaction = true; locks = taken conv.id })
          ≡ (o, w')
        → w'.locks ≡ taken conv.id
        → is_aborted o ≡ true
        → Turned (o, w')

  unlock_lem :
      (conv_id : ℕ) (w' : World)
      → w'.locks ≡ taken conv_id
      → unlock_conversation d conv_id w' ≡ record w' { locks = w.locks }
  unfolding unlock_conversation release
  unlock_lem conv_id w' h = go d.is_postgres h
    where
      key : ℕ
      key = d.hashtext conv_id

      go :
          (b : Bool)
          → w'.locks ≡ (if b then (d.connection, key) ∷ w.locks else w.locks)
          → (if not b then w' else record w' { locks = release d key w'.locks })
            ≡ record w' { locks = w.locks }
      go false h = ap (λ l. record w' { locks = l }) h
      go true h =
          ap (λ l. record w' { locks = l })
            (ap (release d key) h ∙ rw (==_refl key, ==_refl d.connection))

  claimed_turn-Turned :
      (conv : Conversation) (db : Db)
      → get_or_create input.conversation_id (owner_of input.caller) w.db ≡ (returned conv, db)
      → Turned (
          (try_lock_conversation d conv.id >>= claimed_turn d input conv)
            (record w { db = db; in_transaction = true }))
  unfolding try_lock_conversation claimed_turn ◌>>=◌
  claimed_turn-Turned conv db e = go d.is_postgres (held_elsewhere d key w.locks) refl refl
    where
      key : ℕ
      key = d.hashtext conv.id

      before : World
      before = record w { db = db; in_transaction = true }

      body : World → Outcome TurnResult × World
      body = handle_turn_locked d input conv

      claimed :
          (locks : List (ℕ × ℕ))
          → locks ≡ taken conv.id
          → held conv.id ≡ false
          → Turned (claimed_turn d input conv true (record before { locks = locks }))
      claimed locks l h =
          let (o, w') = body (record before { locks = locks }) in
          let same : w'.locks ≡ taken conv.id =
            (Maintains-turn (locks-WorldStable (taken conv.id)) d (λ w h. h) input conv).after _
              l in
          elim (Bool-cases (is_aborted o)) [
            | inl a ↦ rw a (leaked conv db o w' e h (rw (← l)) same a)
            | inr n ↦ rw (n, unlock_lem conv.id w' same) (ran conv db o w' e h (rw (← l)) same n)
          ]

      go :
          (p x : Bool)
          → d.is_postgres ≡ p
          → held_elsewhere d key w.locks ≡ x
          → let (o, next) : Outcome Bool × World =
              if not p
              then (returned true, before)
              else if x
              then (returned false, before)
              else (returned true, record before { locks = (d.connection, key) ∷ w.locks }) in
            Turned (continue o (claimed_turn d input conv) next)
      go false x e1 e2 = claimed w.locks (rw e1) (rw e1)
      go true true e1 e2 = busy conv db e (rw (e1, e2))
      go true false e1 e2 = claimed _ (rw e1) (rw (e1, e2))

  -- A turn whose conversation is being answered by a request on another connection is refused, and
  -- has then changed nothing but to create the conversation. Otherwise the turn runs with the lock
  -- of the conversation; when it ends, with a reply or with an error, the locks are as before,
  -- unless an error of the database has ended it: then the lock is still held.
  pub handle_turn-Turned : Turned (handle_turn d input w)
  unfolding handle_turn on_db ◌>>=◌
  handle_turn-Turned = go (get_or_create input.conversation_id (owner_of input.caller) w.db) refl
    where
      go :
          (r : Outcome Conversation × Db)
          → get_or_create input.conversation_id (owner_of input.caller) w.db ≡ r
          → Turned (
              continue r.0
                (λ conv. try_lock_conversation d conv.id >>= claimed_turn d input conv)
                (record w { db = r.1; in_transaction = true }))
      go (raises e, db) h = no_conversation e db h
      go (returned conv, db) h = claimed_turn-Turned conv db h
