-- ===== src/Sessions/Written.antt =====
-- What `SessionService.apply` comes to, with the row that it writes field by field.
use saarathi.Common.{ℕ, ◌+◌, Bool, true, false, Option, none, some, ◌≡◌, ◌≢◌, refl, ltb, find}
use mathlib.Core.List.{Memᴰ}
use saarathi.Python.{ℤ, pos, negsuc}
use saarathi.Exec.{
  Outcome, returned, raises, integrity_error, invalid_transition, concurrent_modification,
}
use saarathi.Database.{
  SessionState, pending, authenticating, in_progress, awaiting_user, finalizing, completed, failed,
  abandoned, is_terminal, AgentSession, Db,
}
use saarathi.Database.Tables.{update}
use saarathi.Database.Sessions.{table_ok}
use saarathi.Sessions.{allowed, apply, SessionDelta, finalized}
use saarathi.Sessions.Applied.{as_read, applied, Fate, refused, stale, violated, done, apply-Fate}
use saarathi.Sessions.Consistent.{Consistent}

-- the numbers of an INTEGER column
abbrev pub int_max : ℕ
int_max = 2147483647

abbrev pub fits : ℤ → Bool
fits (pos n) = ltb n (int_max + 1)
fits (negsuc n) = ltb n (int_max + 1)

-- a nullable column, by what the delta gives for it
abbrev pub Given {ℓ} : {A : Type ℓ} → Option A → Option A → Option A → Type ℓ
Given {A = A} value old new = (value ≡ none → new ≡ old) × ((v : A) → value ≡ some v → new ≡ some v)

-- a column that is never null
abbrev pub SetTo {ℓ} : {A : Type ℓ} → Option A → A → A → Type ℓ
SetTo {A = A} value old new = (value ≡ none → new ≡ old) × ((v : A) → value ≡ some v → new ≡ v)

-- The row that is written over `old`.
pub record Written (delta : SessionDelta) (now : ℕ) (old new : AgentSession) : Type 0 where
  pub same_id : new.id ≡ old.id
  pub same_conversation : new.conversation_id ≡ old.conversation_id
  pub same_agent : new.agent_id ≡ old.agent_id
  pub same_provider : new.remote_provider ≡ old.remote_provider
  pub same_language : new.language ≡ old.language
  pub same_start : new.started_at ≡ old.started_at
  pub same_error_code : new.error_code ≡ old.error_code
  pub in_state : new.state ≡ delta.state
  pub one_more_turn : new.turn_count ≡ old.turn_count + 1
  pub active_now : new.last_activity_at ≡ now
  pub session_name : Given delta.remote_session_id old.remote_session_id new.remote_session_id
  pub profile_name : Given delta.remote_profile_id old.remote_profile_id new.remote_profile_id
  pub flow : Given delta.remote_flow old.remote_flow new.remote_flow
  pub bot_route : Given delta.remote_bot_route old.remote_bot_route new.remote_bot_route
  pub result : Given delta.result_ref old.result_ref new.result_ref
  pub report : Given delta.report_url old.report_url new.report_url
  pub error_text : Given delta.error old.error new.error
  pub step_set : SetTo delta.step old.step new.step
  pub data_set : SetTo delta.state_data old.state_data new.state_data
  pub ends : is_terminal delta.state ≡ true → new.ended_at ≡ some now
  pub goes_on : is_terminal delta.state ≡ false → new.ended_at ≡ old.ended_at
  pub is_final : delta.state ≡ completed → new.finalized_at ≡ some now
  pub not_final : delta.state ≢ completed → new.finalized_at ≡ old.finalized_at

applied-Written :
    (delta : SessionDelta) (now : ℕ) (old : AgentSession)
    → Written delta now old (applied delta now old)
applied-Written delta now old = record {
  same_id = refl;
  same_conversation = refl;
  same_agent = refl;
  same_provider = refl;
  same_language = refl;
  same_start = refl;
  same_error_code = refl;
  in_state = refl;
  one_more_turn = refl;
  active_now = refl;
  session_name = (λ e. rw e, λ v e. rw e);
  profile_name = (λ e. rw e, λ v e. rw e);
  flow = (λ e. rw e, λ v e. rw e);
  bot_route = (λ e. rw e, λ v e. rw e);
  result = (λ e. rw e, λ v e. rw e);
  report = (λ e. rw e, λ v e. rw e);
  error_text = (λ e. rw e, λ v e. rw e);
  step_set = (λ e. rw e, λ v e. rw e);
  data_set = (λ e. rw e, λ v e. rw e);
  ends = λ e. rw e;
  goes_on = λ e. rw e;
  is_final = λ e. rw e;
  not_final = unfinished delta.state;
}
  where
    unfinished :
        (s : SessionState) → s ≢ completed → finalized s now old.finalized_at ≡ old.finalized_at
    unfinished completed n = elim (n refl) [ ]
    unfinished pending n = refl
    unfinished authenticating n = refl
    unfinished in_progress n = refl
    unfinished awaiting_user n = refl
    unfinished finalizing n = refl
    unfinished failed n = refl
    unfinished abandoned n = refl

module _ (session : AgentSession) (delta : SessionDelta) (db : Db) where
  -- What comes of a call. `write` is what the statement does to the row that it selects.
  pub data Settled : Outcome AgentSession × Db → Type 0 where
    no_transition :
        allowed session.state delta.state ≡ false
        → Settled (raises (invalid_transition session.id), db)
    modified :
        allowed session.state delta.state ≡ true
        → find (as_read session) db.sessions ≡ none
        → Settled (raises (concurrent_modification session.id), db)
    constraint :
        (write : AgentSession → AgentSession)
        → allowed session.state delta.state ≡ true
        → ((a : AgentSession) → Written delta db.now a (write a))
        → table_ok (update (as_read session) write db.sessions) ≡ false
        → Settled (raises integrity_error, db)
    written :
        (write : AgentSession → AgentSession) (row : AgentSession)
        → allowed session.state delta.state ≡ true
        → find (as_read session) db.sessions ≡ some row
        → ((a : AgentSession) → Written delta db.now a (write a))
        → table_ok (update (as_read session) write db.sessions) ≡ true
        → Settled (
          returned (write row),
          record db { sessions = update (as_read session) write db.sessions },
        )

  Fate-Settled :
      (c : Consistent db) (o : Outcome AgentSession × Db) → Fate session delta db c o → Settled o
  Fate-Settled c _ (refused h) = no_transition h
  Fate-Settled c _ (stale a n) = modified a n
  Fate-Settled c _ (violated a t) =
      constraint (applied delta db.now) a (applied-Written delta db.now) t
  Fate-Settled c _ (done row a k t) =
      written (applied delta db.now) row a k (applied-Written delta db.now) t

  -- A call of `apply` with a session that was read before has one of four outcomes, on a consistent
  -- database whose numbers, with the delta's step, fit their INTEGER columns. It is refused, when
  -- the table has no transition from the state that was read to the delta's; it finds the session
  -- modified, when no row has that key and that state any more; a constraint of the table refuses
  -- the row; or the row is written and returned, and the other rows stay. The row has the new state,
  -- one turn more and the time of the call; each field that the delta gives is the delta's, and
  -- each other is as before; it has the time of its end if the state is terminal, and that of its
  -- finalisation if it is completed. In the first three the database is as before.
  pub apply-Settled :
      Consistent db
      → ((a : AgentSession) → Memᴰ a db.sessions → ltb a.turn_count int_max ≡ true)
      → ((z : ℤ) → delta.step ≡ some z → fits z ≡ true)
      → Settled (apply session delta db)
  apply-Settled c turns steps = Fate-Settled c _ (apply-Fate session delta db c)
