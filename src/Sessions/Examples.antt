-- ===== src/Sessions/Examples.antt =====
-- Tests of the session service, and its theorems at concrete databases.
use mathlib.Core.List.{Memᴰ}
use saarathi.Common.{
  ltb, codes, true, none, some, [], ◌∷◌, map, ◌≡◌, refl, find, mem_text, text_eq, keep,
}
use saarathi.Python.{pos}
use saarathi.Exec.{returned, raises, invalid_transition, concurrent_modification}
use saarathi.Database.{
  SessionState, in_progress, awaiting_user, finalizing, completed, failed, AgentSession, Db,
}
use saarathi.Database.Tables.{update, updated}
use saarathi.Database.Sessions.{
  claim_finalizing, is_open_in, as_abandoned, is_idle, table_ok, row_ok, clash,
}
use saarathi.Agents.{llm}
use saarathi.Sessions.Sample.{session, conversation, agent_of}
use saarathi.Agents.{llm}
use saarathi.Sessions.{SessionDelta, apply, abandon, sweep_abandoned, open_for, allowed}
use saarathi.Sessions.Evolution.{Moves}
use saarathi.Sessions.Consistent.{Consistent, distinct_ids, ids_below}
use saarathi.Sessions.Commands.{claims, applies, opens, run_all}
use saarathi.Sessions.Claims.{run_all-Moves, claim_finalizing-once}
use saarathi.Sessions.Applied.{as_read}
use saarathi.Sessions.Written.{int_max, Settled, apply-Settled}
use saarathi.Sessions.Abandoned.{
  abandon_lem, abandon_result, sweep_abandoned_lem, swept_rows, idle_reason, belongs_to_any,
  unpinned, sweep_entry,
}
use saarathi.Database.Constraints.{languages}
use saarathi.Sessions.Opened
use saarathi.Sessions.Opened.{open_for-Fate, on_db, on_displace}

abbrev database : SessionState → Db
database state = record {
  sessions = session 0 1 state ∷ [];
  conversations = conversation ∷ [];
  messages = [];
  audit = [];
  fresh = 9;
  now = 20;
}

abbrev delta : SessionState → SessionDelta
delta state = record {
  state = state;
  remote_session_id = none;
  remote_profile_id = none;
  remote_flow = none;
  remote_bot_route = none;
  step = some (pos 3);
  result_ref = none;
  report_url = none;
  error = none;
  state_data = none;
}

waiting-Consistent : Consistent (database awaiting_user)
unfolding table_ok row_ok clash distinct_ids ids_below mem_text text_eq
waiting-Consistent = record { constraints = refl; distinct = refl; below = refl }

finalizing-Consistent : Consistent (database finalizing)
unfolding table_ok row_ok clash distinct_ids ids_below mem_text text_eq
finalizing-Consistent = record { constraints = refl; distinct = refl; below = refl }

-- a turn that stays in the same state counts one more turn
test_turn :
    (apply (session 0 1 awaiting_user) (delta awaiting_user) (database awaiting_user)).0
    ≡ returned
        (record (session 0 1 awaiting_user) { step = pos 3; turn_count = 3; last_activity_at = 20 })
unfolding apply update mem_text text_eq updated
test_turn = refl

test_illegal :
    apply (session 0 1 awaiting_user) (delta completed) (database awaiting_user)
    ≡ (raises (invalid_transition 0), database awaiting_user)
unfolding apply
test_illegal = refl

test_stale :
    apply (session 0 1 in_progress) (delta failed) (database awaiting_user)
    ≡ (raises (concurrent_modification 0), database awaiting_user)
unfolding apply update mem_text text_eq updated
test_stale = refl

-- another agent's turn retires the session and starts its own
test_switch :
    (open_for on_db 7 (agent_of llm 2 true) on_displace (database awaiting_user, [])).1.1 ≡ 7 ∷ []
unfolding open_for keep mem_text text_eq updated
test_switch = refl

run_all-Moves_example :
    (b : AgentSession) × Moves (session 0 1 awaiting_user) b
    × Memᴰ b
        (run_all (claims 0 ∷ opens 7 (agent_of llm 2 true) ∷ []) (database awaiting_user)).sessions
run_all-Moves_example =
    run_all-Moves (claims 0 ∷ opens 7 (agent_of llm 2 true) ∷ []) (database awaiting_user)
      (session 0 1 awaiting_user) waiting-Consistent (Memᴰ.head refl)

abbrev claimed : AgentSession
claimed = record (session 0 1 awaiting_user) { state = finalizing }

test_claim : (claim_finalizing 0 (database awaiting_user)).0 ≡ returned (some claimed)
unfolding claim_finalizing update mem_text text_eq updated
test_claim = refl

claim_finalizing-once_example :
    (claim_finalizing 0 (
      run_all
        (applies claimed (delta failed) ∷ [])
        (claim_finalizing 0 (database awaiting_user)).1)).0
    ≡ returned none
claim_finalizing-once_example =
    claim_finalizing-once 0 (database awaiting_user) claimed (applies claimed (delta failed) ∷ [])
      waiting-Consistent test_claim

abbrev waiting_session : AgentSession
waiting_session = session 0 1 awaiting_user

apply-Settled_example :
    Settled waiting_session
      (delta in_progress)
      (database awaiting_user)
      (apply waiting_session (delta in_progress) (database awaiting_user))
apply-Settled_example =
    apply-Settled waiting_session (delta in_progress) (database awaiting_user) waiting-Consistent
      (λ a m. small a m) (λ z e. cc)
  where
    small :
        (a : AgentSession)
        → Memᴰ a (database awaiting_user).sessions
        → ltb a.turn_count int_max ≡ true
    small a (Memᴰ.head e) = rw e refl
    small a (Memᴰ.tail m) = elim m [ ]

test_allowed : allowed finalizing completed ≡ true
unfolding allowed
test_allowed = refl

test_found :
    find (as_read (session 0 1 finalizing)) (database finalizing).sessions
    ≡ some (session 0 1 finalizing)
unfolding find
test_found = refl

abandon_lem_example :
    abandon 7 (codes "exit") (codes "user") (database awaiting_user)
    ≡ abandon_result 7
        (codes "exit")
        (codes "user")
        (database awaiting_user)
        (find (is_open_in 7) (database awaiting_user).sessions)
abandon_lem_example =
    abandon_lem 7 (codes "exit") (codes "user") (database awaiting_user) waiting-Consistent

test_sweep :
    (sweep_abandoned (λ t. []) 15 (database awaiting_user)).1.sessions
    ≡ as_abandoned (codes "idle sweep: no activity before ") 20 (session 0 1 awaiting_user) ∷ []
unfolding sweep_abandoned update mem_text text_eq updated
test_sweep = refl

sweep_abandoned_lem_example : sweep_abandoned (λ t. []) 15 (database awaiting_user) ≡ (
  returned (swept_rows (λ t. []) 15 (database awaiting_user)),
  record (database awaiting_user) {
    sessions =
        update
          (is_idle 15)
          (as_abandoned (idle_reason (λ t. []) 15) 20)
          (session 0 1 awaiting_user ∷ []);
    conversations =
        update
          (belongs_to_any (swept_rows (λ t. []) 15 (database awaiting_user)))
          unpinned
          (conversation ∷ []);
    audit = map sweep_entry (swept_rows (λ t. []) 15 (database awaiting_user));
  },
)
sweep_abandoned_lem_example =
    sweep_abandoned_lem (λ t. []) 15 (database awaiting_user) waiting-Consistent

test_language : mem_text (codes "en") languages ≡ true
unfolding mem_text text_eq
test_language = refl

open_for-Fate_example :
    Opened.Fate 7
      (agent_of llm 2 true)
      (database awaiting_user)
      []
      (open_for on_db 7 (agent_of llm 2 true) on_displace (database awaiting_user, []))
open_for-Fate_example =
    open_for-Fate 7 (agent_of llm 2 true) (database awaiting_user) [] waiting-Consistent
      test_language
