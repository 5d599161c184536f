-- ===== src/Orchestration/Finalize/Repeated.antt =====
-- A request whose finalisation ends with an exception that no route maps is rolled back
-- (backend/app/dependencies/db.py), although the remote service has taken the story.
use saarathi.Common.{
  ℕ, ◌+◌, Text, false, Option, none, some, List, ◌∷◌, ◌≡◌, refl, ◌∙◌, arith, ==_refl, ap,
}
use saarathi.Exec.{Error, Outcome, returned, raises}
use saarathi.Database.{AgentSession}
use saarathi.Agents.{RegisteredAgent, RemoteSpec, UserContext}
use saarathi.Orchestration.{World, Event, submits}
use saarathi.Orchestration.Finalize.{Rest, request_of, finalize}
use saarathi.Orchestration.Finalize.Steps.{submissions}
use saarathi.Orchestration.Finalize.Stages.{goes_on, error_of, closed_event, conclude-broken}
use saarathi.Orchestration.Finalize.Outcomes.{
  Reaches, submitted_world, finalize-conclude, here_of, state_of, sound,
}

-- `db.rollback()`
abbrev pub roll_back : World → World
roll_back w = record w { db = w.committed; in_transaction = false }

submissions-closed_event :
    (i c : ℕ) (close : Option (ℕ → Outcome (Unit {0}))) (es : List Event)
    → submissions i (closed_event close c es) ≡ submissions i es
unfolding submissions
submissions-closed_event i c none es = refl
submissions-closed_event i c (some f) es = refl

module _ (error_text : Error → Text) (client : Rest) (close : Option (ℕ → Outcome (Unit {0})))
    (session : AgentSession) (agent : RegisteredAgent) (remote : RemoteSpec) (user : UserContext)
    (claimed : AgentSession) (story_id : Text)
    (taken : client.submit_story (request_of remote claimed user) ≡ returned story_id)
    (unmapped : goes_on (client.report_url_of claimed.remote_session_id remote.report_media_type)
      ≡ false) where
  module _ (w : World) (k : Reaches client close session agent remote claimed w) where
    broken-finalize : finalize error_text (some client) close session (some agent) user w ≡ (
      raises (error_of (client.report_url_of claimed.remote_session_id remote.report_media_type)),
      submitted_world error_text client close session agent remote user claimed w k,
    )
    broken-finalize =
        rw (finalize-conclude error_text client close session agent remote user claimed w k, taken)
          (conclude-broken error_text client close session agent remote user claimed k.is_remote
            (submitted_world error_text client close session agent remote user claimed w k)
            (sound error_text client close session agent remote user claimed w k).consistent
            (here_of error_text client close session agent remote user claimed w k)
            (state_of error_text client close session agent remote user claimed w k) story_id
            unmapped)

    one_more :
        submissions claimed.id
          (finalize error_text (some client) close session (some agent) user w).1.events
        ≡ 1 + submissions claimed.id w.events
    unfolding submissions
    one_more =
        rw
          (
            broken-finalize,
            ==_refl claimed.id,
            submissions-closed_event claimed.id claimed.conversation_id close w.events,
          )
          refl

  abbrev rolled_back : (w : World) → Reaches client close session agent remote claimed w → World
  rolled_back w k =
      roll_back (submitted_world error_text client close session agent remote user claimed w k)

  Reaches-again :
      (w : World) (k : Reaches client close session agent remote claimed w)
      → w.committed ≡ w.db
      → Reaches client close session agent remote claimed (rolled_back w k)
  Reaches-again w k e = record {
    consistent = rw e k.consistent;
    won = rw e k.won;
    is_remote = k.is_remote;
    closed_ok = k.closed_ok;
  }

  counted :
      (w : World)
      → 1
          + submissions claimed.id
              (submits claimed.id ∷ closed_event close claimed.conversation_id w.events)
        ≡ 2 + submissions claimed.id w.events
  unfolding submissions
  counted w =
      rw
        (
          ==_refl claimed.id,
          submissions-closed_event claimed.id claimed.conversation_id close w.events,
        )
        (omega arith)

  -- If the remote service takes the story and asking for the report raises an error that is not one
  -- of the integration's, then the error is raised; and when the transaction has been rolled back,
  -- which undoes the claim, the next finalisation asks for the story of the same session again.
  pub finalize-repeats :
      (w : World)
      → Reaches client close session agent remote claimed w
      → w.committed ≡ w.db
      → let first = finalize error_text (some client) close session (some agent) user w in
        let again =
          finalize error_text (some client) close session (some agent) user (roll_back first.1) in
        (first.0
          ≡ raises
              (error_of (client.report_url_of claimed.remote_session_id remote.report_media_type)))
        × (submissions claimed.id again.1.events ≡ 2 + submissions claimed.id w.events)
  finalize-repeats w k e = (
    ap (λ r. r.0) (broken-finalize w k),
    rw (broken-finalize w k) (one_more (rolled_back w k) (Reaches-again w k e) ∙ counted w),
  )
