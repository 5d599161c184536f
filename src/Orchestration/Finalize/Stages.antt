-- ===== src/Orchestration/Finalize/Stages.antt =====
-- The steps of `_finalize` after the claim, up to the call of the remote service and after it.
use mathlib.Core.List.{Memᴰ}
use saarathi.Common.{ℕ, Text, Bool, true, false, Option, none, some, List, [], ◌∷◌, ◌++◌, ◌≡◌, refl}
use saarathi.Exec.{Error, Outcome, returned, raises, ◌>>=◌, is_mitra_error}
use saarathi.Database.{AgentSession, finalizing}
use saarathi.Database.Tables.{update}
use saarathi.Agents.{RegisteredAgent, RemoteSpec, UserContext}
use saarathi.Sessions.{SessionDelta}
use saarathi.Sessions.Applied.{as_read, applied}
use saarathi.Sessions.Consistent.{Consistent}
use saarathi.Sessions.{insert_audit}
use saarathi.Agents.{remote_of}
use saarathi.Database.Conversations.{unpin}
use saarathi.Orchestration.{World, Event, submits, closes, emit, on_db, attribute_error}
use saarathi.Orchestration.Finalize.{
  Rest, failed_with, completed_with, finalize_entry, request_of, non_empty, close_channel,
  call_finalize, submit, after_call, report_or_none, fetch_report, complete, conclude,
}
use saarathi.Orchestration.Finalize.Ends.{Closes-failed, Closes-completed, apply-claimed}

-- what closing the channel comes to, without a pool too
abbrev pub closing : Option (ℕ → Outcome (Unit {0})) → ℕ → Outcome (Unit {0})
closing none c = returned tt
closing (some f) c = f c

abbrev pub closed_event : Option (ℕ → Outcome (Unit {0})) → ℕ → List Event → List Event
closed_event none c es = es
closed_event (some f) c es = closes c ∷ es

-- whether an answer for the report lets the finalisation go on, and the URL that it gives
abbrev pub goes_on : Outcome (Option Text) → Bool
goes_on (returned url) = true
goes_on (raises e) = is_mitra_error e

-- the error that it raises, if it raises one
abbrev pub error_of : Outcome (Option Text) → Error
error_of (returned url) = attribute_error
error_of (raises e) = e

abbrev pub url_of : Outcome (Option Text) → Option Text
url_of (returned url) = non_empty url
url_of (raises e) = none

module _ (error_text : Error → Text) (client : Rest) (close : Option (ℕ → Outcome (Unit {0})))
    (session : AgentSession) (agent : RegisteredAgent) (remote : RemoteSpec) (user : UserContext)
    (claimed : AgentSession) (is_remote : remote_of agent.spec.agent_type ≡ some remote) where
  abbrev pub after_submit : World → World
  after_submit w = record w {
    in_transaction = true;
    db = record w.db { audit = w.db.audit ++ (finalize_entry session claimed ∷ []) };
    events = submits claimed.id ∷ closed_event close claimed.conversation_id w.events;
  }

  pub submit-won :
      (w : World)
      → closing close claimed.conversation_id ≡ returned tt
      → submit error_text (some client) close session (some agent) user claimed w
        ≡ (returned (client.submit_story (request_of remote claimed user)), after_submit w)
  unfolding submit close_channel call_finalize emit on_db insert_audit ◌>>=◌
  submit-won w h = go close h
    where
      go :
          (cl : Option (ℕ → Outcome (Unit {0})))
          → closing cl claimed.conversation_id ≡ returned tt
          → submit error_text (some client) cl session (some agent) user claimed w ≡ (
            returned (client.submit_story (request_of remote claimed user)),
            record w {
              in_transaction = true;
              db = record w.db { audit = w.db.audit ++ (finalize_entry session claimed ∷ []) };
              events = submits claimed.id ∷ closed_event cl claimed.conversation_id w.events;
            },
          )
      go none h = rw is_remote
      go (some f) h = rw (h, is_remote)

  module _ (w : World) (c : Consistent w.db) (here : Memᴰ claimed w.db.sessions)
      (state : claimed.state ≡ finalizing) where
    abbrev pub ended_with : SessionDelta → World
    ended_with delta = record w {
      in_transaction = true;
      db = record w.db {
        sessions = update (as_read claimed) (applied delta w.db.now) w.db.sessions;
      };
    }

    pub conclude-failed :
        (e : Error)
        → conclude error_text (some client) close (some agent) claimed (raises e) w
          ≡ (raises e, ended_with (failed_with (error_text e)))
    unfolding conclude after_call on_db ◌>>=◌
    conclude-failed e = rw (
        apply-claimed claimed w.db c here state (failed_with (error_text e)) refl
          (Closes-failed claimed w.db c here state (error_text e)))

    pub fetched :
        (o : Outcome (Option Text))
        → goes_on o ≡ true
        → report_or_none error_text (some client) close o w ≡ (returned (url_of o), w)
    fetched (returned url) g = refl
    fetched (raises e) g = rw g

    pub broken :
        (o : Outcome (Option Text))
        → goes_on o ≡ false
        → report_or_none error_text (some client) close o w ≡ (raises (error_of o), w)
    broken (returned url) g = cc
    broken (raises e) g = rw g

    pub conclude-broken :
        (story_id : Text)
        → let o = client.report_url_of claimed.remote_session_id remote.report_media_type in
          goes_on o ≡ false
          → conclude error_text (some client) close (some agent) claimed (returned story_id) w
            ≡ (raises (error_of o), w)
    unfolding conclude after_call fetch_report ◌>>=◌
    conclude-broken story_id g = rw (
      is_remote,
      broken (client.report_url_of claimed.remote_session_id remote.report_media_type) g,
    )

    pub conclude-completed :
        (story_id : Text)
        → let o = client.report_url_of claimed.remote_session_id remote.report_media_type in
          goes_on o ≡ true
          → conclude error_text (some client) close (some agent) claimed (returned story_id) w ≡ (
            returned (applied (completed_with story_id (url_of o)) w.db.now claimed),
            record w {
              in_transaction = true;
              db =
                  (unpin claimed.conversation_id
                    (ended_with (completed_with story_id (url_of o))).db).1;
            },
          )
    unfolding conclude after_call fetch_report complete on_db ◌>>=◌
    conclude-completed story_id g =
        let o = client.report_url_of claimed.remote_session_id remote.report_media_type in
        rw (
          is_remote,
          fetched o g,
          apply-claimed claimed w.db c here state (completed_with story_id (url_of o)) refl
              (Closes-completed claimed w.db c here state story_id (url_of o)),
        )
