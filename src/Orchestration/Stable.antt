-- ===== src/Orchestration/Stable.antt =====
-- The steps of a turn keep every invariant that no single write can break.
use saarathi.Common.{false, true, ℕ, Text, Option, none, some, List}
use saarathi.Exec.{Exec, Error, Outcome, returned, raises, ◌>>=◌, is_mitra_error}
use saarathi.Exec.Maintains.{
  Maintains, Maintains-pure, Maintains-raise, Maintains-choice, Maintains-then,
}
use saarathi.Database.{Db, AgentSession}
use saarathi.Database.Tools.{ToolExecution}
use saarathi.Database.Stable.{DbStable, Maintains-claim, Maintains-get, Maintains-unpin}
use saarathi.Registry.Scopes.{ScopeEntry}
use saarathi.Agents.{RegisteredAgent, RemoteSpec, UserContext}
use saarathi.Sessions.Stable.{Maintains-apply, Maintains-audit}
use saarathi.Orchestration.{World, Event, on_db, commit, emit, attribute_error}
use saarathi.Orchestration.Finalize.{
  Rest, finalize_entry, of_agent, failed_with, completed_with, non_empty, close_channel,
  close_remote_channel, call_finalize, after_call, report_or_none, fetch_report, complete, submit,
  conclude, finalize_claimed, finalize,
}

pub record WorldStable (Inv : World → Type 0) : Type 0 where
  pub db : (w : World) → DbStable (λ (d : Db). Inv (record w { db = d; in_transaction = true }))
  pub opened : (w : World) → Inv w → Inv (record w { in_transaction = true })
  pub events : (w : World) (x : List Event) → Inv w → Inv (record w { events = x })
  pub scopes : (w : World) (x : List ScopeEntry) → Inv w → Inv (record w { scopes = x })
  pub calls :
      (w : World) (x : List (List RegisteredAgent)) → Inv w → Inv (record w { model_calls = x })
  pub tools : (w : World) (x : List ToolExecution) → Inv w → Inv (record w { tools = x })
  pub committed : (w : World) → Inv w → Inv (record w { committed = w.db; in_transaction = false })

module _ {Inv : World → Type 0} (stable : WorldStable Inv) where
  pub lifts :
      (A : Type 0) (m : Exec Db A)
      → ((P : Db → Type 0) → DbStable P → Maintains P m)
      → Maintains Inv (on_db A m)
  unfolding on_db
  lifts A m k = record { after = λ w h. (k _ (stable.db w)).after w.db (stable.opened w h) }

  pub Maintains-commit : Maintains Inv commit
  unfolding commit
  Maintains-commit = record { after = λ w h. stable.committed w h }

  module _ (et : Error → Text) (rest : Option Rest) (close : Option (ℕ → Outcome (Unit {0}))) where
    Maintains-close : (c : ℕ) → Maintains Inv (close_channel et rest close c)
    unfolding close_channel emit ◌>>=◌
    Maintains-close c = go close
      where
        go : (cl : Option (ℕ → Outcome (Unit {0}))) → Maintains Inv (close_channel et rest cl c)
        go none = Maintains-pure tt
        go (some f) = record { after = λ w h. stable.events w _ h }

    pub Maintains-close_remote : (c : ℕ) → Maintains Inv (close_remote_channel et rest close c)
    unfolding close_remote_channel
    Maintains-close_remote c = record { after = λ w h. (Maintains-close c).after w h }

    Maintains-call :
        (client : Option Rest) (remote : Option RemoteSpec) (claimed : AgentSession)
        (caller : UserContext)
        → Maintains Inv (call_finalize et rest close client remote claimed caller)
    unfolding call_finalize emit ◌>>=◌
    Maintains-call (some client) (some remote) claimed caller = record {
      after = λ w h. stable.events w _ h;
    }
    Maintains-call none remote claimed caller = Maintains-pure _
    Maintains-call (some client) none claimed caller = Maintains-pure _

    Maintains-after_call :
        (claimed : AgentSession) (answer : Outcome Text)
        → Maintains Inv (after_call et rest close claimed answer)
    unfolding after_call
    Maintains-after_call claimed (returned story_id) = Maintains-pure story_id
    Maintains-after_call claimed (raises e) =
        Maintains-then _ _ (lifts _ _ (λ P k. Maintains-apply k claimed (failed_with (et e))))
          (λ _. Maintains-raise e)

    Maintains-fetch :
        (client : Option Rest) (remote : Option RemoteSpec) (claimed : AgentSession)
        → Maintains Inv (fetch_report et rest close client remote claimed)
    unfolding fetch_report
    Maintains-fetch none remote claimed = Maintains-raise attribute_error
    Maintains-fetch (some client) none claimed = Maintains-raise attribute_error
    Maintains-fetch (some client) (some remote) claimed =
        go (client.report_url_of claimed.remote_session_id remote.report_media_type)
      where
        go : (o : Outcome (Option Text)) → Maintains Inv (report_or_none et rest close o)
        go (returned url) = Maintains-pure (non_empty url)
        go (raises e) =
            Maintains-choice (is_mitra_error e) _ _ (Maintains-pure none) (Maintains-raise e)

    Maintains-complete :
        (claimed : AgentSession) (story_id : Text) (url : Option Text)
        → Maintains Inv (complete et rest close claimed story_id url)
    unfolding complete
    Maintains-complete claimed story_id url =
        Maintains-then _ _
          (lifts _ _ (λ P k. Maintains-apply k claimed (completed_with story_id url)))
          (λ done.
            Maintains-then _ _ (lifts _ _ (λ P k. Maintains-unpin k claimed.conversation_id))
              (λ _. Maintains-pure done))

    Maintains-finalize_claimed :
        (session : AgentSession) (agent : Option RegisteredAgent) (caller : UserContext)
        (claimed : Option AgentSession)
        → Maintains Inv (finalize_claimed et rest close session agent caller claimed)
    unfolding finalize_claimed submit conclude
    Maintains-finalize_claimed session agent caller none =
        Maintains-then _ _ (lifts _ _ (λ P k. Maintains-get k session.id))
          (λ current. Maintains-pure _)
    Maintains-finalize_claimed session agent caller (some claimed) =
        Maintains-then _ _
          (Maintains-then _ _
            (lifts _ _ (λ P k. Maintains-audit k (finalize_entry session claimed)))
            (λ _.
              Maintains-then _ _ (Maintains-close claimed.conversation_id)
                (λ _. Maintains-call rest (of_agent agent) claimed caller)))
          (λ answer. Maintains-then _ _ (Maintains-after_call claimed answer) (λ story_id.
            Maintains-then _ _ (Maintains-fetch rest (of_agent agent) claimed)
              (λ url. Maintains-complete claimed story_id url)))

    pub Maintains-finalize :
        (session : AgentSession) (agent : Option RegisteredAgent) (caller : UserContext)
        → Maintains Inv (finalize et rest close session agent caller)
    unfolding finalize
    Maintains-finalize session agent caller =
        Maintains-then _ _ (lifts _ _ (λ P k. Maintains-claim k session.id))
          (Maintains-finalize_claimed session agent caller)
