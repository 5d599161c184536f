-- ===== src/Orchestration/Finalize/Kept.antt =====
-- What the steps of a finalisation leave alone: the evolution of the table and the calls.
use mathlib.Core.List.{Memᴰ}
use saarathi.Common.{ℕ, ◌≤◌, ◌<◌, Text, true, Option, none, some, List, ◌≡◌, refl, ◌∙◌}
use saarathi.Exec.{Exec, Outcome, returned, raises, is_mitra_error}
use saarathi.Exec.Maintains.{
  Maintains, Maintains-pure, Maintains-raise, Maintains-choice, Maintains-then,
}
use saarathi.Database.{AgentSession, finalizing, failed, completed}
use saarathi.Agents.{RegisteredAgent, RemoteSpec}
use saarathi.Sessions.Consistent.{Consistent, Sound}
use saarathi.Sessions.Evolution.{Evolves-Mem}
use saarathi.Sessions.Claims.{begin, is_claimed, Leads-is_claimed}
use saarathi.Sessions.Commands.{Maintains-unpin, Maintains-apply}
use saarathi.Orchestration.{World, Event, on_db, attribute_error}
use saarathi.Orchestration.Finalize.{
  Rest, failed_with, completed_with, non_empty, after_call, report_or_none, fetch_report, complete,
  conclude,
}
use saarathi.Orchestration.Finalize.Steps.{submissions, Services}

-- a session with the key that has been claimed, at least
abbrev pub Past : ℕ → List AgentSession → Type 0
Past i rows = (b : AgentSession) × Memᴰ b rows × (b.id ≡ i) × (is_claimed b.state ≡ true)

pub record Once (w : World) : Type 0 where
  pub consistent : Consistent w.db
  pub once : (i : ℕ) → submissions i w.events ≤ 1
  pub past : (i : ℕ) → 0 < submissions i w.events → Past i w.db.sessions

-- the database evolves and no story is asked for
pub record Kept (base : List AgentSession) (es : List Event) (w : World) : Type 0 where
  pub sound : Sound base w.db
  pub same : (i : ℕ) → submissions i w.events ≡ submissions i es

pub Kept-Once : (w w' : World) → Once w → Kept w.db.sessions w.events w' → Once w'
Kept-Once w w' o k = record {
  consistent = k.sound.consistent;
  once = λ i. rw (k.same i) (o.once i);
  past = λ i h.
      let (b, m, e, c) = o.past i (rw (k.same i) at h) in
      let (b', mv, m') = Evolves-Mem w.db.sessions w'.db.sessions b k.sound.evolves m in
      (b', m', mv.same_id ∙ e, Leads-is_claimed b.state b'.state c mv.route);
}

module _ (base : List AgentSession) (es : List Event) where
  pub Maintains-on_db :
      {A : Type 0} (m : Exec saarathi.Database.Db A)
      → Maintains (Sound base) m
      → Maintains (Kept base es) (on_db A m)
  unfolding on_db
  Maintains-on_db m k = record {
    after = λ w h. record { sound = k.after w.db h.sound; same = h.same };
  }

  module _ (s : Services) (agent : Option RegisteredAgent) (claimed : AgentSession) where
    pub Maintains-after_call :
        (answer : Outcome Text)
        → Maintains (Kept base es) (after_call s.error_text s.rest s.close claimed answer)
    unfolding after_call
    Maintains-after_call (returned story_id) = Maintains-pure story_id
    Maintains-after_call (raises e) =
        Maintains-then _ _
          (Maintains-on_db _ (Maintains-apply base claimed (failed_with (s.error_text e))))
          (λ _. Maintains-raise e)

    pub Maintains-report_or_none :
        (o : Outcome (Option Text))
        → Maintains (Kept base es) (report_or_none s.error_text s.rest s.close o)
    Maintains-report_or_none (returned url) = Maintains-pure (non_empty url)
    Maintains-report_or_none (raises e) =
        Maintains-choice (is_mitra_error e) _ _ (Maintains-pure none) (Maintains-raise e)

    pub Maintains-fetch_report :
        (client : Option Rest) (remote : Option RemoteSpec)
        → Maintains (Kept base es) (fetch_report s.error_text s.rest s.close client remote claimed)
    unfolding fetch_report
    Maintains-fetch_report none remote = Maintains-raise attribute_error
    Maintains-fetch_report (some client) none = Maintains-raise attribute_error
    Maintains-fetch_report (some client) (some remote) = Maintains-report_or_none _

    pub Maintains-complete :
        (story_id : Text) (url : Option Text)
        → Maintains (Kept base es) (complete s.error_text s.rest s.close claimed story_id url)
    unfolding complete
    Maintains-complete story_id url =
        Maintains-then _ _
          (Maintains-on_db _ (Maintains-apply base claimed (completed_with story_id url)))
          (λ done.
            Maintains-then _ _ (Maintains-on_db _ (Maintains-unpin base claimed.conversation_id))
              (λ _. Maintains-pure done))

    pub Maintains-conclude :
        (answer : Outcome Text)
        → Maintains (Kept base es) (conclude s.error_text s.rest s.close agent claimed answer)
    unfolding conclude
    Maintains-conclude answer = Maintains-then _ _ (Maintains-after_call answer) (λ story_id.
        Maintains-then _ _ (Maintains-fetch_report s.rest _)
          (λ url. Maintains-complete story_id url))

pub here : (w : World) → Once w → Kept w.db.sessions w.events w
here w o = record { sound = begin w.db o.consistent; same = λ i. refl }
