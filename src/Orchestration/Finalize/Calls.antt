-- ===== src/Orchestration/Finalize/Calls.antt =====
-- The calls that a finalisation makes before it concludes.
use saarathi.Common.{
  true, ℕ, ◌+◌, ◌≤◌, false, Option, none, some, List, [], ◌∷◌, ◌++◌, ◌==◌, ◌≡◌, refl, ◌∙◌, arith,
  if◌then◌else◌,
}
use saarathi.Exec.{Outcome, returned, raises, continue, ◌>>=◌}
use saarathi.Database.{AgentSession}
use saarathi.Agents.{RegisteredAgent, RemoteSpec, UserContext}
use saarathi.Sessions.{insert_audit}
use saarathi.Sessions.Consistent.{Sound}
use saarathi.Sessions.Commands.{Maintains-insert_audit}
use saarathi.Orchestration.{World, Event, closes, on_db, emit}
use saarathi.Orchestration.Finalize.{
  Rest, finalize_entry, of_agent, close_channel, call_finalize, submit,
}
use saarathi.Orchestration.Finalize.Steps.{submissions, Services}

-- what an action adds to the calls: nothing that counts, or a request for the story of `c`
pub data Adds (c : ℕ) (es : List Event) : List Event → Type 0 where
  nothing : (es' : List Event) → ((i : ℕ) → submissions i es' ≡ submissions i es) → Adds c es es'
  one_more :
      (es' : List Event)
      → ((i : ℕ) → submissions i es' ≡ (if c == i then 1 else 0) + submissions i es)
      → Adds c es es'

pub Adds-refl : (c : ℕ) (es : List Event) → Adds c es es
Adds-refl c es = nothing es (λ i. refl)

pub Adds-le :
    (c : ℕ) (es es' : List Event)
    → Adds c es es'
    → (i : ℕ) → submissions i es' ≤ 1 + submissions i es
Adds-le c es es' (nothing _ h) i = rw (h i) (omega arith)
Adds-le c es es' (one_more _ h) i = rw (h i) (ground arith)

pub Adds-other :
    (c : ℕ) (es es' : List Event)
    → Adds c es es'
    → (i : ℕ) → (c == i) ≡ false
    → submissions i es' ≡ submissions i es
Adds-other c es es' (nothing _ h) i e = h i
Adds-other c es es' (one_more _ h) i e = h i ∙ rw e (omega arith)

module _ (s : Services) (session : AgentSession) (agent : Option RegisteredAgent)
    (user : UserContext) (claimed : AgentSession) where
  pub call_finalize-Adds :
      (close : Option (ℕ → Outcome (Unit {0}))) (client : Option Rest) (remote : Option RemoteSpec)
      (es : List Event) (w : World)
      → ((i : ℕ) → submissions i w.events ≡ submissions i es)
      → Adds claimed.id es
          (call_finalize s.error_text s.rest close client remote claimed user w).1.events
  unfolding call_finalize emit ◌>>=◌ submissions
  call_finalize-Adds close (some client) (some remote) es w h = one_more _ (λ i. rw (h i))
  call_finalize-Adds close none remote es w h = nothing _ h
  call_finalize-Adds close (some client) none es w h = nothing _ h

  pub submit-Adds :
      (close : Option (ℕ → Outcome (Unit {0}))) (w : World)
      → Adds claimed.id w.events
          (submit s.error_text s.rest close session agent user claimed w).1.events
  unfolding submit close_channel emit on_db insert_audit ◌>>=◌ submissions
  submit-Adds none w = call_finalize-Adds none s.rest (of_agent agent) w.events _ (λ i. refl)
  submit-Adds (some f) w = go (f claimed.conversation_id)
    where
      audited : World
      audited = record w {
        in_transaction = true;
        db = record w.db { audit = w.db.audit ++ (finalize_entry session claimed ∷ []) };
        events = closes claimed.conversation_id ∷ w.events;
      }

      go :
          (o : Outcome (Unit {0}))
          → Adds claimed.id w.events
              (continue o
                (λ _.
                  call_finalize s.error_text s.rest (some f) s.rest (of_agent agent) claimed user)
                audited).1.events
      go (returned v) =
          call_finalize-Adds (some f) s.rest (of_agent agent) w.events audited (λ i. refl)
      go (raises e) = nothing _ (λ i. refl)

  pub call_finalize-sound :
      (base : List AgentSession) (close : Option (ℕ → Outcome (Unit {0}))) (client : Option Rest)
      (remote : Option RemoteSpec) (w : World)
      → Sound base w.db
      → Sound base (call_finalize s.error_text s.rest close client remote claimed user w).1.db
  unfolding call_finalize emit ◌>>=◌
  call_finalize-sound base close (some client) (some remote) w h = h
  call_finalize-sound base close none remote w h = h
  call_finalize-sound base close (some client) none w h = h

  pub submit-sound :
      (base : List AgentSession) (close : Option (ℕ → Outcome (Unit {0}))) (w : World)
      → Sound base w.db
      → Sound base (submit s.error_text s.rest close session agent user claimed w).1.db
  unfolding submit close_channel emit on_db ◌>>=◌
  submit-sound base none w h =
      call_finalize-sound base none s.rest (of_agent agent) _
        ((Maintains-insert_audit base (finalize_entry session claimed)).after w.db h)
  submit-sound base (some f) w h = go (f claimed.conversation_id)
    where
      audited : World
      audited = record w {
        in_transaction = true;
        db = (insert_audit (finalize_entry session claimed) w.db).1;
        events = closes claimed.conversation_id ∷ w.events;
      }

      kept : Sound base audited.db
      kept = (Maintains-insert_audit base (finalize_entry session claimed)).after w.db h

      go :
          (o : Outcome (Unit {0}))
          → Sound base
              (continue o
                (λ _.
                  call_finalize s.error_text s.rest (some f) s.rest (of_agent agent) claimed user)
                audited).1.db
      go (returned v) = call_finalize-sound base (some f) s.rest (of_agent agent) audited kept
      go (raises e) = kept
