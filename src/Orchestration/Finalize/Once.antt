-- ===== src/Orchestration/Finalize/Once.antt =====
-- The story of a session is asked for once, whatever the order of the steps of the requests.
use saarathi.Common.{
  true, ℕ, ◌≤◌, ◌<◌, Text, Option, none, some, List, [], ◌∷◌, ◌==◌, ◌≡◌, refl, sym, ◌∙◌, inl, inr,
  arith, Bool-cases, ==_iff,
}
use saarathi.Exec.{Exec, Outcome, returned, raises, pure, continue, ◌>>=◌}
use saarathi.Exec.Maintains.{Maintains, Maintains-pure, rest_maintains}
use saarathi.Database.{AgentSession}
use saarathi.Database.Sessions.{claim_finalizing, get}
use saarathi.Agents.{RegisteredAgent, UserContext}
use saarathi.Sessions.Consistent.{Consistent, Sound}
use saarathi.Sessions.Evolution.{Evolves-Mem}
use saarathi.Sessions.Claims.{begin, no_claim, not_found, claimed_row, Leads-is_claimed}
use saarathi.Sessions.Commands.{run-Sound, Maintains-claim_finalizing}
use saarathi.Orchestration.{World, on_db}
use saarathi.Orchestration.Finalize.{submit, conclude, finalize, finalize_claimed, current_or}
use saarathi.Orchestration.Finalize.Steps.{
  submissions, Services, Step, command, finalizes, begins, concludes, begin_claimed, begin_finalize,
  step, run_steps,
}
use saarathi.Orchestration.Finalize.Kept.{Once, Kept-Once, Maintains-conclude, here}
use saarathi.Orchestration.Finalize.Calls.{Adds, Adds-le, Adds-other, submit-Adds, submit-sound}

-- The world in which a session has just been claimed, and what a request makes of it.
module _ (w : World) (o : Once w) (i : ℕ) (r : AgentSession)
    (won : (claim_finalizing i w.db).0 ≡ returned (some r)) where
  abbrev claimed_world : World
  claimed_world = record w { db = (claim_finalizing i w.db).1; in_transaction = true }

  -- no story of the session has been asked for before
  none_before : submissions i w.events ≡ 0
  none_before = elim (Bool-cases (submissions i w.events == 0)) [
    | inl z ↦ (==_iff _ 0).0 z
    | inr p ↦
        let (b, m, e, c) = o.past i (ground arith) in
        let lost = no_claim i w.db o.consistent (not_found i w.db b o.consistent m e c) in
        cc (lost, won)
  ]

  submitted-Once :
      (w' : World) → Sound claimed_world.db.sessions w'.db → Adds r.id w.events w'.events → Once w'
  submitted-Once w' k a =
      let (m, f, e) = claimed_row i w.db r o.consistent won in
      let after : Sound w.db.sessions claimed_world.db =
        (Maintains-claim_finalizing w.db.sessions i).after w.db (begin w.db o.consistent) in
      let old = Kept-Once w claimed_world o (record { sound = after; same = λ j. refl }) in
      let (b, mv, mb) = Evolves-Mem claimed_world.db.sessions w'.db.sessions r k.evolves m in
      let claimed = Leads-is_claimed r.state b.state (rw f refl) mv.route in
      record {
        consistent = k.consistent;
        once = λ j. elim (Bool-cases (r.id == j)) [
          | inr n ↦ rw (Adds-other r.id w.events w'.events a j n) (o.once j)
          | inl y ↦
              let same : j ≡ i = sym ((==_iff r.id j).0 y) ∙ e in
              let zero_before : submissions j w.events ≡ 0 = rw same none_before in
              omega (arith, Adds-le r.id w.events w'.events a j)
        ];
        past = λ j h. elim (Bool-cases (r.id == j)) [
          | inl y ↦ (b, mb, mv.same_id ∙ (==_iff r.id j).0 y, claimed)
          | inr n ↦
              let (b0, m0, e0, c0) =
                old.past j (rw (Adds-other r.id w.events w'.events a j n) at h) in
              let (b', mv', m') =
                Evolves-Mem claimed_world.db.sessions w'.db.sessions b0 k.evolves m0 in
              (b', m', mv'.same_id ∙ e0, Leads-is_claimed b0.state b'.state c0 mv'.route)
        ];
      }

and_then :
    {A B : Type 0} (m : Exec World A) (rest : A → Exec World B) (w : World)
    → Once (m w).1
    → ((v : A) → Maintains Once (rest v))
    → Once ((m >>= rest) w).1
unfolding ◌>>=◌
and_then m rest w o k = rest_maintains rest k (m w).0 (m w).1 o

-- An action that starts with a claim: what it does when the claim is lost, and when it is won.
claim-Once :
    {A : Type 0} (i : ℕ) (rest : Option AgentSession → Exec World A) (w : World) (o : Once w)
    → Maintains Once (rest none)
    → ((r : AgentSession) (won : (claim_finalizing i w.db).0 ≡ returned (some r))
        → Once (rest (some r) (claimed_world w o i r won)).1)
    → Once ((on_db _ (claim_finalizing i) >>= rest) w).1
unfolding on_db ◌>>=◌
claim-Once i rest w o lost wins = go (claim_finalizing i w.db).0 refl
  where
    after : World
    after = record w { db = (claim_finalizing i w.db).1; in_transaction = true }

    kept : Once after
    kept = Kept-Once w after o (record {
      sound = (Maintains-claim_finalizing w.db.sessions i).after w.db (begin w.db o.consistent);
      same = λ j. refl;
    })

    go :
        (x : Outcome (Option AgentSession))
        → (claim_finalizing i w.db).0 ≡ x
        → Once (continue x rest after).1
    go (raises e) h = kept
    go (returned none) h = lost.after after kept
    go (returned (some r)) h = wins r h

Maintains-concludes :
    (s : Services) (agent : Option RegisteredAgent) (claimed : AgentSession) (answer : Outcome Text)
    → Maintains Once (conclude s.error_text s.rest s.close agent claimed answer)
Maintains-concludes s agent claimed answer = record {
  after = λ w o.
      Kept-Once w _ o
        ((Maintains-conclude w.db.sessions w.events s agent claimed answer).after w (here w o));
}

module _ (s : Services) (session : AgentSession) (agent : Option RegisteredAgent)
    (user : UserContext) where
  won-Once :
      (w : World) (o : Once w) (r : AgentSession)
      (won : (claim_finalizing session.id w.db).0 ≡ returned (some r))
      → Once
          (submit s.error_text s.rest s.close session agent user r
            (claimed_world w o session.id r won)).1
  won-Once w o r won =
      submitted-Once w o session.id r won _
        (submit-sound s session agent user r (claim_finalizing session.id w.db).1.sessions s.close _
          (begin _
            ((Maintains-claim_finalizing w.db.sessions session.id).after w.db
              (begin w.db o.consistent)).consistent))
        (submit-Adds s session agent user r s.close _)

  Maintains-begin : Maintains Once (begin_finalize s session agent user)
  unfolding begin_finalize begin_claimed
  Maintains-begin = record {
    after = λ w o.
        claim-Once session.id (begin_claimed s session agent user) w o (Maintains-pure tt) (λ r won.
          and_then (submit s.error_text s.rest s.close session agent user r) (λ _. pure tt)
            (claimed_world w o session.id r won) (won-Once w o r won) (λ _. Maintains-pure tt));
  }

  Maintains-read :
      Maintains Once (finalize_claimed s.error_text s.rest s.close session agent user none)
  unfolding finalize_claimed on_db get
  Maintains-read = record {
    after = λ w o.
        and_then (on_db _ (get session.id))
          (λ current. pure (current_or s.error_text s.rest s.close session current)) w
          (record { consistent = o.consistent; once = o.once; past = o.past })
          (λ current. Maintains-pure _);
  }

  Maintains-finalize : Maintains Once (finalize s.error_text s.rest s.close session agent user)
  unfolding finalize finalize_claimed
  Maintains-finalize = record {
    after = λ w o.
        claim-Once session.id (finalize_claimed s.error_text s.rest s.close session agent user) w o
          Maintains-read
          (λ r won.
            and_then (submit s.error_text s.rest s.close session agent user r)
              (conclude s.error_text s.rest s.close agent r) (claimed_world w o session.id r won)
              (won-Once w o r won) (Maintains-concludes s agent r));
  }

step-Once : (t : Step) (w : World) → Once w → Once (step t w)
unfolding step
step-Once (command c) w o =
    Kept-Once w _ o (record {
      sound = run-Sound w.db.sessions c w.db (begin w.db o.consistent);
      same = λ i. refl;
    })
step-Once (finalizes s session agent user) w o = (Maintains-finalize s session agent user).after w o
step-Once (begins s session agent user) w o = (Maintains-begin s session agent user).after w o
step-Once (concludes s agent claimed answer) w o =
    (Maintains-concludes s agent claimed answer).after w o

run_steps-Once : (ts : List Step) (w : World) → Once w → Once (run_steps ts w)
unfolding run_steps
run_steps-Once [] w o = o
run_steps-Once (t ∷ ts) w o = run_steps-Once ts (step t w) (step-Once t w o)

-- Whatever the order in which requests finalise sessions, in one go or with other operations of
-- the session service between the claim and the conclusion, the remote service is asked for the
-- story of a session once at most, provided that no transaction is rolled back.
pub submissions-le_one :
    (ts : List Step) (w : World) (i : ℕ)
    → Consistent w.db
    → w.events ≡ []
    → submissions i (run_steps ts w).events ≤ 1
unfolding submissions
submissions-le_one ts w i c e =
    (run_steps-Once ts w (record {
      consistent = c;
      once = λ j. rw e (omega arith);
      past = λ j h. let z : 0 < submissions j [] = rw e at h in absurd (omega arith);
    })).once
      i
