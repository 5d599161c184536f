-- ===== src/Orchestration/Terminal.antt =====
-- A turn that ends the interview: step 11 of backend/app/services/orchestration.py.
use mathlib.Core.List.{Memᴰ}
use saarathi.Common.{ℕ, Text, true, Option, some, [], ◌∷◌, ◌≡◌, refl, ap, ◌∙◌, arith, ==_iff}
use saarathi.Exec.{Exec, Outcome, returned, raises, Error, pure, ◌>>=◌}
use saarathi.Database.{Db, AgentSession, SessionState, failed, completed}
use saarathi.Database.Selects.{find-updated-Mem, find-holds}
use saarathi.Database.Sessions.{is_claimable}
use saarathi.Agents.{RegisteredAgent, RemoteSpec, UserContext, remote_of}
use saarathi.Sessions.{SessionDelta, apply}
use saarathi.Sessions.Applied.{Fate, refused, stale, violated, done, apply-Fate, as_read, applied}
use saarathi.Sessions.Claims.{run_all-Consistent}
use saarathi.Sessions.Claimed.{as_finalizing, claim_finalizing_lem}
use saarathi.Sessions.Commands.{applies, run_all, run}
use saarathi.Sessions.Consistent.{Consistent}
use saarathi.Orchestration.{World, on_db}
use saarathi.Orchestration.Turn.{Deployment, apply_delta, finalize_terminal}
use saarathi.Orchestration.Finalize.{Rest, finalize, request_of}
use saarathi.Orchestration.Finalize.Stages.{closing, goes_on}
use saarathi.Orchestration.Finalize.Outcomes.{Reaches, Left, finalize-failed, finalize-completed}

-- where the answer of the remote service leads
abbrev pub end_of : Outcome Text → SessionState
end_of (returned story_id) = completed
end_of (raises e) = failed

-- the row that `apply` returns is the session's, in the delta's state
applied_row :
    (session : AgentSession) (delta : SessionDelta) (db : Db) (row : AgentSession)
    → Consistent db
    → (apply session delta db).0 ≡ returned row
    → Memᴰ row (apply session delta db).1.sessions
      × (row.id ≡ session.id)
      × (row.state ≡ delta.state)
applied_row session delta db row c = go (apply session delta db) (apply-Fate session delta db c)
  where
    go :
        (o : Outcome AgentSession × Db)
        → Fate session delta db c o
        → o.0 ≡ returned row
        → Memᴰ row o.1.sessions × (row.id ≡ session.id) × (row.state ≡ delta.state)
    go _ (refused _) e = cc
    go _ (stale _ _) e = cc
    go _ (violated _ _) e = cc
    go _ (done found _ k t) e =
        let q : row ≡ applied delta db.now found = cc in
        (
          rw q (find-updated-Mem (as_read session) (applied delta db.now) db.sessions found k),
          ap (λ x. x.id) q
              ∙ (==_iff found.id session.id).0
                  (ground (arith, find-holds (as_read session) db.sessions found k)),
          ap (λ x. x.state) q,
        )

same_store :
    {A B : Type 0} (f : A → B) (r : Outcome A × World) (m : Exec World A) (w : World)
    → m w ≡ r
    → ((m >>= λ a. pure (f a)) w).1 ≡ r.1
unfolding ◌>>=◌
same_store f (returned a, w') m w e = rw e
same_store f (raises x, w') m w e = rw e

module _ (error_text : Error → Text) (client : Rest) (close : Option (ℕ → Outcome (Unit {0})))
    (agent : RegisteredAgent) (remote : RemoteSpec) (user : UserContext) where
  -- a session that can be claimed is ended
  finalize-ends :
      (row : AgentSession) (w : World)
      → Consistent w.db
      → Memᴰ row w.db.sessions
      → is_claimable row.state ≡ true
      → remote_of agent.spec.agent_type ≡ some remote
      → closing close row.conversation_id ≡ returned tt
      → goes_on (client.report_url_of row.remote_session_id remote.report_media_type) ≡ true
      → let r = finalize error_text (some client) close row (some agent) user w in
        (b : AgentSession) × Left row
          (end_of (client.submit_story (request_of remote row user)))
          b
          r.1.db
  finalize-ends row w c m h is_remote closed g =
      go (client.submit_story (request_of remote row user)) refl
    where
      reaches : Reaches client close row agent remote (as_finalizing row) w
      reaches = record {
        consistent = c;
        won = claim_finalizing_lem row.id w.db row c m refl h;
        is_remote = is_remote;
        closed_ok = closed;
      }

      go :
          (o : Outcome Text)
          → client.submit_story (request_of remote row user) ≡ o
          → let r = finalize error_text (some client) close row (some agent) user w in
            (b : AgentSession) × Left row (end_of o) b r.1.db
      go (returned story_id) e =
          let (b, _, l, _, _, _) =
            finalize-completed error_text client close row agent remote user (as_finalizing row) w
              reaches story_id e g in
          (b, l)
      go (raises x) e =
          let (_, b, l, _) =
            finalize-failed error_text client close row agent remote user (as_finalizing row) w
              reaches x e in
          (b, l)

-- after the delta has been applied, the turn does what the finalisation does
terminal_steps :
    (d : Deployment) (client : Rest) (agent : RegisteredAgent) (caller : UserContext)
    (session row : AgentSession) (delta : SessionDelta) (w : World)
    → (apply session delta w.db).0 ≡ returned row
    → d.rest ≡ some client
    → ((apply_delta d (some session) (some delta) >>= finalize_terminal d agent caller true) w).1
      ≡ (finalize d.error_text
          (some client)
          d.close
          row
          (some agent)
          caller
          (record w { db = (apply session delta w.db).1; in_transaction = true })).1
unfolding apply_delta finalize_terminal on_db ◌>>=◌
terminal_steps d client agent caller session row delta w e has_rest =
    let w' : World = record w { db = (apply session delta w.db).1; in_transaction = true } in
    let end_session = finalize d.error_text (some client) d.close row (some agent) caller in
    rw (e, has_rest) (same_store {A = AgentSession} some (end_session w') end_session w' refl)

Left-same :
    (a b row : AgentSession) (state : SessionState) (db db' : Db)
    → a.id ≡ b.id
    → db' ≡ db
    → Left a state row db
    → Left b state row db'
Left-same a b row state db db' e q l = record {
  there = rw q l.there;
  same_id = l.same_id ∙ e;
  in_state = l.in_state;
  has_ended = rw q l.has_ended;
}

-- A terminal turn ends its session. Suppose that the delta of the turn is applied and leaves the
-- session where it can be claimed, that the agent is a remote one and there is a client, and that
-- the pool, if there is one, closes the channel. Then whether the remote service takes the story or
-- refuses it, and if asking for the report does not raise an error of another kind, the session is
-- not left in `finalizing`: its row is completed or failed, as the service has answered, with the
-- time of its end.
pub terminal_turn-ends :
    (d : Deployment) (client : Rest) (agent : RegisteredAgent) (remote : RemoteSpec)
    (caller : UserContext) (session row : AgentSession) (delta : SessionDelta) (w : World)
    → Consistent w.db
    → (apply session delta w.db).0 ≡ returned row
    → is_claimable delta.state ≡ true
    → remote_of agent.spec.agent_type ≡ some remote
    → d.rest ≡ some client
    → closing d.close row.conversation_id ≡ returned tt
    → goes_on (client.report_url_of row.remote_session_id remote.report_media_type) ≡ true
    → let r =
        (apply_delta d (some session) (some delta) >>= finalize_terminal d agent caller true) w in
      (b : AgentSession) × Left session
        (end_of (client.submit_story (request_of remote row caller)))
        b
        r.1.db
unfolding run_all run
terminal_turn-ends d client agent remote caller session row delta w c e h is_remote has_rest closed
      g =
    let (m, i, s) = applied_row session delta w.db row c e in
    let c' = run_all-Consistent (applies session delta ∷ []) w.db c in
    let w' : World = record w { db = (apply session delta w.db).1; in_transaction = true } in
    let (b, l) =
      finalize-ends d.error_text client d.close agent remote caller row w' c' m (rw s h) is_remote
        closed g in
    let same = terminal_steps d client agent caller session row delta w e has_rest in
    (b, Left-same row session b _ _ _ i (ap (λ x. x.db) same) l)
