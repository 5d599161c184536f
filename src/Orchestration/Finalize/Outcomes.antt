-- ===== src/Orchestration/Finalize/Outcomes.antt =====
-- What becomes of the session of a finalisation that has won the claim.
use mathlib.Core.List.{Memᴰ}
use saarathi.Common.{
  ℕ, Text, true, Option, none, some, List, [], ◌∷◌, ◌≡◌, refl, sym, ap, ◌∙◌, inl, inr, ==_iff,
  Bool-cases, or_else, ◌==◌,
}
use saarathi.Exec.{Error, Outcome, returned, raises, ◌>>=◌}
use saarathi.Database.{
  Db, AgentSession, SessionState, finalizing, failed, completed, Conversation, is_terminal,
}
use saarathi.Database.Tables.{update}
use saarathi.Database.Selects.{find-updated-Mem}
use saarathi.Database.Sessions.{claim_finalizing}
use saarathi.Agents.{RegisteredAgent, RemoteSpec, UserContext}
use saarathi.Sessions.{SessionDelta}
use saarathi.Sessions.Applied.{as_read, applied}
use saarathi.Sessions.Consistent.{Consistent, Sound}
use saarathi.Sessions.{insert_audit}
use saarathi.Sessions.Commands.{Maintains-insert_audit, Maintains-claim_finalizing}
use saarathi.Sessions.Claims.{begin, claimed_row}
use saarathi.Agents.{remote_of}
use saarathi.Database.Conversations.{unpin, is_conversation}
use saarathi.Orchestration.{World, on_db}
use saarathi.Orchestration.Finalize.{
  Rest, failed_with, completed_with, finalize_entry, request_of, conclude, finalize,
  finalize_claimed,
}
use saarathi.Orchestration.Finalize.Ends.{found}
use saarathi.Orchestration.Finalize.Stages.{
  closing, goes_on, url_of, after_submit, submit-won, ended_with, conclude-failed,
  conclude-completed,
}

unpinned :
    (c : ℕ) (rows : List Conversation) (conv : Conversation)
    → Memᴰ conv (update (is_conversation c) (λ row. record row { pinned_agent_id = none }) rows)
    → conv.id ≡ c
    → conv.pinned_agent_id ≡ none
unfolding update
unpinned c [] conv m e = elim m [ ]
unpinned c (row ∷ rows) conv (Memᴰ.tail m) e = unpinned c rows conv m e
unpinned c (row ∷ rows) conv (Memᴰ.head h) e = elim (Bool-cases (row.id == c)) [
  | inl y ↦ ap (λ x. x.pinned_agent_id) h ∙ rw y
  | inr n ↦
      let kept : conv ≡ row = h ∙ rw n in
      cc (n, (==_iff row.id c).1 (ap (λ x. x.id) (sym kept) ∙ e))
]

-- The hypotheses under which a finalisation reaches the remote service: the claim is won, the agent
-- is a remote one, and the pool, if there is one, closes the channel.
pub record Reaches (client : Rest) (close : Option (ℕ → Outcome (Unit {0})))
    (session : AgentSession) (agent : RegisteredAgent) (remote : RemoteSpec)
    (claimed : AgentSession) (w : World) : Type 0 where
  pub consistent : Consistent w.db
  pub won : (claim_finalizing session.id w.db).0 ≡ returned (some claimed)
  pub is_remote : remote_of agent.spec.agent_type ≡ some remote
  pub closed_ok : closing close claimed.conversation_id ≡ returned tt

-- the row that a finalisation leaves behind
pub record Left (session : AgentSession) (state : SessionState) (row : AgentSession) (db : Db)
    : Type 0 where
  pub there : Memᴰ row db.sessions
  pub same_id : row.id ≡ session.id
  pub in_state : row.state ≡ state
  pub has_ended : row.ended_at ≡ some db.now

Left-unpin :
    (session : AgentSession) (state : SessionState) (row : AgentSession) (db : Db) (c : ℕ)
    → Left session state row db
    → Left session state row (unpin c db).1
unfolding unpin
Left-unpin session state row db c l = record {
  there = l.there;
  same_id = l.same_id;
  in_state = l.in_state;
  has_ended = l.has_ended;
}

module _ (error_text : Error → Text) (client : Rest) (close : Option (ℕ → Outcome (Unit {0})))
    (session : AgentSession) (agent : RegisteredAgent) (remote : RemoteSpec) (user : UserContext)
    (claimed : AgentSession) (w : World)
    (k : Reaches client close session agent remote claimed w) where
  abbrev pub submitted_world : World
  submitted_world =
      after_submit error_text client close session agent remote user claimed k.is_remote
        (record w { db = (claim_finalizing session.id w.db).1; in_transaction = true })

  pub here_of : Memᴰ claimed submitted_world.db.sessions
  here_of = (claimed_row session.id w.db claimed k.consistent k.won).0

  pub state_of : claimed.state ≡ finalizing
  state_of = (claimed_row session.id w.db claimed k.consistent k.won).1

  id_of : claimed.id ≡ session.id
  id_of = (claimed_row session.id w.db claimed k.consistent k.won).2

  pub sound : Sound w.db.sessions submitted_world.db
  unfolding insert_audit
  sound =
      (Maintains-insert_audit w.db.sessions (finalize_entry session claimed)).after _
        ((Maintains-claim_finalizing w.db.sessions session.id).after w.db (begin w.db k.consistent))

  pub finalize-conclude :
      finalize error_text (some client) close session (some agent) user w
      ≡ conclude error_text
          (some client)
          close
          (some agent)
          claimed
          (client.submit_story (request_of remote claimed user))
          submitted_world
  unfolding finalize finalize_claimed on_db ◌>>=◌
  finalize-conclude =
      rw
        (
          k.won,
          submit-won error_text client close session agent remote user claimed k.is_remote _
              k.closed_ok,
        )
        refl

  Left-by :
      (delta : SessionDelta)
      → is_terminal delta.state ≡ true
      → Left session delta.state
          (applied delta submitted_world.db.now claimed)
          (ended_with error_text client close session agent remote user claimed k.is_remote
            submitted_world sound.consistent here_of state_of delta).db
  Left-by delta t = record {
    there =
        find-updated-Mem (as_read claimed) (applied delta submitted_world.db.now) _ claimed
          (found claimed submitted_world.db sound.consistent here_of state_of);
    same_id = id_of;
    in_state = refl;
    has_ended = rw t;
  }

  -- If the remote service refuses the story, then the error is raised, and the session does not
  -- stay in `finalizing`: it has failed, with the text of the error, and has ended.
  pub finalize-failed :
      (e : Error)
      → client.submit_story (request_of remote claimed user) ≡ raises e
      → let r = finalize error_text (some client) close session (some agent) user w in
        (r.0 ≡ raises e)
        × (row : AgentSession) × Left session failed row r.1.db
        × (row.error ≡ some (error_text e))
  finalize-failed e h =
      rw
        (
          finalize-conclude,
          h,
          conclude-failed error_text client close session agent remote user claimed k.is_remote
              submitted_world sound.consistent here_of state_of e,
        )
        (refl, _, Left-by (failed_with (error_text e)) refl, refl)

  -- If the remote service takes the story, and asking for the report ends with an answer or with an
  -- error of the remote service, then the session is completed with the story, returned, and has
  -- ended; it has the URL of the report if there is one; and the conversation is no longer pinned.
  pub finalize-completed :
      (story_id : Text)
      → client.submit_story (request_of remote claimed user) ≡ returned story_id
      → goes_on (client.report_url_of claimed.remote_session_id remote.report_media_type) ≡ true
      → let r = finalize error_text (some client) close session (some agent) user w in
        (row : AgentSession) × (r.0 ≡ returned row)
        × Left session completed row r.1.db
        × (row.result_ref ≡ some story_id)
        × (row.report_url
            ≡ or_else
                (url_of (client.report_url_of claimed.remote_session_id remote.report_media_type))
                claimed.report_url)
        × ((conv : Conversation)
            → Memᴰ conv r.1.db.conversations
            → conv.id ≡ claimed.conversation_id
            → conv.pinned_agent_id ≡ none)
  unfolding unpin
  finalize-completed story_id h g =
      rw
        (
          finalize-conclude,
          h,
          conclude-completed error_text client close session agent remote user claimed k.is_remote
              submitted_world sound.consistent here_of state_of story_id g,
        )
        (
          _,
          refl,
          Left-unpin session completed _ _ claimed.conversation_id (
              Left-by
                (completed_with story_id (
                  url_of (client.report_url_of claimed.remote_session_id remote.report_media_type)))
                refl),
          refl,
          refl,
          unpinned claimed.conversation_id submitted_world.db.conversations,
        )
