-- ===== src/Handlers/RemoteFlow/Spoken.antt =====
-- What a turn of a remote interview sends to the channels, and what comes back.
use saarathi.Common.{ℕ, Text, Bool, true, false, List, ◌∷◌, ◌≡◌, refl, inl, inr, Bool-cases}
use saarathi.Exec.{Error, Outcome, returned, raises, continue, ◌>>=◌}
use saarathi.Database.{AgentSession}
use saarathi.Agents.{RemoteSpec}
use saarathi.Mitra.Channel.{BotTurn}
use saarathi.Mitra.Pool.{Pool, acquire, reacquire}
use saarathi.Handlers.RemoteFlow.{
  Talk, Remote, HandlerDeps, on_pool, send_turn, is_channel_closed, send_again, or_again, converse,
}

-- the channel has been found closed
abbrev pub lost : Outcome BotTurn → Bool
lost (returned bot) = false
lost (raises e) = is_channel_closed e

module _ (deps : HandlerDeps) (remote : RemoteSpec) (text : Text) where
  -- What is sent, and what comes back.
  pub data Spoken (before : List Talk) : Outcome BotTurn → List Talk → Type 0 where
    no_channel : (e : Error) → Spoken before (raises e) before
    spoke :
        (t : Talk)
        → t.said ≡ text
        → lost (deps.talk before t) ≡ false
        → Spoken before (deps.talk before t) (t ∷ before)
    no_other_channel :
        (t : Talk) (e : Error)
        → t.said ≡ text
        → lost (deps.talk before t) ≡ true
        → Spoken before (raises e) (t ∷ before)
    spoke_again :
        (t u : Talk)
        → t.said ≡ text
        → u.said ≡ text
        → lost (deps.talk before t) ≡ true
        → Spoken before (deps.talk (t ∷ before) u) (u ∷ t ∷ before)

  abbrev talk_to : ℕ → ℕ → Talk
  talk_to timeout_ms ch = record {
    channel = ch;
    said = text;
    timeout_ms = timeout_ms;
    idle_gap_ms = remote.turn.idle_gap_ms;
  }

  abbrev with_talk : Talk → Remote → Remote
  with_talk t r = record r { talks = t ∷ r.talks }

  again-Spoken :
      (sess : AgentSession) (timeout_ms : ℕ) (t : Talk) (r : Remote)
      → t.said ≡ text
      → lost (deps.talk r.talks t) ≡ true
      → let x = send_again deps remote sess text timeout_ms (with_talk t r) in
        Spoken r.talks x.0 x.1.talks
  unfolding send_again send_turn on_pool ◌>>=◌
  again-Spoken sess timeout_ms t r s l = go (
      reacquire deps.max_channels deps.second_visit.alive deps.second_visit.now
        (deps.second_visit.connect sess) sess.conversation_id r.pool)
    where
      go :
          (p : Outcome ℕ × Pool)
          → let x =
              continue p.0
                (send_turn deps remote text timeout_ms)
                (record (with_talk t r) { pool = p.1 }) in
            Spoken r.talks x.0 x.1.talks
      go (raises e, pool) = no_other_channel t e s l
      go (returned ch, pool) = spoke_again t (talk_to timeout_ms ch) s refl l

  or_again-Spoken :
      (sess : AgentSession) (timeout_ms ch : ℕ) (r : Remote)
      → let x =
          or_again deps remote sess text timeout_ms (send_turn deps remote text timeout_ms ch r) in
        Spoken r.talks x.0 x.1.talks
  unfolding or_again send_turn
  or_again-Spoken sess timeout_ms ch r = go (deps.talk r.talks t) refl
    where
      t : Talk
      t = talk_to timeout_ms ch

      go :
          (o : Outcome BotTurn)
          → deps.talk r.talks t ≡ o
          → let x = or_again deps remote sess text timeout_ms (o, with_talk t r) in
            Spoken r.talks x.0 x.1.talks
      go (returned bot) e = rw (← e) (spoke t refl (rw e refl))
      go (raises err) e = elim (Bool-cases (is_channel_closed err)) [
        | inl c ↦ rw c (again-Spoken sess timeout_ms t r refl (rw e c))
        | inr n ↦ rw n (rw (← e) (spoke t refl (rw e n)))
      ]

  pub converse-Spoken :
      (sess : AgentSession) (timeout_ms : ℕ) (r : Remote)
      → let x = converse deps remote sess text timeout_ms r in Spoken r.talks x.0 x.1.talks
  unfolding converse on_pool ◌>>=◌
  converse-Spoken sess timeout_ms r = go (
      acquire deps.max_channels deps.first_visit.alive deps.first_visit.now
        (deps.first_visit.connect sess) sess.conversation_id r.pool)
    where
      go :
          (p : Outcome ℕ × Pool)
          → let x =
              continue p.0
                (λ ch r.
                  or_again deps remote sess text timeout_ms
                    (send_turn deps remote text timeout_ms ch r))
                (record r { pool = p.1 }) in
            Spoken r.talks x.0 x.1.talks
      go (raises e, pool) = no_channel e
      go (returned ch, pool) = or_again-Spoken sess timeout_ms ch (record r { pool = pool })
