-- ===== src/Mitra/Channel/Settled.antt =====
-- `_authenticate`: the check for a dead socket when the settle window ends.
use saarathi.Common.{
  ℕ, Text, Bool, true, false, ◌&&◌, Option, none, some, List, [], ◌∷◌, leb, Bool-cases, ◌≡◌, inl,
  inr, refl, if◌then◌else◌,
}
use saarathi.Mitra.Frame.{Frame}
use saarathi.Mitra.Channel.{
  Channel, Tick, observe, put_all, take_pending, take_queued, try_get, pushback, is_bot,
}
use saarathi.Mitra.Channel.Handshake.{
  Handshake, settled, settling, refused, ends, resume, closed_or, is_ack, answer, settle_pass,
  settle, authenticate,
}

abbrev pub is_settled : Handshake → Bool
is_settled settled = true
is_settled settling = false
is_settled (refused reason) = false

-- the channel is handed back although its socket is dead
abbrev pub is_dead : Handshake × Channel → Bool
is_dead r = is_settled r.0 && r.1.closed

try_get-closed : (ch : Channel) → (try_get ch).1.closed ≡ ch.closed
unfolding try_get
try_get-closed ch = go ch.pending
  where
    queued : (q : List Frame) → (take_queued q ch).1.closed ≡ ch.closed
    queued [] = refl
    queued (f ∷ q) = refl

    go : (p : Option Frame) → (take_pending p ch).1.closed ≡ ch.closed
    go (some f) = refl
    go none = queued ch.queue

closed_or-is_dead : (ch : Channel) → is_dead (closed_or ch settled, ch) ≡ false
closed_or-is_dead ch = go ch.closed
  where
    go : (c : Bool) → (is_settled (if c then refused ch.close_reason else settled) && c) ≡ false
    go true = refl
    go false = refl

module _ (ack_types : List Text) where
  answer-is_dead :
      (f : Option Frame) (rest : Channel) (k : Channel → Handshake × Channel)
      → rest.closed ≡ false
      → ((ch : Channel) → is_dead (k ch) ≡ false)
      → is_dead (resume (answer ack_types f rest).0 (answer ack_types f rest).1 k) ≡ false
  unfolding answer pushback
  answer-is_dead none rest k e ih = ih rest
  answer-is_dead (some f) rest k e ih = elim (Bool-cases (is_ack ack_types f)) [
    | inl a ↦ rw (a, e)
    | inr a ↦ elim (Bool-cases (is_bot f)) [ inl b ↦ rw (a, b, e) | inr b ↦ rw (a, b) (ih rest) ]
  ]

  module _ (deadline : ℕ) where
    settle_pass-is_dead :
        (t : Tick) (ch : Channel) (k : Channel → Handshake × Channel)
        → ((next : Channel) → is_dead (k next) ≡ false)
        → is_dead (
            resume
              (settle_pass ack_types deadline t ch).0
              (settle_pass ack_types deadline t ch).1
              k)
          ≡ false
    unfolding settle_pass
    settle_pass-is_dead t ch k ih = go (leb deadline t.now) seen.closed refl
      where
        seen : Channel
        seen = observe t.closes ch

        got : Option Frame × Channel
        got = try_get (put_all t.arrives seen)

        go :
            (l c : Bool)
            → seen.closed ≡ c
            → let (s, next) =
                if l
                then (ends (closed_or seen settled), seen)
                else if c
                then (ends (refused seen.close_reason), seen)
                else answer ack_types got.0 got.1 in
              is_dead (resume s next k) ≡ false
        go true c e = closed_or-is_dead seen
        go false true e = refl
        go false false e =
            answer-is_dead got.0 got.1 k (rw (try_get-closed (put_all t.arrives seen)) e) ih

    settle-is_dead :
        (ts : List Tick) (ch : Channel) → is_dead (settle ack_types deadline ts ch) ≡ false
    unfolding settle
    settle-is_dead [] ch = refl
    settle-is_dead (t ∷ ts) ch =
        settle_pass-is_dead t ch (settle ack_types deadline ts) (settle-is_dead ts)

-- A handshake never settles on a channel whose reader was seen to have ended: not when an
-- acknowledgement or a frame of the bot comes, and not when the time is over either.
pub authenticate-is_dead :
    (ack_types : List Text) (text : Text) (settle_ms : ℕ) (failure : Option Text) (started_at : ℕ)
    (ts : List Tick) (ch : Channel)
    → is_dead (authenticate ack_types text settle_ms failure started_at ts ch) ≡ false
unfolding authenticate
authenticate-is_dead ack_types text settle_ms (some failure) started_at ts ch = refl
authenticate-is_dead ack_types text settle_ms none started_at ts ch =
    settle-is_dead ack_types _ ts _
