-- ===== src/Mitra/Channel/Handshake.antt =====
-- `_authenticate`: the channel waits a while for an acknowledgement, which the service need not
-- send, and keeps the first frame of the bot for the turn. `text` is the frame that is sent.
use saarathi.Common.{
  ℕ, ◌+◌, Text, Bool, true, false, not, ◌&&◌, Option, none, some, List, [], ◌∷◌, ◌++◌, mem_text,
  leb, Bool-cases, ◌≡◌, inl, inr, refl, sym, ap, arith, if◌then◌else◌,
}
use saarathi.Mitra.Frame.{Frame}
use saarathi.Mitra.Channel.{
  Channel, Tick, observe, put_all, take_pending, take_queued, try_get, pushback, is_bot,
}
use saarathi.Mitra.Channel.Turns.{frames_of, arrivals}
use saarathi.Mitra.Channel.Received.{Got, nothing, first, try_get-Got, frames_of-observe}
use saarathi.Mitra.Channel.Answered.{all_frames}
use saarathi.Mitra.Channel.Timing.{any}

-- `settling` is a handshake that still runs when the schedule ends; `refused` raises.
pub data Handshake : Type 0 where
  settled settling : Handshake
  refused : Text → Handshake

pub data Settle : Type 0 where
  waits : Settle
  ends : Handshake → Settle

abbrev pub resume : Settle → Channel → (Channel → Handshake × Channel) → Handshake × Channel
resume waits ch rest = rest ch
resume (ends h) ch rest = (h, ch)

abbrev pub closed_or : Channel → Handshake → Handshake
closed_or ch h = if ch.closed then refused ch.close_reason else h

module _ (ack_types : List Text) where
  abbrev pub is_ack : Frame → Bool
  is_ack f = mem_text f.source ack_types

  unfoldable pub answer : Option Frame → Channel → Settle × Channel
  unfolding pushback
  answer none rest = (waits, rest)
  answer (some f) rest =
      if is_ack f
      then (ends settled, rest)
      else if is_bot f
      then (ends settled, pushback f rest)
      else (waits, rest)

  module _ (deadline : ℕ) where
    unfoldable pub settle_pass : Tick → Channel → Settle × Channel
    unfolding try_get answer
    settle_pass t ch =
        let seen = observe t.closes ch in
        let (f, rest) = try_get (put_all t.arrives seen) in
        if leb deadline t.now
        then (ends (closed_or seen settled), seen)
        else if seen.closed
        then (ends (refused seen.close_reason), seen)
        else answer f rest

    unfoldable pub settle : List Tick → Channel → Handshake × Channel
    unfolding settle_pass
    settle [] ch = (settling, ch)
    settle (t ∷ ts) ch = let (s, next) = settle_pass t ch in resume s next (settle ts)

  -- `failure` is what sending the frame raises, if it does; `started_at` is the clock after it
  unfoldable pub authenticate :
      Text → ℕ → Option Text → ℕ → List Tick → Channel → Handshake × Channel
  unfolding settle
  authenticate text settle_ms (some failure) started_at ts ch = (refused failure, ch)
  authenticate text settle_ms none started_at ts ch =
      settle (started_at + settle_ms) ts (record ch { sent = ch.sent ++ (text ∷ []) })

  -- a frame of the bot that is no acknowledgement
  abbrev pub is_opening : Frame → Bool
  is_opening f = is_bot f && not (is_ack f)

  -- The frames of `before` are those that were dropped, then those of the channel, then the rest.
  pub record Keeps (before : List Frame) (ch : Channel) : Type 0 where
    pub dropped : List Frame
    pub left : List Frame
    pub whole : before ≡ dropped ++ (frames_of ch ++ left)
    pub no_opening : any is_opening dropped ≡ false

  try_get-pending : (ch : Channel) → (try_get ch).1.pending ≡ none
  unfolding try_get
  try_get-pending ch = go ch.pending refl
    where
      queued : (q : List Frame) → ch.pending ≡ none → (take_queued q ch).1.pending ≡ none
      queued [] e = e
      queued (f ∷ q) e = e

      go : (p : Option Frame) → ch.pending ≡ p → (take_pending p ch).1.pending ≡ none
      go (some f) e = refl
      go none e = queued ch.queue e

  Keeps-cons :
      (f : Frame) (before : List Frame) (ch : Channel)
      → is_opening f ≡ false
      → Keeps before ch
      → Keeps (f ∷ before) ch
  Keeps-cons f before ch e k = record {
    dropped = f ∷ k.dropped;
    left = k.left;
    whole = ap (λ l. f ∷ l) k.whole;
    no_opening = rw (e, k.no_opening);
  }

  Keeps-now : (ch : Channel) (left : List Frame) → Keeps (frames_of ch ++ left) ch
  Keeps-now ch left = record { dropped = []; left = left; whole = refl; no_opening = refl }

  frames_of-pushback :
      (f : Frame) (ch : Channel) → ch.pending ≡ none → frames_of (pushback f ch) ≡ f ∷ frames_of ch
  unfolding pushback
  frames_of-pushback f ch e = rw e

  Keeps-pushback :
      (f : Frame) (ch : Channel) (left : List Frame)
      → ch.pending ≡ none
      → Keeps ((f ∷ frames_of ch) ++ left) (pushback f ch)
  Keeps-pushback f ch left e = record {
    dropped = [];
    left = left;
    whole = ap (λ l. l ++ left) (sym (frames_of-pushback f ch e));
    no_opening = refl;
  }

  answer-Keeps :
      (src : Channel) (later : List Frame) (f : Option Frame) (rest : Channel)
      (k : Channel → Handshake × Channel)
      → Got src (f, rest)
      → rest.pending ≡ none
      → ((ch : Channel) → Keeps (frames_of ch ++ later) (k ch).1)
      → Keeps (frames_of src ++ later) (resume (answer f rest).0 (answer f rest).1 k).1
  unfolding answer
  answer-Keeps src later _ _ k (nothing rest e h) p ih = rw e (rw h at (ih rest))
  answer-Keeps src later _ _ k (first f rest e) p ih = elim (Bool-cases (is_ack f)) [
    | inl a ↦ rw (e, a) (Keeps-cons f _ rest (rw a (ground arith)) (Keeps-now rest later))
    | inr a ↦ elim (Bool-cases (is_bot f)) [
      | inl b ↦ rw (e, a, b) (Keeps-pushback f rest later p)
      | inr b ↦ rw (e, a, b) (Keeps-cons f _ _ (rw b) (ih rest))
    ]
  ]

  module _ (deadline : ℕ) where
    settle_pass-Keeps :
        (t : Tick) (ts : List Tick) (ch : Channel) (k : Channel → Handshake × Channel)
        → ((next : Channel) → Keeps (frames_of next ++ arrivals ts) (k next).1)
        → Keeps
            (frames_of ch ++ arrivals (t ∷ ts))
            (resume (settle_pass deadline t ch).0 (settle_pass deadline t ch).1 k).1
    unfolding settle_pass
    settle_pass-Keeps t ts ch k ih = go (leb deadline t.now) seen.closed
      where
        seen : Channel
        seen = observe t.closes ch

        ended : Keeps (frames_of ch ++ arrivals (t ∷ ts)) seen
        ended = rw (frames_of-observe t.closes ch) at (Keeps-now seen (arrivals (t ∷ ts)))

        src : Channel
        src = put_all t.arrives seen

        got : Option Frame × Channel
        got = try_get src

        go :
            (l c : Bool)
            → let (s, next) =
                if l
                then (ends (closed_or seen settled), seen)
                else if c
                then (ends (refused seen.close_reason), seen)
                else answer got.0 got.1 in
              Keeps (frames_of ch ++ arrivals (t ∷ ts)) (resume s next k).1
        go true c = ended
        go false true = ended
        go false false = rw (all_frames 0 0 t ts ch) (
            answer-Keeps src (arrivals ts) got.0 got.1 k (try_get-Got src) (try_get-pending src) ih)

    settle-Keeps :
        (ts : List Tick) (ch : Channel)
        → Keeps (frames_of ch ++ arrivals ts) (settle deadline ts ch).1
    unfolding settle
    settle-Keeps [] ch = Keeps-now ch []
    settle-Keeps (t ∷ ts) ch = settle_pass-Keeps t ts ch (settle deadline ts) (settle-Keeps ts)

-- The handshake loses no frame with which the bot opens the conversation: however it ends, the
-- frames that the channel had and those that arrive are those it dropped, in order, then those that
-- the channel keeps, then those that arrive later, and no dropped one is a frame of the bot, unless
-- its source counts as an acknowledgement.
pub authenticate-Keeps :
    (ack_types : List Text) (text : Text) (settle_ms : ℕ) (failure : Option Text) (started_at : ℕ)
    (ts : List Tick) (ch : Channel)
    → Keeps ack_types
        (frames_of ch ++ arrivals ts)
        (authenticate ack_types text settle_ms failure started_at ts ch).1
unfolding authenticate
authenticate-Keeps ack_types text settle_ms (some failure) started_at ts ch =
    Keeps-now ack_types ch (arrivals ts)
authenticate-Keeps ack_types text settle_ms none started_at ts ch =
    settle-Keeps ack_types (started_at + settle_ms) ts _
