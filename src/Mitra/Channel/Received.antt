-- ===== src/Mitra/Channel/Received.antt =====
-- What `_try_get` and the handling of one frame come to.
use saarathi.Common.{
  ℕ, Text, codes, true, false, Option, none, some, List, [], ◌∷◌, ◌++◌, text_eq, text_eq_iff,
  Bool-cases, ◌≡◌, inl, inr, refl,
}
use saarathi.Mitra.Frame.{Frame}
use saarathi.Mitra.Channel.{
  Channel, observe, put_all, take_queued, take_pending, try_get, Turn, replied, remote_error,
  bot_turn, from, is_bot, is_fault, finishes, fault_text, hear, Progress, goes_on, ends, receive,
}
use saarathi.Mitra.Channel.Turns.{held, frames_of}

-- `_try_get` takes the first frame there is.
pub data Got (ch : Channel) : Option Frame × Channel → Type 0 where
  nothing : (rest : Channel) → frames_of ch ≡ [] → frames_of rest ≡ [] → Got ch (none, rest)
  first : (f : Frame) (rest : Channel) → frames_of ch ≡ f ∷ frames_of rest → Got ch (some f, rest)

pub try_get-Got : (ch : Channel) → Got ch (try_get ch)
unfolding try_get
try_get-Got ch = go ch.pending refl
  where
    queued :
        (q : List Frame) (ch : Channel)
        → ch.pending ≡ none
        → ch.queue ≡ q
        → Got ch (take_queued q ch)
    queued [] ch e h = nothing ch (rw e h) (rw e h)
    queued (f ∷ q) ch e h = first f (record ch { queue = q }) (rw e h)

    go : (p : Option Frame) → ch.pending ≡ p → Got ch (take_pending p ch)
    go (some f) e = first f (record ch { pending = none }) (rw e)
    go none e = queued ch.queue ch e refl

pub frames_of-put_all :
    (fs : List Frame) (ch : Channel) → frames_of (put_all fs ch) ≡ frames_of ch ++ fs
frames_of-put_all fs ch = go ch.pending
  where
    go : (p : Option Frame) → held p (ch.queue ++ fs) ≡ held p ch.queue ++ fs
    go none = refl
    go (some f) = refl

pub frames_of-observe : (c : Option Text) (ch : Channel) → frames_of (observe c ch) ≡ frames_of ch
frames_of-observe none ch = refl
frames_of-observe (some reason) ch = refl

-- What a frame does to a turn.
pub data Received (turn : Turn) (now : ℕ) : Option Frame → Progress → Type 0 where
  no_frame : Received turn now none (goes_on turn)
  passed_over :
      (f : Frame)
      → is_fault f ≡ false
      → is_bot f ≡ false
      → Received turn now (some f) (goes_on turn)
  heard :
      (f : Frame)
      → is_fault f ≡ false
      → is_bot f ≡ true
      → finishes f ≡ false
      → Received turn now (some f) (goes_on (hear f now turn))
  fault :
      (f : Frame)
      → is_fault f ≡ true
      → Received turn now (some f) (ends (remote_error (fault_text f)))
  last :
      (f : Frame)
      → is_fault f ≡ false
      → is_bot f ≡ true
      → finishes f ≡ true
      → Received turn now (some f) (ends (replied (bot_turn (hear f now turn))))

user→plain : (f : Frame) → from "user" f ≡ true → (is_fault f ≡ false) × (is_bot f ≡ false)
unfolding text_eq
user→plain f h = let e = (text_eq_iff f.source (codes "user")).0 h in (rw e, rw e)

pub receive-Received :
    (turn : Turn) (now : ℕ) (f : Option Frame) → Received turn now f (receive f now turn)
unfolding receive
receive-Received turn now none = no_frame
receive-Received turn now (some f) = elim (Bool-cases (from "user" f)) [
  | inl u ↦ let (a, b) = user→plain f u in rw u (passed_over f a b)
  | inr u ↦ elim (Bool-cases (is_fault f)) [
    | inl a ↦ rw (u, a) (fault f a)
    | inr a ↦ elim (Bool-cases (is_bot f)) [
      | inr b ↦ rw (u, a, b) (passed_over f a b)
      | inl b ↦ elim (Bool-cases (finishes f)) [
        | inl c ↦ rw (u, a, b, c) (last f a b c)
        | inr c ↦ rw (u, a, b, c) (heard f a b c)
      ]
    ]
  ]
]
