-- ===== src/Mitra/Channel/Timing.antt =====
-- When a turn ends, and when it may time out.
use saarathi.Common.{
  ℕ, ◌+◌, Text, Bool, true, false, not, ◌||◌, Option, none, some, List, [], ◌∷◌, ◌++◌, leb,
  Bool-cases, ◌≡◌, ◌≢◌, inl, inr, refl, ap, arith, if◌then◌else◌,
}
use saarathi.Python.{ℤ}
use saarathi.Mitra.Frame.{Frame}
use saarathi.Mitra.Channel.{
  Channel, Tick, observe, put_all, try_get, Turn, Reply, replied, timed_out, channel_closed,
  remote_error, waiting, bot_turn, is_nil, from, is_bot, is_fault, finishes, fault_text, hear,
  Progress, goes_on, ends, resume, receive, flush, is_over, pass, await_turn, new_turn,
  send_and_await_turn, after_send, drain_stale,
}
use saarathi.Mitra.Channel.Turns.{frames_of, arrivals}
use saarathi.Mitra.Channel.Received.{nothing, first, no_frame, passed_over, heard, fault, last}
use saarathi.Mitra.Channel.Answered.{Passed, shut, over, took, pass-Passed, all_frames}

abbrev pub any {ℓ} : {A : Type ℓ} → (A → Bool) → List A → Bool
any p [] = false
any p (x ∷ xs) = p x || any p xs

abbrev is_waiting : Reply → Bool
is_waiting waiting = true
is_waiting _ = false

abbrev is_timed_out : Reply → Bool
is_timed_out (timed_out s) = true
is_timed_out _ = false

ends_decided : Progress → Bool
ends_decided (goes_on turn) = true
ends_decided (ends reply) = not (is_waiting reply)

abbrev is_end : Progress → Bool
is_end (goes_on turn) = false
is_end (ends reply) = true

abbrev progress_of : Progress × Channel → Progress
progress_of r = r.0

receive-decided :
    (f : Option Frame) (now : ℕ) (turn : Turn) → ends_decided (receive f now turn) ≡ true
unfolding receive ends_decided
receive-decided none now turn = refl
receive-decided (some f) now turn = go (from "user" f) (is_fault f) (is_bot f) (finishes f)
  where
    go :
        (u a b c : Bool)
        → ends_decided (
            if u
            then goes_on turn
            else if a
            then ends (remote_error (fault_text f))
            else if not b
            then goes_on turn
            else if c
            then ends (replied (bot_turn (hear f now turn)))
            else goes_on (hear f now turn))
          ≡ true
    go true a b c = refl
    go false true b c = refl
    go false false false c = refl
    go false false true true = refl
    go false false true false = refl

flush-decided : (turn : Turn) → is_waiting (flush turn) ≡ false
unfolding flush
flush-decided turn = go (not (is_nil turn.chunks) || turn.saw_control_payload)
  where
    go :
        (b : Bool) → is_waiting (if b then replied (bot_turn turn) else timed_out turn.step) ≡ false
    go true = refl
    go false = refl

module _ (deadline idle_gap : ℕ) where
  pass-decided :
      (t : Tick) (turn : Turn) (ch : Channel)
      → ends_decided (pass deadline idle_gap t turn ch).0 ≡ true
  unfolding pass ends_decided
  pass-decided t turn ch = go (observe t.closes ch).closed (is_over deadline idle_gap t turn)
    where
      go :
          (c o : Bool)
          → let seen = observe t.closes ch in
            let (f, rest) = try_get (put_all t.arrives seen) in
            ends_decided (
              progress_of (
                if c
                then (ends (channel_closed seen.close_reason), seen)
                else if o
                then (ends (flush turn), seen)
                else (receive f t.received_at turn, rest)))
            ≡ true
      go true o = refl
      go false true = rw (flush-decided turn)
      go false false = receive-decided _ t.received_at turn

  pass-is_end :
      (t : Tick) (turn : Turn) (ch : Channel)
      → leb deadline t.now ≡ true
      → is_end (pass deadline idle_gap t turn ch).0 ≡ true
  unfolding pass
  pass-is_end t turn ch h =
      go (observe t.closes ch).closed (is_over deadline idle_gap t turn) (rw h)
    where
      go :
          (c o : Bool)
          → o ≡ true
          → let seen = observe t.closes ch in
            let (f, rest) = try_get (put_all t.arrives seen) in
            is_end (
              progress_of (
                if c
                then (ends (channel_closed seen.close_reason), seen)
                else if o
                then (ends (flush turn), seen)
                else (receive f t.received_at turn, rest)))
            ≡ true
      go true o e = refl
      go false true e = refl
      go false false e = cc

  await_turn-decides :
      (ts : List Tick) (turn : Turn) (ch : Channel)
      → any (λ t. leb deadline t.now) ts ≡ true
      → is_waiting (await_turn deadline idle_gap ts turn ch).0 ≡ false
  unfolding await_turn ends_decided
  await_turn-decides [] turn ch h = cc
  await_turn-decides (t ∷ ts) turn ch h =
      go (pass deadline idle_gap t turn ch) (pass-decided t turn ch) (pass-is_end t turn ch)
        (λ turn' next k. await_turn-decides ts turn' next k)
    where
      go :
          (r : Progress × Channel)
          → ends_decided r.0 ≡ true
          → (leb deadline t.now ≡ true → is_end r.0 ≡ true)
          → ((turn' : Turn) (next : Channel)
              → any (λ t. leb deadline t.now) ts ≡ true
              → is_waiting (await_turn deadline idle_gap ts turn' next).0 ≡ false)
          → is_waiting (resume r.0 r.1 (await_turn deadline idle_gap ts)).0 ≡ false
      go (goes_on turn', next) d e ih = elim (Bool-cases (leb deadline t.now)) [
        | inl x ↦ cc (e x)
        | inr x ↦ ih turn' next (rw x at h)
      ]
      go (ends reply, next) d e ih = ground arith

  quiet :
      (ts : List Tick) (turn : Turn) (ch : Channel)
      → turn.heard_from_bot ≡ false
      → any (λ t. leb deadline t.now) ts ≡ false
      → any is_bot (frames_of ch ++ arrivals ts) ≡ false
      → is_timed_out (await_turn deadline idle_gap ts turn ch).0 ≡ false
  unfolding await_turn
  quiet [] turn ch h d b = refl
  quiet (t ∷ ts) turn ch h d b =
      go (pass deadline idle_gap t turn ch) (pass-Passed deadline idle_gap t turn ch)
        (λ turn' next. quiet ts turn' next)
    where
      go :
          (r : Progress × Channel)
          → Passed deadline idle_gap t turn ch r
          → ((turn' : Turn) (next : Channel)
              → turn'.heard_from_bot ≡ false
              → any (λ t. leb deadline t.now) ts ≡ false
              → any is_bot (frames_of next ++ arrivals ts) ≡ false
              → is_timed_out (await_turn deadline idle_gap ts turn' next).0 ≡ false)
          → is_timed_out (resume r.0 r.1 (await_turn deadline idle_gap ts)).0 ≡ false
      go r (shut _ next) ih = refl
      go r (over next o) ih = ground arith
      go r (took _ _ next _ (nothing _ e k) no_frame) ih =
          ih turn next h (ground arith) (rw k (rw (all_frames deadline idle_gap t ts ch, e) at b))
      go r (took _ _ next _ (first f _ e) (passed_over _ x y)) ih =
          let b' = rw (all_frames deadline idle_gap t ts ch, e) at b in
          ih turn next h (ground arith) (ground (arith, b'))
      go r (took _ _ next _ (first f _ e) (heard _ x y z)) ih =
          let b' = rw (all_frames deadline idle_gap t ts ch, e) at b in ground (arith, b')
      go r (took _ _ next _ (first f _ e) (fault _ x)) ih = refl
      go r (took _ _ next _ (first f _ e) (last _ x y z)) ih = refl

-- A turn ends: if the channel is in no other turn and some pass of the loop finds the deadline
-- reached, `started_at + timeout`, then the call has returned or raised by then.
pub send_and_await_turn-decides :
    (text : Text) (timeout idle_gap : ℕ) (failure : Option Text) (started_at : ℕ) (ts : List Tick)
    (ch : Channel)
    → ch.in_turn ≡ false
    → any (λ t. leb (started_at + timeout) t.now) ts ≡ true
    → (send_and_await_turn text timeout idle_gap failure started_at ts ch).0 ≢ waiting
unfolding send_and_await_turn after_send
send_and_await_turn-decides text timeout idle_gap (some failure) started_at ts ch e h k =
    let w : is_waiting (send_and_await_turn text timeout idle_gap (some failure) started_at ts ch).0
        ≡ false =
      rw e in
    cc (ap (λ r. is_waiting r) k)
send_and_await_turn-decides text timeout idle_gap none started_at ts ch e h k =
    let w : is_waiting (send_and_await_turn text timeout idle_gap none started_at ts ch).0 ≡ false =
      rw e (await_turn-decides (started_at + timeout) idle_gap ts (new_turn started_at) _ h) in
    cc (ap (λ r. is_waiting r) k)

-- The gap between fragments never cuts short the wait for the first one: if no pass finds the
-- deadline reached, and no frame of the bot is kept or arrives, then the turn does not time out,
-- whatever the idle gap is.
pub send_and_await_turn-patient :
    (text : Text) (timeout idle_gap : ℕ) (failure : Option Text) (started_at : ℕ) (ts : List Tick)
    (ch : Channel) (s : Option ℤ)
    → any (λ t. leb (started_at + timeout) t.now) ts ≡ false
    → any is_bot (frames_of (drain_stale ch) ++ arrivals ts) ≡ false
    → (send_and_await_turn text timeout idle_gap failure started_at ts ch).0 ≢ timed_out s
unfolding send_and_await_turn after_send drain_stale
send_and_await_turn-patient text timeout idle_gap (some failure) started_at ts ch s d b k =
    let w : is_timed_out
          (send_and_await_turn text timeout idle_gap (some failure) started_at ts ch).0
        ≡ false =
      elim (Bool-cases ch.in_turn) [ inl e ↦ rw e | inr e ↦ rw e ] in
    cc (ap (λ r. is_timed_out r) k)
send_and_await_turn-patient text timeout idle_gap none started_at ts ch s d b k =
    let w : is_timed_out (send_and_await_turn text timeout idle_gap none started_at ts ch).0
        ≡ false =
      elim (Bool-cases ch.in_turn) [
        | inl e ↦ rw e
        | inr e ↦ rw e (quiet (started_at + timeout) idle_gap ts (new_turn started_at) _ refl d b)
      ] in
    cc (ap (λ r. is_timed_out r) k)
