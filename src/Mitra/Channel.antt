-- ===== src/Mitra/Channel.antt =====
-- backend/app/integrations/mitra/ws_channel.py: one socket, its queue of parsed frames, and a turn.
-- The reader thread and the clock are a schedule: a `Tick` is what one pass of a loop finds of
-- them. A time is a natural number of milliseconds.
pub mod Turns
pub mod Received
pub mod Answered
pub mod Timing
pub mod Handshake
pub mod Settled
mod Examples
use saarathi.Common.{
  ℕ, suc, ◌+◌, Text, codes, Bool, true, false, not, ◌&&◌, ◌||◌, Option, none, some, List, [], ◌∷◌,
  ◌++◌, is_empty, leb, text_eq, mem_text, String, if◌then◌else◌,
}
use saarathi.Python.{ℤ}
use saarathi.Mitra.Frame.{Frame, ParsedOption}

pub record Channel : Type 0 where
  pub queue : List Frame
  pub pending : Option Frame
  pub closed : Bool
  pub close_reason : Text
  pub in_turn : Bool
  pub sent : List Text

-- What a pass finds: whether the reader has ended by the check of `_closed`, the clock as it is
-- read twice, the frames that the reader has put into the queue when `_try_get` returns, and the
-- clock after it.
pub record Tick : Type 0 where
  pub closes : Option Text
  pub now : ℕ
  pub now_again : ℕ
  pub arrives : List Frame
  pub received_at : ℕ

abbrev pub observe : Option Text → Channel → Channel
observe none ch = ch
observe (some reason) ch = record ch { closed = true; close_reason = reason }

abbrev pub put_all : List Frame → Channel → Channel
put_all fs ch = record ch { queue = ch.queue ++ fs }

abbrev pub take_queued : List Frame → Channel → Option Frame × Channel
take_queued [] ch = (none, ch)
take_queued (f ∷ rest) ch = (some f, record ch { queue = rest })

-- `_try_get`, once the frames that arrive within its timeout are in the queue
abbrev pub take_pending : Option Frame → Channel → Option Frame × Channel
take_pending (some f) ch = (some f, record ch { pending = none })
take_pending none ch = take_queued ch.queue ch

unfoldable pub try_get : Channel → Option Frame × Channel
try_get ch = take_pending ch.pending ch

unfoldable pub pushback : Frame → Channel → Channel
pushback f ch = record ch { pending = some f }

unfoldable pub drain_stale : Channel → Channel
drain_stale ch = record ch { queue = [] }

-- `close`, with its socket
unfoldable pub close : Channel → Channel
close ch = record ch { closed = true }

abbrev pub alive : Channel → Bool
alive ch = not ch.closed

-- The variables of `send_and_await_turn`.
pub record Turn : Type 0 where
  pub chunks : List Text
  pub options : List ParsedOption
  pub step : Option ℤ
  pub saw_control_payload : Bool
  pub heard_from_bot : Bool
  pub last_rx : ℕ

pub record BotTurn : Type 0 where
  pub text : Text
  pub options : List ParsedOption
  pub step : Option ℤ

-- `replied` returns and the others raise; `waiting` is a turn that still runs when the schedule ends.
pub data Reply : Type 0 where
  replied : BotTurn → Reply
  timed_out : Option ℤ → Reply
  channel_closed : Text → Reply
  remote_error : Text → Reply
  concurrent_turn : Reply
  send_failed : Text → Reply
  waiting : Reply

unfoldable pub concat : List Text → Text
concat [] = []
concat (t ∷ ts) = t ++ concat ts

abbrev pub unreadable_turn_message : Text
unreadable_turn_message = codes "Sorry, I didn't quite catch that. Could you say it again?"

abbrev pub shown : Text → Bool → Text
shown text leaked = if is_empty text && leaked then unreadable_turn_message else text

unfoldable pub bot_turn : Turn → BotTurn
unfolding concat
bot_turn turn = record {
  text = shown (concat turn.chunks) turn.saw_control_payload;
  options = turn.options;
  step = turn.step;
}

abbrev pub is_nil {ℓ} : {A : Type ℓ} → List A → Bool
is_nil [] = true
is_nil (x ∷ xs) = false

abbrev pub from : String → Frame → Bool
from source f = text_eq f.source (codes source)

abbrev pub is_bot : Frame → Bool
is_bot f = from "bot" f

-- `f.source == "system" and f.error`
abbrev pub is_fault : Frame → Bool
is_fault f = from "system" f && not (is_empty f.error_text)

abbrev pub finishes : Frame → Bool
finishes f = elim f.finish_reason [ none ↦ false | some reason ↦ not (is_empty reason) ]

-- `msg or error`
abbrev pub fault_text : Frame → Text
fault_text f = if is_empty f.msg then f.error_text else f.msg

-- what a frame of the bot changes
unfoldable pub hear : Frame → ℕ → Turn → Turn
hear f now turn = record {
  chunks = if is_empty f.msg then turn.chunks else turn.chunks ++ (f.msg ∷ []);
  options = if is_nil f.options then turn.options else f.options;
  step = some f.step;
  saw_control_payload = turn.saw_control_payload || f.control_payload;
  heard_from_bot = true;
  last_rx = now;
}

pub data Progress : Type 0 where
  goes_on : Turn → Progress
  ends : Reply → Progress

unfoldable pub receive : Option Frame → ℕ → Turn → Progress
unfolding hear bot_turn
receive none now turn = goes_on turn
receive (some f) now turn =
    if from "user" f
    then goes_on turn
    else if is_fault f
    then ends (remote_error (fault_text f))
    else if not (is_bot f)
    then goes_on turn
    else if finishes f
    then ends (replied (bot_turn (hear f now turn)))
    else goes_on (hear f now turn)

-- at the end of the time for the turn, or of the gap after the last fragment
unfoldable pub flush : Turn → Reply
unfolding bot_turn
flush turn =
    if not (is_nil turn.chunks) || turn.saw_control_payload
    then replied (bot_turn turn)
    else timed_out turn.step

abbrev pub resume : Progress → Channel → (Turn → Channel → Reply × Channel) → Reply × Channel
resume (goes_on turn) ch rest = rest turn ch
resume (ends reply) ch rest = (reply, ch)

module _ (deadline idle_gap : ℕ) where
  -- `remaining <= 0`
  abbrev pub is_over : Tick → Turn → Bool
  is_over t turn =
      leb deadline t.now || (turn.heard_from_bot && leb (turn.last_rx + idle_gap) t.now_again)

  -- one pass of the loop
  unfoldable pub pass : Tick → Turn → Channel → Progress × Channel
  unfolding try_get receive flush
  pass t turn ch =
      let seen = observe t.closes ch in
      let (f, rest) = try_get (put_all t.arrives seen) in
      if seen.closed
      then (ends (channel_closed seen.close_reason), seen)
      else if is_over t turn
      then (ends (flush turn), seen)
      else (receive f t.received_at turn, rest)

  unfoldable pub await_turn : List Tick → Turn → Channel → Reply × Channel
  unfolding pass
  await_turn [] turn ch = (waiting, ch)
  await_turn (t ∷ ts) turn ch =
      let (progress, next) = pass t turn ch in resume progress next (await_turn ts)

abbrev pub new_turn : ℕ → Turn
new_turn now = record {
  chunks = [];
  options = [];
  step = none;
  saw_control_payload = false;
  heard_from_bot = false;
  last_rx = now;
}

-- the turn, once the socket has taken the message or not
unfoldable pub after_send : Option Text → ℕ → ℕ → ℕ → List Tick → Channel → Reply × Channel
unfolding await_turn
after_send (some failure) timeout idle_gap started_at ts ch = (send_failed failure, ch)
after_send none timeout idle_gap started_at ts ch =
    await_turn (started_at + timeout) idle_gap ts (new_turn started_at) ch

-- `failure` is what sending raises, if it does; `started_at` is the clock when the message has been
-- sent. The lock is held during the turn.
unfoldable pub send_and_await_turn :
    Text → ℕ → ℕ → Option Text → ℕ → List Tick → Channel → Reply × Channel
unfolding drain_stale after_send
send_and_await_turn text timeout idle_gap failure started_at ts ch =
    if ch.in_turn
    then (concurrent_turn, ch)
    else let sent = record (drain_stale ch) { in_turn = true; sent = ch.sent ++ (text ∷ []) } in
      let (reply, after) = after_send failure timeout idle_gap started_at ts sent in
      (reply, record after { in_turn = false })
