-- ===== src/Mitra/Channel/Examples.antt =====
-- Tests of a turn, and its theorems at a concrete schedule.
use saarathi.Common.{
  ℕ, codes, false, none, some, List, [], ◌∷◌, ◌++◌, ◌≡◌, ◌≢◌, refl, text_eq, mem_text, String,
}
use saarathi.Python.{pos}
use saarathi.Mitra.Frame.{Frame, frame, bot_chunk, bot_final, user_echo}
use saarathi.Mitra.Channel.{
  Channel, Tick, replied, timed_out, waiting, channel_closed, is_bot, drain_stale,
  send_and_await_turn,
}
use saarathi.Mitra.Channel.Turns.{frames_of, arrivals}
use saarathi.Mitra.Channel.Answered.{Ended, send_and_await_turn-Fate}
use saarathi.Mitra.Channel.Handshake.{settled, refused, Keeps, authenticate, authenticate-Keeps}
use saarathi.Mitra.Channel.Settled.{is_dead, authenticate-is_dead}
use saarathi.Mitra.Channel.Timing.{any, send_and_await_turn-decides, send_and_await_turn-patient}

abbrev echo : Frame
echo = record (frame user_echo) { source = codes "user"; msg = codes "hello" }

abbrev chunk : String → Frame
chunk text = record (frame bot_chunk) { source = codes "bot"; msg = codes text; step = pos 2 }

abbrev final : String → Frame
final text = record (frame bot_final) {
  source = codes "bot";
  msg = codes text;
  step = pos 3;
  finish_reason = some (codes "stop");
}

abbrev channel : Channel
channel = record {
  queue = chunk "stale" ∷ [];
  pending = none;
  closed = false;
  close_reason = [];
  in_turn = false;
  sent = [];
}

abbrev tick : ℕ → List Frame → Tick
tick now arrives = record {
  closes = none;
  now = now;
  now_again = now;
  arrives = arrives;
  received_at = now;
}

abbrev schedule : List Tick
schedule = tick 10 (echo ∷ []) ∷ tick 60 (chunk "Wel" ∷ []) ∷ tick 70 (final "come" ∷ []) ∷ []

-- the echo and the stale frame are dropped, and the fragments joined
test_turn :
    (send_and_await_turn (codes "hello") 100 20 none 0 schedule channel).0
    ≡ replied (record { text = codes "Welcome"; options = []; step = some (pos 3) })
unfolding send_and_await_turn text_eq
test_turn = refl

-- the first fragment may take longer than the gap; a later one may not
test_gap :
    (send_and_await_turn
      (codes "hello")
      100
      20
      none
      0
      (tick 60 (chunk "Wel" ∷ []) ∷ tick 81 [] ∷ [])
      channel).0
    ≡ replied (record { text = codes "Wel"; options = []; step = some (pos 2) })
unfolding send_and_await_turn text_eq
test_gap = refl

test_timeout :
    (send_and_await_turn
      (codes "hello")
      100
      20
      none
      0
      (tick 60 (echo ∷ []) ∷ tick 100 [] ∷ [])
      channel).0
    ≡ timed_out none
unfolding send_and_await_turn text_eq
test_timeout = refl

test_closed :
    (send_and_await_turn
      (codes "hello")
      100
      20
      none
      0
      (record (tick 60 (final "late" ∷ [])) { closes = some (codes "gone") } ∷ [])
      channel).0
    ≡ channel_closed (codes "gone")
unfolding send_and_await_turn
test_closed = refl

send_and_await_turn-Fate_example :
    Ended channel schedule 0 none
      (send_and_await_turn (codes "hello") 100 20 none 0 schedule channel).0
send_and_await_turn-Fate_example =
    send_and_await_turn-Fate (codes "hello") 100 20 none 0 schedule channel refl

send_and_await_turn-decides_example :
    (send_and_await_turn (codes "hello") 100 20 none 0 (tick 60 [] ∷ tick 100 [] ∷ []) channel).0
    ≢ waiting
send_and_await_turn-decides_example =
    send_and_await_turn-decides (codes "hello") 100 20 none 0 (tick 60 [] ∷ tick 100 [] ∷ [])
      channel refl refl

test_no_bot :
    any is_bot (frames_of (drain_stale channel) ++ arrivals (tick 90 (echo ∷ []) ∷ [])) ≡ false
unfolding text_eq drain_stale
test_no_bot = refl

send_and_await_turn-patient_example :
    (send_and_await_turn (codes "hello") 100 20 none 0 (tick 90 (echo ∷ []) ∷ []) channel).0
    ≢ timed_out none
send_and_await_turn-patient_example =
    send_and_await_turn-patient (codes "hello") 100 20 none 0 (tick 90 (echo ∷ []) ∷ []) channel
      none refl test_no_bot

abbrev fresh : Channel
fresh = record channel { queue = [] }

abbrev opening : List Tick
opening = tick 5 (echo ∷ []) ∷ tick 20 (chunk "Hello" ∷ chunk "again" ∷ []) ∷ []

-- the echo goes, and the bot's first frame is kept for the turn
test_opening : authenticate (codes "auth" ∷ []) [] 500 none 0 opening fresh ≡ (
  settled,
  record fresh { queue = chunk "again" ∷ []; pending = some (chunk "Hello"); sent = [] ∷ [] },
)
unfolding authenticate text_eq mem_text
test_opening = refl

abbrev dying : List Tick
dying = record (tick 500 []) { closes = some (codes "gone") } ∷ []

-- a socket that dies while the window runs out is noticed
test_dying : (authenticate (codes "auth" ∷ []) [] 500 none 0 dying fresh).0 ≡ refused (codes "gone")
unfolding authenticate
test_dying = refl

authenticate-Keeps_example :
    Keeps
      (codes "auth" ∷ [])
      (frames_of fresh ++ arrivals opening)
      (authenticate (codes "auth" ∷ []) [] 500 none 0 opening fresh).1
authenticate-Keeps_example = authenticate-Keeps (codes "auth" ∷ []) [] 500 none 0 opening fresh

authenticate-is_dead_example :
    is_dead (authenticate (codes "auth" ∷ []) [] 500 none 0 dying fresh) ≡ false
authenticate-is_dead_example = authenticate-is_dead (codes "auth" ∷ []) [] 500 none 0 dying fresh
