-- ===== src/Mitra/Channel/Turns.antt =====
-- What a turn answers: the frames of the bot up to its end, each once and in order, and nothing
-- else.
use mathlib.Core.List.{append_assoc, append-nil}
use saarathi.Common.{
  ℕ, Text, Bool, true, false, not, ◌&&◌, ◌||◌, Option, none, some, List, [], ◌∷◌, ◌++◌, is_empty,
  is_empty→nil, Bool-cases, ◌≡◌, inl, inr, refl, sym, arith, if◌then◌else◌,
}
use saarathi.Python.{ℤ}
use saarathi.Mitra.Frame.{Frame, ParsedOption}
use saarathi.Mitra.Channel.{
  Channel, Tick, Turn, BotTurn, Reply, replied, timed_out, channel_closed, remote_error, waiting,
  concat, shown, is_nil, is_bot, is_fault, finishes, fault_text, hear,
}

-- the text, the options, the step and the marks of the bot's frames
unfoldable pub spoken : List Frame → Text
spoken [] = []
spoken (f ∷ fs) = if is_bot f then f.msg ++ spoken fs else spoken fs

unfoldable pub leaked : List Frame → Bool
leaked [] = false
leaked (f ∷ fs) = (is_bot f && f.control_payload) || leaked fs

unfoldable pub offered : List ParsedOption → List Frame → List ParsedOption
offered os [] = os
offered os (f ∷ fs) = offered (if is_bot f && not (is_nil f.options) then f.options else os) fs

unfoldable pub reached : Option ℤ → List Frame → Option ℤ
reached s [] = s
reached s (f ∷ fs) = reached (if is_bot f then some f.step else s) fs

-- neither ends a turn
abbrev pub goes_by : Frame → Bool
goes_by f = not (is_fault f) && not (is_bot f && finishes f)

unfoldable pub all_go_by : List Frame → Bool
all_go_by [] = true
all_go_by (f ∷ fs) = goes_by f && all_go_by fs

-- the frames that a turn can take: those of the channel and those that still arrive
abbrev pub held : Option Frame → List Frame → List Frame
held none queue = queue
held (some f) queue = f ∷ queue

abbrev pub frames_of : Channel → List Frame
frames_of ch = held ch.pending ch.queue

abbrev pub arrivals : List Tick → List Frame
arrivals [] = []
arrivals (t ∷ ts) = t.arrives ++ arrivals ts

-- The answer that the frames `taken` add up to, after what `turn` has.
pub record Answers (turn : Turn) (taken : List Frame) (b : BotTurn) : Type 0 where
  pub text :
      b.text ≡ shown (concat turn.chunks ++ spoken taken) (turn.saw_control_payload || leaked taken)
  pub options : b.options ≡ offered turn.options taken
  pub step : b.step ≡ reached turn.step taken

-- How a turn ends, by the frames that it took out of `frames`.
pub data Fate (turn : Turn) (frames : List Frame) (closes : Text → Type 0) : Reply → Type 0 where
  -- with the frame that ends it
  finished :
      (taken rest : List Frame) (f : Frame) (b : BotTurn)
      → frames ≡ taken ++ (f ∷ rest)
      → all_go_by taken ≡ true
      → is_fault f ≡ false
      → (is_bot f && finishes f) ≡ true
      → Answers turn (taken ++ (f ∷ [])) b
      → Fate turn frames closes (replied b)
  -- with what came in time
  flushed :
      (taken rest : List Frame) (b : BotTurn)
      → frames ≡ taken ++ rest
      → all_go_by taken ≡ true
      → Answers turn taken b
      → Fate turn frames closes (replied b)
  silent :
      (taken rest : List Frame) (s : Option ℤ)
      → frames ≡ taken ++ rest
      → all_go_by taken ≡ true
      → concat turn.chunks ++ spoken taken ≡ []
      → (turn.saw_control_payload || leaked taken) ≡ false
      → s ≡ reached turn.step taken
      → Fate turn frames closes (timed_out s)
  refused :
      (taken rest : List Frame) (f : Frame)
      → frames ≡ taken ++ (f ∷ rest)
      → all_go_by taken ≡ true
      → is_fault f ≡ true
      → Fate turn frames closes (remote_error (fault_text f))
  closed : (reason : Text) → closes reason → Fate turn frames closes (channel_closed reason)
  unfinished : Fate turn frames closes waiting

-- hearing frames one by one
unfoldable pub hears : Turn → Frame → ℕ → Turn
unfolding hear
hears turn f now = if is_bot f then hear f now turn else turn

concat-append : (ts us : List Text) → concat (ts ++ us) ≡ concat ts ++ concat us
unfolding concat
concat-append [] us = refl
concat-append (t ∷ ts) us = rw (concat-append ts us) (sym (append_assoc t (concat ts) (concat us)))

pub said :
    (turn : Turn) (f : Frame) (now : ℕ) (fs : List Frame)
    → concat (hears turn f now).chunks ++ spoken fs ≡ concat turn.chunks ++ spoken (f ∷ fs)
unfolding hears hear spoken concat
said turn f now fs = elim (Bool-cases (is_bot f)) [
  | inr e ↦ rw e
  | inl e ↦ elim (Bool-cases (is_empty f.msg)) [
    | inl m ↦ rw (e, m, is_empty→nil f.msg m)
    | inr m ↦
        rw (e, m, concat-append turn.chunks (f.msg ∷ []), append-nil f.msg)
          (append_assoc (concat turn.chunks) f.msg (spoken fs))
  ]
]

pub chose :
    (turn : Turn) (f : Frame) (now : ℕ) (fs : List Frame)
    → offered (hears turn f now).options fs ≡ offered turn.options (f ∷ fs)
unfolding hears hear offered
chose turn f now fs = elim (Bool-cases (is_bot f)) [
  | inr e ↦ rw e
  | inl e ↦ elim (Bool-cases (is_nil f.options)) [ inl m ↦ rw (e, m) | inr m ↦ rw (e, m) ]
]

pub marked :
    (turn : Turn) (f : Frame) (now : ℕ) (fs : List Frame)
    → ((hears turn f now).saw_control_payload || leaked fs)
      ≡ (turn.saw_control_payload || leaked (f ∷ fs))
unfolding hears hear leaked
marked turn f now fs = elim (Bool-cases (is_bot f)) [ inr e ↦ rw e | inl e ↦ rw e (ground arith) ]

pub stepped :
    (turn : Turn) (f : Frame) (now : ℕ) (fs : List Frame)
    → reached (hears turn f now).step fs ≡ reached turn.step (f ∷ fs)
unfolding hears hear reached
stepped turn f now fs = elim (Bool-cases (is_bot f)) [ inl e ↦ rw e | inr e ↦ rw e ]
