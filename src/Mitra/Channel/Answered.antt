-- ===== src/Mitra/Channel/Answered.antt =====
-- The turn's loop against the account of `Turns`.
use mathlib.Core.List.{Memᴰ, append_assoc, append-nil}
use saarathi.Common.{
  ℕ, ◌+◌, Text, Bool, true, false, not, ◌||◌, Option, none, some, List, [], ◌∷◌, ◌++◌, ◌≡◌, refl,
  sym, ap, ◌∙◌, if◌then◌else◌,
}
use saarathi.Mitra.Frame.{Frame}
use saarathi.Mitra.Channel.{
  Channel, Tick, observe, put_all, try_get, Turn, Reply, replied, timed_out, channel_closed, concat,
  shown, bot_turn, is_nil, is_bot, is_fault, finishes, hear, Progress, ends, resume, receive, flush,
  is_over, pass, await_turn, new_turn, send_and_await_turn, after_send, drain_stale, send_failed,
  concurrent_turn, take_queued, take_pending,
}
use saarathi.Mitra.Channel.Received.{
  Got, nothing, first, try_get-Got, frames_of-put_all, frames_of-observe, Received, no_frame,
  passed_over, heard, fault, last, receive-Received,
}
use saarathi.Mitra.Channel.Turns.{
  spoken, leaked, offered, reached, goes_by, all_go_by, held, frames_of, arrivals, Answers, Fate,
  finished, flushed, silent, refused, unfinished, hears, said, chose, marked, stepped,
}
use saarathi.Mitra.Channel.Turns

ap_shown : {a b : Text} {x y : Bool} → a ≡ b → x ≡ y → shown a x ≡ shown b y
ap_shown e h = rw (e, h)

-- a frame that goes by, before what follows it
Fate-cons :
    (turn : Turn) (f : Frame) (now : ℕ) (frames : List Frame) (c : Text → Type 0) (r : Reply)
    → goes_by f ≡ true
    → Fate (hears turn f now) frames c r
    → Fate turn (f ∷ frames) c r
unfolding all_go_by
Fate-cons turn f now frames c r g (finished taken rest h b e a n k w) =
    finished (f ∷ taken) rest h b (ap (λ l. f ∷ l) e) (rw g a) n k (record {
      text =
          w.text
          ∙ ap_shown (said turn f now (taken ++ (h ∷ []))) (marked turn f now (taken ++ (h ∷ [])));
      options = w.options ∙ chose turn f now (taken ++ (h ∷ []));
      step = w.step ∙ stepped turn f now (taken ++ (h ∷ []));
    })
Fate-cons turn f now frames c r g (flushed taken rest b e a w) =
    flushed (f ∷ taken) rest b (ap (λ l. f ∷ l) e) (rw g a) (record {
      text = w.text ∙ ap_shown (said turn f now taken) (marked turn f now taken);
      options = w.options ∙ chose turn f now taken;
      step = w.step ∙ stepped turn f now taken;
    })
Fate-cons turn f now frames c r g (silent taken rest s e a x y z) =
    silent (f ∷ taken) rest s (ap (λ l. f ∷ l) e) (rw g a) (sym (said turn f now taken) ∙ x)
      (sym (marked turn f now taken) ∙ y) (z ∙ stepped turn f now taken)
Fate-cons turn f now frames c r g (refused taken rest h e a k) =
    refused (f ∷ taken) rest h (ap (λ l. f ∷ l) e) (rw g a) k
Fate-cons turn f now frames c r g (Turns.closed reason k) = Turns.closed reason k
Fate-cons turn f now frames c r g unfinished = unfinished

hears_nothing : (turn : Turn) (f : Frame) (now : ℕ) → is_bot f ≡ false → hears turn f now ≡ turn
unfolding hears
hears_nothing turn f now e = rw e

hears_bot :
    (turn : Turn) (f : Frame) (now : ℕ) → is_bot f ≡ true → hears turn f now ≡ hear f now turn
unfolding hears
hears_bot turn f now e = rw e

or_false : (b : Bool) → b ≡ (b || false)
or_false true = refl
or_false false = refl

Answers-nothing : (turn : Turn) → Answers turn [] (bot_turn turn)
unfolding bot_turn spoken leaked offered reached
Answers-nothing turn = record {
  text = ap_shown (sym (append-nil (concat turn.chunks))) (or_false turn.saw_control_payload);
  options = refl;
  step = refl;
}

-- the turn is flushed with nothing taken
flush-Fate :
    (turn : Turn) (frames : List Frame) (c : Text → Type 0) → Fate turn frames c (flush turn)
unfolding flush spoken leaked offered reached all_go_by concat
flush-Fate turn frames k = go turn.chunks refl turn.saw_control_payload refl
  where
    go :
        (chunks : List Text)
        → turn.chunks ≡ chunks
        → (c : Bool) → turn.saw_control_payload ≡ c
        → Fate turn frames k
            (if not (is_nil chunks) || c then replied (bot_turn turn) else timed_out turn.step)
    go [] e true h = flushed [] frames (bot_turn turn) refl refl (Answers-nothing turn)
    go [] e false h = silent [] frames turn.step refl refl (rw e) (rw h) refl
    go (x ∷ xs) e c h = flushed [] frames (bot_turn turn) refl refl (Answers-nothing turn)

last-Fate :
    (turn : Turn) (f : Frame) (now : ℕ) (frames : List Frame) (k : Text → Type 0)
    → is_fault f ≡ false
    → is_bot f ≡ true
    → finishes f ≡ true
    → Fate turn (f ∷ frames) k (replied (bot_turn (hear f now turn)))
unfolding bot_turn all_go_by spoken leaked offered reached
last-Fate turn f now frames k a b c =
    finished [] frames f (bot_turn (hear f now turn)) refl refl a (rw (b, c)) (record {
      text =
          ap_shown
            (sym (append-nil _)
              ∙ (ap (λ x. concat x.chunks ++ []) (sym (hears_bot turn f now b))
                  ∙ said turn f now []))
            (or_false _
              ∙ (ap (λ x. x.saw_control_payload || false) (sym (hears_bot turn f now b))
                  ∙ marked turn f now []));
      options = ap (λ x. x.options) (sym (hears_bot turn f now b)) ∙ chose turn f now [];
      step = ap (λ x. x.step) (sym (hears_bot turn f now b)) ∙ stepped turn f now [];
    })

module _ (deadline idle_gap : ℕ) where
  -- What a pass of the loop comes to.
  pub data Passed (t : Tick) (turn : Turn) (ch : Channel) : Progress × Channel → Type 0 where
    shut :
        (observe t.closes ch).closed ≡ true
        → (next : Channel)
        → Passed t turn ch (ends (channel_closed (observe t.closes ch).close_reason), next)
    over :
        (next : Channel)
        → is_over deadline idle_gap t turn ≡ true
        → Passed t turn ch (ends (flush turn), next)
    took :
        (f : Option Frame) (p : Progress) (next : Channel)
        → next.closed ≡ false
        → Got (put_all t.arrives (observe t.closes ch)) (f, next)
        → Received turn t.received_at f p
        → Passed t turn ch (p, next)

  try_get-closed : (ch : Channel) → (try_get ch).1.closed ≡ ch.closed
  unfolding try_get
  try_get-closed ch = go ch.pending ch.queue
    where
      taken : (q : List Frame) → (take_queued q ch).1.closed ≡ ch.closed
      taken [] = refl
      taken (f ∷ q) = refl

      go : (p : Option Frame) (q : List Frame) → (take_pending p ch).1.closed ≡ ch.closed
      go (some f) q = refl
      go none q = taken ch.queue

  pub pass-Passed :
      (t : Tick) (turn : Turn) (ch : Channel) → Passed t turn ch (pass deadline idle_gap t turn ch)
  unfolding pass
  pass-Passed t turn ch =
      go (observe t.closes ch).closed refl (is_over deadline idle_gap t turn) refl
    where
      go :
          (c : Bool)
          → (observe t.closes ch).closed ≡ c
          → (o : Bool) → is_over deadline idle_gap t turn ≡ o
          → let seen = observe t.closes ch in
            let (f, rest) = try_get (put_all t.arrives seen) in
            Passed t turn ch (
              if c
              then (ends (channel_closed seen.close_reason), seen)
              else if o
              then (ends (flush turn), seen)
              else (receive f t.received_at turn, rest))
      go true k o e = shut k _
      go false k true e = over _ e
      go false k false e =
          took _ _ _ (try_get-closed (put_all t.arrives (observe t.closes ch)) ∙ k)
            (try_get-Got (put_all t.arrives (observe t.closes ch)))
            (receive-Received turn t.received_at _)

  pub all_frames :
      (t : Tick) (ts : List Tick) (ch : Channel)
      → frames_of ch ++ arrivals (t ∷ ts)
        ≡ frames_of (put_all t.arrives (observe t.closes ch)) ++ arrivals ts
  all_frames t ts ch =
      rw (frames_of-put_all t.arrives (observe t.closes ch), frames_of-observe t.closes ch)
        (sym (append_assoc (frames_of ch) t.arrives (arrivals ts)))

  frame-Fate :
      (turn : Turn) (now : ℕ) (f : Frame) (p : Progress) (frames : List Frame) (next : Channel)
      (c : Text → Type 0) (k : Turn → Channel → Reply × Channel)
      → Received turn now (some f) p
      → ((turn' : Turn) → Fate turn' frames c (k turn' next).0)
      → Fate turn (f ∷ frames) c (resume p next k).0
  unfolding all_go_by
  frame-Fate turn now f p frames next r k (passed_over _ a b) ih =
      Fate-cons turn f now frames r _ (rw (a, b)) (rw (hears_nothing turn f now b) (ih turn))
  frame-Fate turn now f p frames next r k (heard _ a b c) ih =
      Fate-cons turn f now frames r _ (rw (a, b, c))
        (rw (hears_bot turn f now b) (ih (hear f now turn)))
  frame-Fate turn now f p frames next r k (fault _ a) ih = refused [] frames f refl refl a
  frame-Fate turn now f p frames next r k (last _ a b c) ih = last-Fate turn f now frames r a b c

  -- the reasons that a turn may find the channel closed for
  abbrev pub Closing : (Text → Type 0) → Channel → List Tick → Type 0
  Closing c ch ts =
      (ch.closed ≡ true → c ch.close_reason)
      × ((t : Tick) → Memᴰ t ts → (reason : Text) → t.closes ≡ some reason → c reason)

  seen_closed :
      (c : Text → Type 0) (t : Tick) (ts : List Tick) (ch : Channel)
      → Closing c ch (t ∷ ts)
      → (observe t.closes ch).closed ≡ true
      → c (observe t.closes ch).close_reason
  seen_closed c t ts ch (before, during) h = go t.closes refl h
    where
      go :
          (o : Option Text)
          → t.closes ≡ o
          → (observe o ch).closed ≡ true
          → c (observe o ch).close_reason
      go none e h = before h
      go (some reason) e h = during t (Memᴰ.head refl) reason e

  pass-Fate :
      (c : Text → Type 0) (t : Tick) (ts : List Tick) (turn : Turn) (ch : Channel)
      (r : Progress × Channel) (k : Turn → Channel → Reply × Channel)
      → Closing c ch (t ∷ ts)
      → Passed t turn ch r
      → ((turn' : Turn) (ch' : Channel)
          → Closing c ch' ts
          → Fate turn' (frames_of ch' ++ arrivals ts) c (k turn' ch').0)
      → Fate turn (frames_of ch ++ arrivals (t ∷ ts)) c (resume r.0 r.1 k).0
  pass-Fate c t ts turn ch r k cl (shut h next) ih = Turns.closed _ (seen_closed c t ts ch cl h)
  pass-Fate c t ts turn ch r k cl (over next _) ih = flush-Fate turn _ c
  pass-Fate c t ts turn ch r k (before, during) (took _ p next o (nothing _ e h) no_frame) ih =
      let cl : Closing c next ts = (λ x. cc, λ t' m. during t' (Memᴰ.tail m)) in
      rw (all_frames t ts ch, e) (rw h at (ih turn next cl))
  pass-Fate c t ts turn ch r k (before, during) (took _ p next o (first f _ e) rec) ih =
      let cl : Closing c next ts = (λ x. cc, λ t' m. during t' (Memᴰ.tail m)) in
      rw (all_frames t ts ch, e)
        (frame-Fate turn t.received_at f p _ next c k rec (λ turn'. ih turn' next cl))

  pub await_turn-Fate :
      (c : Text → Type 0) (ts : List Tick) (turn : Turn) (ch : Channel)
      → Closing c ch ts
      → Fate turn (frames_of ch ++ arrivals ts) c (await_turn deadline idle_gap ts turn ch).0
  unfolding await_turn
  await_turn-Fate c [] turn ch cl = unfinished
  await_turn-Fate c (t ∷ ts) turn ch cl =
      pass-Fate c t ts turn ch (pass deadline idle_gap t turn ch) (await_turn deadline idle_gap ts)
        cl (pass-Passed t turn ch) (await_turn-Fate c ts)

-- The reason for which the channel is closed: it was when the turn began, or the socket closes in a
-- pass of the loop.
pub data ClosedFor (ch : Channel) (ts : List Tick) : Text → Type 0 where
  at_first : ch.closed ≡ true → ClosedFor ch ts ch.close_reason
  in_pass : (t : Tick) (reason : Text) → Memᴰ t ts → t.closes ≡ some reason → ClosedFor ch ts reason

-- What a turn comes to, by what sending the message has raised.
pub data Ended (ch : Channel) (ts : List Tick) (started_at : ℕ) : Option Text → Reply → Type 0 where
  unsent : (failure : Text) → Ended ch ts started_at (some failure) (send_failed failure)
  answered :
      (r : Reply)
      → Fate (new_turn started_at) (frames_of (drain_stale ch) ++ arrivals ts) (ClosedFor ch ts) r
      → Ended ch ts started_at none r

-- The reply of a turn is made of the frames that it takes: a first part, in order and without a gap,
-- of the frame that the handshake has kept and of those that arrive after the message is sent; what
-- was left in the queue from before is dropped. The reply has the texts of the bot's frames among
-- them joined (or the re-prompt, if there is no text but a leaked payload), the options of the last
-- of these that has any, and the step of the last; echoes of the user and frames of other sources
-- add nothing. A turn goes past no finish reason and no fault of the service: it returns at the
-- first, and raises the text of the second. It times out only if the frames taken from the bot have
-- no text and leak no payload. It raises that the channel is closed only with the reason for which it
-- was when the turn began, or closes during the turn. If sending the message fails, then what sending
-- has raised is raised, and nothing is awaited.
pub send_and_await_turn-Fate :
    (text : Text) (timeout idle_gap : ℕ) (failure : Option Text) (started_at : ℕ) (ts : List Tick)
    (ch : Channel)
    → ch.in_turn ≡ false
    → Ended ch ts started_at failure
        (send_and_await_turn text timeout idle_gap failure started_at ts ch).0
unfolding send_and_await_turn after_send drain_stale
send_and_await_turn-Fate text timeout idle_gap (some failure) started_at ts ch e =
    rw e (unsent failure)
send_and_await_turn-Fate text timeout idle_gap none started_at ts ch e = go ch.in_turn e
  where
    sent : Channel
    sent = record (drain_stale ch) { in_turn = true; sent = ch.sent ++ (text ∷ []) }

    go :
        (b : Bool)
        → b ≡ false
        → let after = after_send none timeout idle_gap started_at ts sent in
          let r : Reply × Channel =
            if b then (concurrent_turn, ch) else (after.0, record after.1 { in_turn = false }) in
          Ended ch ts started_at none r.0
    go true h = cc
    go false h = answered _ (
        await_turn-Fate (started_at + timeout) idle_gap (ClosedFor ch ts) ts (new_turn started_at)
          sent (at_first, λ t m reason k. in_pass t reason m k))
