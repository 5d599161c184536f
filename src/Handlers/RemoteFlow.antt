-- ===== src/Handlers/RemoteFlow.antt =====
-- backend/app/agents/remote_flow_handler.py: a turn of a remote interview, over the REST client and
-- the pool of channels. `Visit` is what one look at the pool finds, and `talk` what
-- `send_and_await_turn` of a channel comes to, by the turns that have been sent before.
pub mod Spoken
pub mod Named
pub mod Turned
mod Examples
use saarathi.Common.{
  ℕ, Text, codes, Bool, true, false, ◌&&◌, Option, none, some, List, [], ◌∷◌, is_empty,
  if◌then◌else◌,
}
use saarathi.Python.{Runtime}
use saarathi.Exec.{
  Exec, Error, Outcome, returned, raises, pure, raise, ◌>>=◌, mitra_channel_closed, runtime_error,
}
use saarathi.Database.{AgentSession, awaiting_user}
use saarathi.Agents.{RemoteSpec}
use saarathi.Mitra.Channel.{BotTurn}
use saarathi.Mitra.Pool.{Pool, acquire, reacquire}
use saarathi.Mitra.Rest.{MitraRestClient, HttpRequest, Sent}
use saarathi.Mitra.Rest.Endpoints.{upsert_profile, generate_session, is_session_completed}
use saarathi.Sessions.{SessionDelta}
use saarathi.Orchestration.Finalize.{delta_to}
use saarathi.Orchestration.Recovery.{AgentTurn}
use saarathi.Orchestration.Turn.{TurnContext}

-- a turn that is sent: the channel, the text, the time limit and the gap in milliseconds
pub record Talk : Type 0 where
  pub channel : ℕ
  pub said : Text
  pub timeout_ms : ℕ
  pub idle_gap_ms : ℕ

pub record Remote : Type 0 where
  pub requests : List HttpRequest
  pub pool : Pool
  pub talks : List Talk

pub record Visit : Type 0 where
  pub alive : ℕ → Bool
  pub now : ℕ
  pub connect : AgentSession → Outcome (Unit {0})

pub record HandlerDeps : Type 0 where
  pub rt : Runtime
  pub client : MitraRestClient
  pub send : List HttpRequest → HttpRequest → Sent
  pub getenv : Text → Option Text
  pub max_channels : ℕ
  pub first_visit : Visit
  pub second_visit : Visit
  pub talk : List Talk → Talk → Outcome BotTurn

unfoldable pub on_rest : (A : Type 0) → Exec (List HttpRequest) A → Exec Remote A
on_rest A m r = ((m r.requests).0, record r { requests = (m r.requests).1 })

unfoldable pub on_pool : (A : Type 0) → Exec Pool A → Exec Remote A
on_pool A m r = ((m r.pool).0, record r { pool = (m r.pool).1 })

abbrev pub is_channel_closed : Error → Bool
is_channel_closed (mitra_channel_closed reason) = true
is_channel_closed _ = false

module _ (deps : HandlerDeps) (remote : RemoteSpec) where
  -- `_resolve_env`
  unfoldable pub resolve_env : {S : Type 0} → Text → Exec S Text
  resolve_env name = elim (deps.getenv name) [
    | none ↦ raise (runtime_error (codes "environment variable"))
    | some value ↦
        if is_empty value then raise (runtime_error (codes "environment variable")) else pure value
  ]

  -- the session with its remote names, which the first turn obtains
  unfoldable pub remote_session :
      TurnContext → AgentSession → Text → Option Text → Exec Remote AgentSession
  unfolding on_rest resolve_env upsert_profile generate_session ◌>>=◌
  remote_session ctx session bot_route (some sid) =
      pure (record session { remote_bot_route = some bot_route })
  remote_session ctx session bot_route none = do
    company ← resolve_env remote.company_env
    profile_id ←
        on_rest _
          (upsert_profile deps.rt deps.client deps.send ctx.caller.email remote.flow_name company)
    remote_sid ← on_rest _ (generate_session deps.rt deps.client deps.send)
    pure (record session {
      remote_session_id = some remote_sid;
      remote_profile_id = some profile_id;
      remote_bot_route = some bot_route;
    })

  -- the first turn has its own time limit
  abbrev pub limit_of : AgentSession → ℕ
  limit_of session = elim session.remote_session_id [
    | none ↦ remote.turn.first_turn_timeout_ms
    | some sid ↦ remote.turn.turn_timeout_ms
  ]

  unfoldable pub send_turn : Text → ℕ → ℕ → Exec Remote BotTurn
  send_turn text timeout_ms ch r =
      let said : Talk = record {
        channel = ch;
        said = text;
        timeout_ms = timeout_ms;
        idle_gap_ms = remote.turn.idle_gap_ms;
      } in
      (deps.talk r.talks said, record r { talks = said ∷ r.talks })

  -- the second attempt
  unfoldable pub send_again : AgentSession → Text → ℕ → Exec Remote BotTurn
  unfolding on_pool reacquire send_turn ◌>>=◌
  send_again sess text timeout_ms =
      on_pool _ (
        reacquire deps.max_channels deps.second_visit.alive deps.second_visit.now
          (deps.second_visit.connect sess) sess.conversation_id)
      >>= send_turn text timeout_ms

  -- `except MitraChannelClosed`
  unfoldable pub or_again :
      AgentSession → Text → ℕ → Outcome BotTurn × Remote → Outcome BotTurn × Remote
  unfolding send_again
  or_again sess text timeout_ms (returned bot, r) = (returned bot, r)
  or_again sess text timeout_ms (raises e, r) =
      let again = send_again sess text timeout_ms r in
      if is_channel_closed e then again else (raises e, r)

  unfoldable pub converse : AgentSession → Text → ℕ → Exec Remote BotTurn
  unfolding on_pool acquire send_turn or_again ◌>>=◌
  converse sess text timeout_ms =
      on_pool _ (
        acquire deps.max_channels deps.first_visit.alive deps.first_visit.now
          (deps.first_visit.connect sess) sess.conversation_id)
      >>= λ ch r. or_again sess text timeout_ms (send_turn text timeout_ms ch r)

  unfoldable pub poll : AgentSession → Exec Remote Bool
  unfolding on_rest is_session_completed
  poll sess =
      if remote.completion_poll_every_turn
      then on_rest _ (is_session_completed deps.rt deps.client deps.send sess.remote_session_id)
      else pure false

  abbrev pub delta_of : AgentSession → Text → BotTurn → SessionDelta
  delta_of sess bot_route bot = record (delta_to awaiting_user) {
    remote_session_id = sess.remote_session_id;
    remote_profile_id = sess.remote_profile_id;
    remote_flow = some remote.flow_name;
    remote_bot_route = some bot_route;
    step = bot.step;
  }

  abbrev pub turn_of : AgentSession → Text → BotTurn → Bool → AgentTurn
  turn_of sess bot_route bot done = record {
    text = bot.text;
    options = bot.options;
    session_delta = some (delta_of sess bot_route bot);
    tool_traces = [];
    terminal = done;
  }

  unfoldable pub handle_session : TurnContext → AgentSession → Exec Remote AgentTurn
  unfolding resolve_env remote_session converse poll ◌>>=◌
  handle_session ctx session = do
    bot_route ← resolve_env remote.bot_route_env
    sess ← remote_session ctx session bot_route session.remote_session_id
    bot ← converse sess ctx.text (limit_of session)
    done ← poll sess
    pure (turn_of sess bot_route bot done)

  unfoldable pub handle : TurnContext → Exec Remote AgentTurn
  unfolding handle_session
  handle ctx = elim ctx.session [
    | none ↦ raise (runtime_error (codes "no prior session row"))
    | some session ↦ handle_session ctx session
  ]
