-- ===== src/Handlers/RemoteFlow/Turned.antt =====
-- What a turn of a remote interview comes to.
use saarathi.Common.{Text, true, some, List, ◌≡◌}
use saarathi.Exec.{Exec, Error, Outcome, returned, raises}
use saarathi.Database.{awaiting_user}
use saarathi.Agents.{RemoteSpec}
use saarathi.Mitra.Channel.{BotTurn}
use saarathi.Sessions.{SessionDelta}
use saarathi.Orchestration.Recovery.{AgentTurn}
use saarathi.Handlers.RemoteFlow.{Talk, HandlerDeps}
use saarathi.Handlers.RemoteFlow.Spoken.{Spoken}
use saarathi.Handlers.RemoteFlow.Named.{Named}

module _ (deps : HandlerDeps) (remote : RemoteSpec) (text : Text) (is_name : Text → Type 0) where
  -- the turn that is made of a reply
  pub record TurnOf (bot : BotTurn) (turn : AgentTurn) : Type 0 where
    pub same_text : turn.text ≡ bot.text
    pub same_options : turn.options ≡ bot.options
    pub delta : SessionDelta
    pub has_delta : turn.session_delta ≡ some delta
    pub waits : delta.state ≡ awaiting_user
    pub same_step : delta.step ≡ bot.step
    pub sid : Text
    pub has_sid : delta.remote_session_id ≡ some sid
    pub sid_is_name : is_name sid
    pub same_flow : delta.remote_flow ≡ some remote.flow_name

  pub data Result : Outcome BotTurn → Outcome AgentTurn → Type 0 where
    passed_on : (e : Error) → Result (raises e) (raises e)
    not_polled :
        (bot : BotTurn) (e : Error)
        → remote.completion_poll_every_turn ≡ true
        → Result (returned bot) (raises e)
    turned :
        (bot : BotTurn) (turn : AgentTurn) → TurnOf bot turn → Result (returned bot) (returned turn)

  pub data Handled (before : List Talk) : Outcome AgentTurn → List Talk → Type 0 where
    not_sent : (e : Error) → Handled before (raises e) before
    sent :
        (o : Outcome BotTurn) (talks : List Talk) (out : Outcome AgentTurn)
        → Spoken deps remote text before o talks
        → Result o out
        → Handled before out talks
