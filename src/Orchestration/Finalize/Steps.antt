-- ===== src/Orchestration/Finalize/Steps.antt =====
-- Finalisations by several requests, with other calls between the steps of each: a request claims
-- and asks for the story in one step and concludes in another.
use saarathi.Common.{true, ℕ, ◌+◌, Text, Option, none, some, List, [], ◌∷◌, ◌==◌, if◌then◌else◌}
use saarathi.Exec.{Exec, Error, Outcome, pure, ◌>>=◌}
use saarathi.Database.{AgentSession}
use saarathi.Database.Sessions.{claim_finalizing}
use saarathi.Agents.{RegisteredAgent, UserContext}
use saarathi.Sessions.Commands.{Command, run}
use saarathi.Orchestration.{World, Event, submits, closes, handles, on_db}
use saarathi.Orchestration.Finalize.{Rest, submit, conclude, finalize}

-- how often the story of a session has been asked for
unfoldable pub submissions : ℕ → List Event → ℕ
submissions i [] = 0
submissions i (submits j ∷ es) = (if j == i then 1 else 0) + submissions i es
submissions i (closes c ∷ es) = submissions i es
submissions i (handles c ∷ es) = submissions i es

-- the services of one request
pub record Services : Type 0 where
  pub error_text : Error → Text
  pub rest : Option Rest
  pub close : Option (ℕ → Outcome (Unit {0}))

pub data Step : Type 0 where
  command : Command → Step
  finalizes begins : Services → AgentSession → Option RegisteredAgent → UserContext → Step
  concludes : Services → Option RegisteredAgent → AgentSession → Outcome Text → Step

module _ (s : Services) (session : AgentSession) (agent : Option RegisteredAgent)
    (user : UserContext) where
  unfoldable pub begin_claimed : Option AgentSession → Exec World (Unit {0})
  unfolding submit ◌>>=◌
  begin_claimed none = pure tt
  begin_claimed (some claimed) =
      submit s.error_text s.rest s.close session agent user claimed >>= λ _. pure tt

  unfoldable pub begin_finalize : Exec World (Unit {0})
  unfolding on_db claim_finalizing begin_claimed ◌>>=◌
  begin_finalize = on_db _ (claim_finalizing session.id) >>= begin_claimed

unfoldable pub step : Step → World → World
unfolding run finalize begin_finalize conclude
step (command c) w = record w { db = run c w.db; in_transaction = true }
step (finalizes s session agent user) w =
    (finalize s.error_text s.rest s.close session agent user w).1
step (begins s session agent user) w = (begin_finalize s session agent user w).1
step (concludes s agent claimed answer) w =
    (conclude s.error_text s.rest s.close agent claimed answer w).1

unfoldable pub run_steps : List Step → World → World
unfolding step
run_steps [] w = w
run_steps (s ∷ rest) w = run_steps rest (step s w)
