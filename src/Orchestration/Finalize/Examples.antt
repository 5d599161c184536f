-- ===== src/Orchestration/Finalize/Examples.antt =====
-- The theorems about finalisation at a concrete world.
use mathlib.Core.List.{Memᴰ}
use saarathi.Common.{
  if◌then◌else◌, ◌≤◌, codes, none, some, [], ◌∷◌, ◌≡◌, refl, or_else, text_eq, mem_text, find,
}
use saarathi.Python.Ascii.{ascii}
use saarathi.Exec.{returned, raises, mitra_http_error, runtime_error}
use saarathi.Database.{AgentSession, Conversation, failed, completed, finalizing}
use saarathi.Database.Tables.{update, updated}
use saarathi.Database.Sessions.{claim_finalizing}
use saarathi.Sessions.Sample.{session}
use saarathi.Sessions.Commands.{abandons}
use saarathi.Orchestration.Finalize.{Rest, finalize}
use saarathi.Orchestration.Finalize.Steps.{
  submissions, finalizes, begins, command, concludes, run_steps, Services,
}
use saarathi.Orchestration.Finalize.Once.{submissions-le_one}
use saarathi.Orchestration.Finalize.Stages.{url_of}
use saarathi.Orchestration.Finalize.Outcomes.{Reaches, Left, finalize-failed, finalize-completed}
use saarathi.Orchestration.Finalize.Repeated.{roll_back, finalize-repeats}
use saarathi.Orchestration.Finalize.Client.{rest_of}
use saarathi.Mitra.Rest.{HttpRequest, response}
use saarathi.Mitra.Rest.Sample.{any_netloc, sample_client}
use saarathi.Python.{Json, str, list, nil, cons, dict, field, end}
use saarathi.Orchestration.Sample.{
  remote, interview, caller, world, world-Consistent, client, closes_well, say, waiting, reporting,
}

abbrev claimed : AgentSession
claimed = session 0 1 finalizing

claim_lem : (claim_finalizing 0 world.db).0 ≡ returned (some claimed)
unfolding claim_finalizing update mem_text text_eq updated
claim_lem = refl

world-Reaches : (c : Rest) → Reaches c closes_well waiting interview remote claimed world
world-Reaches c = record {
  consistent = world-Consistent;
  won = claim_lem;
  is_remote = refl;
  closed_ok = refl;
}

abbrev services : Services
services = record {
  error_text = say;
  rest = some (client (returned (codes "story")) (returned none));
  close = closes_well;
}

submissions-le_one_example :
    submissions 0
      (run_steps
        (begins services waiting (some interview) caller
          ∷ command (abandons 7 (codes "exit") (codes "user"))
          ∷ finalizes services waiting (some interview) caller
          ∷ concludes services (some interview) claimed (returned (codes "story"))
          ∷ [])
        world).events
    ≤ 1
submissions-le_one_example =
    submissions-le_one
      (begins services waiting (some interview) caller
        ∷ command (abandons 7 (codes "exit") (codes "user"))
        ∷ finalizes services waiting (some interview) caller
        ∷ concludes services (some interview) claimed (returned (codes "story"))
        ∷ [])
      world 0 world-Consistent refl

abbrev refusing : Rest
refusing = client (raises (mitra_http_error 500 none)) (returned none)

finalize-failed_example :
    let r = finalize say (some refusing) closes_well waiting (some interview) caller world in
    (r.0 ≡ raises (mitra_http_error 500 none))
    × (row : AgentSession) × Left waiting failed row r.1.db
    × (row.error ≡ some (codes "error"))
finalize-failed_example =
    finalize-failed say refusing closes_well waiting interview remote caller claimed world
      (world-Reaches refusing) (mitra_http_error 500 none) refl

finalize-completed_example :
    let r = finalize say (some reporting) closes_well waiting (some interview) caller world in
    (row : AgentSession) × (r.0 ≡ returned row)
    × Left waiting completed row r.1.db
    × (row.result_ref ≡ some (codes "story"))
    × (row.report_url ≡ or_else (url_of (returned (some (codes "https://h/r")))) none)
    × ((conv : Conversation)
        → Memᴰ conv r.1.db.conversations
        → conv.id ≡ 7
        → conv.pinned_agent_id ≡ none)
finalize-completed_example =
    finalize-completed say reporting closes_well waiting interview remote caller claimed world
      (world-Reaches reporting) (codes "story") refl refl

-- A service that takes the story and hands out a URL that Python's `urlparse` refuses.
abbrev answer_of : HttpRequest → Json
unfolding text_eq
answer_of r =
    if text_eq r.method (codes "POST")
    then dict (field (codes "id") (str (codes "story")) end)
    else dict (
        field (codes "results")
          (list (
            cons
              (dict (
                field (codes "story_media")
                  (list (
                    cons
                      (dict (
                        field (codes "media_type") (str (codes "application/pdf"))
                          (field (codes "public_url") (str (codes "https://[h.org/r")) end)))
                      nil))
                  end))
              nil))
          end)

abbrev breaking : Rest
unfolding answer_of rest_of
breaking =
    rest_of ascii any_netloc sample_client
      (λ log r. response (record { status = 200; json = some (answer_of r) }))

finalize-repeats_example :
    let first = finalize say (some breaking) closes_well waiting (some interview) caller world in
    let again =
      finalize say
        (some breaking)
        closes_well
        waiting
        (some interview)
        caller
        (roll_back first.1) in
    (first.0 ≡ raises (runtime_error (codes "ValueError"))) × (submissions 0 again.1.events ≡ 2)
unfolding submissions breaking text_eq find
finalize-repeats_example =
    finalize-repeats say breaking closes_well waiting interview remote caller claimed
      (codes "story") refl refl world (world-Reaches breaking) refl
