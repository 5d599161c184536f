-- ===== src/Orchestration/Finalize/Client.antt =====
-- The REST client as the orchestration uses it.
use saarathi.Common.{ℕ, Text, Bool, List, []}
use saarathi.Python.{Runtime}
use saarathi.Exec.{Outcome, returned, raises}
use saarathi.Mitra.Rest.{MitraRestClient, HttpRequest, Sent}
use saarathi.Mitra.Rest.Endpoints.{is_session_completed, recent_chat}
use saarathi.Mitra.Rest.Stories.{finalize, get_report}
use saarathi.Orchestration.Finalize.{Rest}

-- the default of `tail`
abbrev pub default_tail : ℕ
default_tail = 10

abbrev story_id_of : Outcome (Text × Text) → Outcome Text
story_id_of (returned r) = returned r.0
story_id_of (raises e) = raises e

-- each call with the requests that are sent by it alone
unfoldable pub rest_of :
    Runtime → (Text → Bool) → MitraRestClient → (List HttpRequest → HttpRequest → Sent) → Rest
unfolding finalize get_report is_session_completed recent_chat
rest_of rt netloc_ok client send = record {
  submit_story = λ s. story_id_of (finalize rt client send s []).0;
  report_url_of =
      λ session_id media_type. (get_report rt client send netloc_ok session_id media_type []).0;
  session_completed = λ session_id. (is_session_completed rt client send session_id []).0;
  chat_rows =
      λ session_id profile_id. (recent_chat rt client send session_id profile_id default_tail []).0;
}
