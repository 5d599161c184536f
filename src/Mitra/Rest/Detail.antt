-- ===== src/Mitra/Rest/Detail.antt =====
-- What a request comes to, and what of a failed response may be shown.
use saarathi.Common.{
  ◌≤◌, ◌<◌, Text, false, not, ◌&&◌, Option, none, some, is_empty, length, contains, ◌≡◌,
}
use saarathi.Python.{Json}
use saarathi.Exec.{Error, Outcome, returned, raises, mitra_redirect, mitra_http_error, mitra_error}
use saarathi.Mitra.Rest.{
  MitraRestClient, HttpResponse, Sent, response, request_exception, other_exception, is_redirect,
  is_failure,
}

-- a detail that may be shown: short, and without the origin, which is a credential
pub record Shown (client : MitraRestClient) (detail : Text) : Type 0 where
  pub short : length detail ≤ 300
  pub no_credential : (not (is_empty client.origin) && contains client.origin detail) ≡ false

pub data ShownOrNone (client : MitraRestClient) : Option Text → Type 0 where
  hidden : ShownOrNone client none
  shown : (detail : Text) → Shown client detail → ShownOrNone client (some detail)

-- What a request comes to, by what is sent back.
pub data Answered (client : MitraRestClient) : Sent → Outcome Json → Type 0 where
  got :
      (r : HttpResponse) (v : Json)
      → is_redirect r.status ≡ false
      → is_failure r.status ≡ false
      → r.json ≡ some v
      → Answered client (response r) (returned v)
  not_json :
      (r : HttpResponse) (text : Text)
      → is_redirect r.status ≡ false
      → is_failure r.status ≡ false
      → r.json ≡ none
      → Answered client (response r) (raises (mitra_error text))
  redirected :
      (r : HttpResponse)
      → 300 ≤ r.status
      → r.status < 400
      → Answered client (response r) (raises (mitra_redirect r.status))
  failure :
      (r : HttpResponse) (detail : Option Text)
      → 400 ≤ r.status
      → r.status < 600
      → ShownOrNone client detail
      → Answered client (response r) (raises (mitra_http_error r.status detail))
  unreachable : (text : Text) → Answered client request_exception (raises (mitra_error text))
  escaped : (e : Error) → Answered client (other_exception e) (raises e)
