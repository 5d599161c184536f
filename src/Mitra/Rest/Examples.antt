-- ===== src/Mitra/Rest/Examples.antt =====
-- Tests of the REST client, and its theorems at a concrete service.
use saarathi.Common.{ℕ, Text, codes, false, none, some, List, [], ◌∷◌, ◌≡◌, refl, text_eq, decimal}
use saarathi.Python.{Json, str, int, pos, list, nil, cons, dict, field, end}
use saarathi.Python.Ascii.{ascii}
use saarathi.Python.Conversions.{int_text}
use saarathi.Exec.{returned, raises, mitra_ssrf_error, runtime_error}
use saarathi.Mitra.Rest.{
  HttpRequest, Sent, response, allowed_from, extra_hosts, validate_url, extract_error_detail,
}
use saarathi.Mitra.Rest.Sample.{sample_client, any_netloc}
use saarathi.Mitra.Rest.Stories.{Submission, finalize, get_report}
use saarathi.Mitra.Rest.Trusted.{Reported, get_report-Reported}

abbrev answers : ℕ → Json → List HttpRequest → HttpRequest → Sent
answers status v log r = response (record { status = status; json = some v })

abbrev failing : Json
failing = dict (
    field (codes "error_message") (str (codes "no flow"))
      (field (codes "detail") (str (codes "key")) end))

test_hosts :
    allowed_from ascii any_netloc (codes "https://user@H.org:8/x") (codes " Files.org " ∷ [] ∷ [])
    ≡ returned (codes "h.org" ∷ codes "files.org" ∷ [])
unfolding allowed_from
test_hosts = refl

test_setting :
    extra_hosts ascii any_netloc (codes "a.org, b.org,") ≡ codes "a.org" ∷ codes "b.org" ∷ []
unfolding extra_hosts
test_setting = refl

test_http :
    validate_url ascii any_netloc sample_client (codes "http://h.org/r") ≡ raises mitra_ssrf_error
unfolding validate_url
test_http = refl

test_inside :
    validate_url ascii any_netloc sample_client (codes "https://10.0.0.1/r")
    ≡ raises mitra_ssrf_error
unfolding validate_url
test_inside = refl

test_bracket :
    validate_url ascii any_netloc sample_client (codes "https://[h.org/r")
    ≡ raises (runtime_error (codes "ValueError"))
unfolding validate_url
test_bracket = refl

test_detail : extract_error_detail ascii sample_client (some failing) ≡ some (codes "no flow | key")
unfolding extract_error_detail text_eq
test_detail = refl

test_reflected :
    extract_error_detail ascii sample_client
      (some (dict (field (codes "detail") (str (codes "origin https://key")) end)))
    ≡ none
unfolding extract_error_detail text_eq
test_reflected = refl

abbrev submission : Submission
submission = record {
  session_id = some (codes "s");
  profile_id = some (codes "p");
  flow = codes "guest-story";
  language = codes "en";
  token = some (codes "jwt");
  path = codes "/api/end-story/v2";
  as_guest = false;
}

abbrev story : Json
story = dict (field (codes "id") (int (pos 12)) end)

test_story :
    (finalize ascii sample_client (answers 200 story) submission []).0 ≡ returned (codes "12", [])
unfolding finalize int_text decimal
test_story = refl

abbrev entry : Text → Text → Json
entry media_type url =
    dict (field (codes "media_type") (str media_type) (field (codes "public_url") (str url) end))

abbrev report : Json
report = dict (
    field (codes "results")
      (list (
        cons
          (dict (
            field (codes "story_media")
              (list (
                cons (entry (codes "image/png") (codes "http://10.0.0.1/a"))
                  (cons (entry (codes "application/pdf") (codes "https://files.org/b")) nil)))
              end))
          nil))
      end)

test_report :
    (get_report ascii sample_client
      (answers 200 report)
      any_netloc
      (some (codes "s"))
      (codes "application/pdf")
      []).0
    ≡ returned (some (codes "https://files.org/b"))
unfolding get_report
test_report = refl

get_report-Reported_example :
    Reported ascii any_netloc sample_client
      (answers 200 report)
      (some (codes "s"))
      (codes "application/pdf")
      []
      (get_report ascii sample_client
        (answers 200 report)
        any_netloc
        (some (codes "s"))
        (codes "application/pdf")
        []).0
get_report-Reported_example =
    get_report-Reported ascii any_netloc sample_client (answers 200 report) (some (codes "s"))
      (codes "application/pdf") []
