-- ===== src/Mitra/Rest.antt =====
-- backend/app/integrations/mitra/rest_client.py: the client, one request of it and the check of a
-- URL. Sending is the parameter `send`, which may depend on the requests sent before, the last one
-- first; a request is kept with what `requests.Session.request` is given.
pub mod Endpoints
pub mod Stories
pub mod Detail
pub mod Token
pub mod Found
pub mod Trusted
pub mod Sample
mod Examples
use saarathi.Common.{
  ℕ, ◌∷◌, Text, codes, Bool, true, false, not, ◌&&◌, Option, none, some, List, [], ◌++◌, map, keep,
  take, is_empty, strip, strip_chars, text_eq, mem_text, contains, join, ltrim, is_space, is_prefix,
  leb, ltb, ◌==◌, if◌then◌else◌,
}
use saarathi.Python.{Json, null, dict, Fields, Runtime, get, truthy}
use saarathi.Python.Conversions.{str_of}
use saarathi.Python.Urls.{urlsplit, hostname, split_at, SplitResult}
use saarathi.Exec.{
  Exec, Error, Outcome, returned, raises, pure, raise, ◌>>=◌, mitra_redirect, mitra_http_error,
  mitra_error, mitra_ssrf_error, runtime_error,
}

pub record MitraPaths : Type 0 where
  pub profile : Text
  pub generate_session : Text
  pub chat : Text
  pub get_story : Text
  pub finalize_v1 : Text
  pub finalize_v2 : Text

-- `path.strip("/")`
abbrev pub strip_slashes : Text → Text
unfolding strip_chars ltrim
strip_slashes = strip_chars (λ c. c == b'/')

unfoldable pub is_v2_finalize : MitraPaths → Text → Bool
unfolding strip_slashes text_eq
is_v2_finalize paths path = text_eq (strip_slashes path) (strip_slashes paths.finalize_v2)

unfoldable pub is_known_finalize : MitraPaths → Text → Bool
unfolding strip_slashes mem_text
is_known_finalize paths path =
    mem_text (strip_slashes path)
      (strip_slashes paths.finalize_v1 ∷ strip_slashes paths.finalize_v2 ∷ [])

-- `_fixed_headers` is the origin and the user agent.
pub record MitraRestClient : Type 0 where
  pub base_url : Text
  pub origin : Text
  pub user_agent : Text
  pub allowed_hosts : List Text
  pub paths : MitraPaths

-- `mitra_paths` are the six settings of `paths_from_settings`.
pub record MitraSettings : Type 0 where
  pub mitra_base_url : Text
  pub mitra_origin_url : Text
  pub mitra_user_agent : Text
  pub mitra_allowed_hosts : Text
  pub mitra_paths : MitraPaths

-- `s.rstrip("/")`
unfoldable pub rstrip_slashes : Text → Text
rstrip_slashes [] = []
rstrip_slashes (c ∷ s) =
    let rest = rstrip_slashes s in if is_empty rest && (c == b'/') then [] else c ∷ rest

pub record HttpRequest : Type 0 where
  pub method : Text
  pub url : Text
  -- `json=`, `params=` and `headers=`; without a body the first is None
  pub body : Json
  pub params : List (Text × Json)
  pub headers : List (Text × Text)

pub record HttpResponse : Type 0 where
  pub status : ℕ
  -- what `response.json()` gives, if it does not raise
  pub json : Option Json

pub data Sent : Type 0 where
  response : HttpResponse → Sent
  -- a `RequestException`, or another one
  request_exception : Sent
  other_exception : Error → Sent

-- the exceptions of `v.get(…)` and `v[…]` on a value of another type
abbrev pub type_error : Error
type_error = runtime_error (codes "AttributeError, TypeError or KeyError")

abbrev pub value_error : Error
value_error = runtime_error (codes "ValueError")

abbrev pub fields_of : {S : Type 0} → Json → Exec S Fields
fields_of (dict fs) = pure fs
fields_of _ = raise type_error

-- 3xx, and `not response.ok`
abbrev pub is_redirect : ℕ → Bool
is_redirect status = leb 300 status && ltb status 400

abbrev pub is_failure : ℕ → Bool
is_failure status = leb 400 status && ltb status 600

unfoldable pub non_blank : Text → Bool
unfolding strip
non_blank host = not (is_empty (strip host))

abbrev pub detail_keys : List Text
detail_keys = codes "error_message" ∷ codes "error_type" ∷ codes "detail" ∷ []

-- no text without a part, and none that has the credential in it
unfoldable pub screened : Text → Text → Option Text
unfolding contains
screened origin detail =
    if is_empty detail
    then none
    else if not (is_empty origin) && contains origin detail
    then none
    else some detail

module _ (rt : Runtime) where
  abbrev trimmed : Text → Text
  unfolding strip
  trimmed host = rt.lower (strip host)

  abbrev part : Fields → Text → Text
  unfolding get str_of
  part fs key = str_of rt (get key fs)

  abbrev is_given : Fields → Text → Bool
  unfolding get truthy
  is_given fs key = truthy (get key fs)

  unfoldable pub detail_of : Fields → Text
  unfolding keep join part is_given
  detail_of fs = take 300 (join (codes " | ") (map (part fs) (keep (is_given fs) detail_keys)))

  unfoldable pub extract_error_detail : MitraRestClient → Option Json → Option Text
  unfolding detail_of screened
  extract_error_detail client (some (dict fs)) = screened client.origin (detail_of fs)
  extract_error_detail client _ = none

  -- `_request` after the call of `requests`
  unfoldable pub judge : MitraRestClient → Sent → Outcome Json
  unfolding extract_error_detail
  judge client request_exception = raises (mitra_error (codes "network error"))
  judge client (other_exception e) = raises e
  judge client (response r) =
      if is_redirect r.status
      then raises (mitra_redirect r.status)
      else if is_failure r.status
      then raises (mitra_http_error r.status (extract_error_detail client r.json))
      else elim r.json [ none ↦ raises (mitra_error (codes "non-JSON body")) | some v ↦ returned v ]

  module _ (netloc_ok : Text → Bool) where
    -- the host names of `__init__`
    unfoldable pub allowed_from : Text → List Text → Outcome (List Text)
    unfolding urlsplit hostname trimmed non_blank keep
    allowed_from base_url extra = elim (urlsplit rt netloc_ok base_url) [
      | none ↦ raises value_error
      | some r ↦ returned (map trimmed (keep non_blank (hostname rt netloc_ok r ∷ extra)))
    ]

    -- `mitra_allowed_hosts.split(",")` in `from_settings`
    unfoldable pub extra_hosts : Text → List Text
    unfolding split_at non_blank strip keep
    extra_hosts setting = map strip (keep non_blank (split_at b',' setting))

    -- the part of the settings that `from_settings` reads, without the time limits
    unfoldable pub from_settings : MitraSettings → Outcome MitraRestClient
    unfolding allowed_from extra_hosts rstrip_slashes
    from_settings settings =
        elim (allowed_from settings.mitra_base_url (extra_hosts settings.mitra_allowed_hosts)) [
          | raises e ↦ raises e
          | returned hosts ↦ returned (record {
            base_url = rstrip_slashes settings.mitra_base_url;
            origin = settings.mitra_origin_url;
            user_agent = settings.mitra_user_agent;
            allowed_hosts = hosts;
            paths = settings.mitra_paths;
          })
        ]

    unfoldable pub trusts : MitraRestClient → SplitResult → Bool
    unfolding text_eq mem_text hostname
    trusts client r =
        text_eq r.scheme (codes "https")
        && mem_text (rt.lower (hostname rt netloc_ok r)) client.allowed_hosts

    unfoldable pub validate_url : MitraRestClient → Text → Outcome (Unit {0})
    unfolding urlsplit trusts
    validate_url client url = elim (urlsplit rt netloc_ok url) [
      | none ↦ raises value_error
      | some r ↦ if trusts client r then returned tt else raises mitra_ssrf_error
    ]

module _ (rt : Runtime) (client : MitraRestClient)
    (send : List HttpRequest → HttpRequest → Sent) where
  unfoldable pub request :
      Text → Text → Json → List (Text × Json) → List (Text × Text) → Exec (List HttpRequest) Json
  unfolding judge
  request method path body params headers log =
      let sent : HttpRequest = record {
        method = method;
        url = client.base_url ++ path;
        body = body;
        params = params;
        headers = headers;
      } in
      (judge rt client (send log sent), sent ∷ log)
