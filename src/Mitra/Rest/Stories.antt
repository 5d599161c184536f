-- ===== src/Mitra/Rest/Stories.antt =====
-- `finalize` and `get_report`, the two methods about the story of a session.
use saarathi.Common.{
  Text, codes, Bool, false, not, Option, none, some, List, [], ◌∷◌, ◌++◌, is_empty, text_eq,
  if◌then◌else◌,
}
use saarathi.Python.{Json, null, nil, str, list, dict, Fields, field, end, Runtime, get, truthy}
use saarathi.Python.Conversions.{str_of}
use saarathi.Exec.{Exec, Outcome, returned, raises, pure, raise, ◌>>=◌, mitra_error}
use saarathi.Mitra.Rest.{
  MitraRestClient, HttpRequest, Sent, is_v2_finalize, fields_of, type_error, validate_url,
}
use saarathi.Mitra.Rest.Endpoints.{
  Call, get_request, post_request, text_or_null, get_or, iterated, results_of,
}

-- `f"Bearer {token}"`
abbrev pub bearer : Option Text → Text
bearer none = codes "Bearer None"
bearer (some token) = codes "Bearer " ++ token

abbrev pub access_token : Bool → Option Text → Json
access_token as_guest token = if as_guest then null else text_or_null token

-- the arguments of `finalize`
pub record Submission : Type 0 where
  pub session_id : Option Text
  pub profile_id : Option Text
  pub flow : Text
  pub language : Text
  pub token : Option Text
  pub path : Text
  pub as_guest : Bool

abbrev pub last_fields : Bool → Submission → Fields
last_fields v2 s =
    if v2 then end else field (codes "access_token") (access_token s.as_guest s.token) end

unfoldable pub payload_of : Bool → Submission → Json
payload_of v2 s = dict (
    field (codes "session") (text_or_null s.session_id) (
      field (codes "profile_id") (text_or_null s.profile_id) (
        field (codes "stage") (str (codes "COMPLETED")) (
          field (codes "flow") (str s.flow)
            (field (codes "language") (str s.language) (last_fields v2 s))))))

unfoldable pub headers_of : Bool → Submission → List (Text × Text)
headers_of v2 s =
    if v2 then (if s.as_guest then [] else (codes "Authorization", bearer s.token) ∷ []) else []

-- `list[0].get("story_media", [])` of a list that is not empty
unfoldable pub first_media : {S : Type 0} → List Json → Exec S Json
unfolding get_or ◌>>=◌
first_media [] = raise type_error
first_media (v ∷ vs) = fields_of v >>= λ fs. pure (get_or (list nil) (codes "story_media") fs)

unfoldable pub is_text : Json → Text → Bool
unfolding text_eq
is_text (str s) t = text_eq s t
is_text _ t = false

module _ (rt : Runtime) (client : MitraRestClient)
    (send : List HttpRequest → HttpRequest → Sent) where
  -- `path or self.paths.finalize_v2`
  abbrev pub path_of : Submission → Text
  path_of s = if is_empty s.path then client.paths.finalize_v2 else s.path

  -- the id and the content of the answer
  unfoldable pub story_of : Fields → Call rt client send (Text × Text)
  unfolding get_or str_of
  story_of answer =
      let story_id = str_of rt (get_or (str []) (codes "id") answer) in
      if is_empty story_id
      then raise (mitra_error (codes "finalize"))
      else pure (story_id, str_of rt (get_or (str []) (codes "content") answer))

  unfoldable pub finalize : Submission → Call rt client send (Text × Text)
  unfolding post_request payload_of headers_of is_v2_finalize story_of ◌>>=◌
  finalize s =
      let path = path_of s in
      let v2 = is_v2_finalize client.paths path in
      post_request rt client send path (payload_of v2 s) (headers_of v2 s) >>= story_of

  module _ (netloc_ok : Text → Bool) where
    -- a `public_url` that is no text makes `urlparse` raise
    unfoldable pub checked_url : Json → Outcome (Option Text)
    unfolding validate_url
    checked_url (str url) = elim (validate_url rt netloc_ok client url) [
      | raises e ↦ raises e
      | returned u ↦ returned (some url)
    ]
    checked_url _ = raises type_error

    -- the loop over the entries of `story_media`
    unfoldable pub find_report : Text → List Json → Outcome (Option Text)
    unfolding get truthy is_text checked_url
    find_report media_type [] = returned none
    find_report media_type (dict fs ∷ entries) =
        let rest = find_report media_type entries in
        let url = get (codes "public_url") fs in
        if is_text (get (codes "media_type") fs) media_type
        then (if truthy url then checked_url url else rest)
        else rest
    find_report media_type (v ∷ entries) = raises type_error

    -- what is done with the answer
    unfoldable pub if_results_of : Text → Fields → Call rt client send (Option Text)
    unfolding results_of truthy first_media find_report ◌>>=◌
    if_results_of media_type answer = if not (truthy (results_of answer)) then pure none else do
      results ← iterated (results_of answer)
      media ← first_media results
      entries ← iterated media
      λ log. (find_report media_type entries, log)

    unfoldable pub get_report : Option Text → Text → Call rt client send (Option Text)
    unfolding get_request if_results_of ◌>>=◌
    get_report session_id media_type =
        get_request rt client send client.paths.get_story
          ((codes "session", text_or_null session_id) ∷ [])
        >>= if_results_of media_type
