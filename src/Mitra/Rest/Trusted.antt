-- ===== src/Mitra/Rest/Trusted.antt =====
-- Which URL of a report is handed out.
use saarathi.Common.{
  Text, codes, Bool, true, false, Option, none, some, List, [], ◌∷◌, ◌≡◌, refl, ap,
}
use saarathi.Python.{Json, list, nil, field, end, elements, str, dict, Fields, Runtime, truthy}
use saarathi.Exec.{Error, Outcome, returned, raises, continue, ◌>>=◌}
use saarathi.Mitra.Rest.{MitraRestClient, HttpRequest, Sent, type_error}
use saarathi.Mitra.Rest.Endpoints.{get_request, iterated, results_of, text_or_null, get_or}
use saarathi.Mitra.Rest.Stories.{find_report, get_report, if_results_of, first_media}
use saarathi.Mitra.Rest.Found.{Found, find_report-Found}

module _ (rt : Runtime) (netloc_ok : Text → Bool) (client : MitraRestClient) where
  module _ (send : List HttpRequest → HttpRequest → Sent) where
    -- what a loop over a value goes through, if it is one that can be gone through
    abbrev pub items : Json → Option (List Json)
    items (list vs) = some (elements vs)
    items (dict end) = some []
    items (str []) = some []
    items _ = none

    iterated-items :
        (j : Json) (log : List HttpRequest)
        → iterated j log
          ≡ elim (items j) [ none ↦ (raises type_error, log) | some vs ↦ (returned vs, log) ]
    iterated-items (list vs) log = refl
    iterated-items (dict end) log = refl
    iterated-items (dict (field k v fs)) log = refl
    iterated-items (str []) log = refl
    iterated-items (str (c ∷ cs)) log = refl
    iterated-items Json.null log = refl
    iterated-items (Json.bool b) log = refl
    iterated-items (Json.int z) log = refl
    iterated-items (Json.float b) log = refl

    -- the entries of the story that the service answers with: the `story_media` of the first result
    pub record MediaOf (answer : Fields) (entries : List Json) : Type 0 where
      pub story : Fields
      pub others : List Json
      pub results : items (results_of answer) ≡ some (dict story ∷ others)
      pub media : items (get_or (list nil) (codes "story_media") story) ≡ some entries

    module _ (session_id : Option Text) (media_type : Text) (log : List HttpRequest) where
      abbrev asked : Outcome Fields × List HttpRequest
      asked =
          get_request rt client send client.paths.get_story
            ((codes "session", text_or_null session_id) ∷ []) log

      -- What a call of `get_report` comes to, by what the request is answered with.
      pub data Reported : Outcome (Option Text) → Type 0 where
        failed : (e : Error) → asked.0 ≡ raises e → Reported (raises e)
        no_results :
            (answer : Fields)
            → asked.0 ≡ returned answer
            → truthy (results_of answer) ≡ false
            → Reported (returned none)
        looked :
            (answer : Fields) (entries : List Json) (o : Outcome (Option Text))
            → asked.0 ≡ returned answer
            → truthy (results_of answer) ≡ true
            → MediaOf answer entries
            → Found rt netloc_ok client send media_type entries o
            → Reported o
        malformed :
            (answer : Fields)
            → asked.0 ≡ returned answer
            → truthy (results_of answer) ≡ true
            → ((entries : List Json) → ¬ MediaOf answer entries)
            → Reported (raises type_error)

      module _ (answer : Fields) (a : asked.0 ≡ returned answer)
          (t : truthy (results_of answer) ≡ true) (l : List HttpRequest) where
        abbrev look : Json → List HttpRequest → Outcome (Option Text) × List HttpRequest
        look media log =
            continue (iterated media log).0
              (λ entries log. (find_report rt client send netloc_ok media_type entries, log))
              (iterated media log).1

        media-Reported :
            (story : Fields) (others : List Json) (media : Json) (o : Option (List Json))
            → items (results_of answer) ≡ some (dict story ∷ others)
            → get_or (list nil) (codes "story_media") story ≡ media
            → items media ≡ o
            → Reported (look media l).0
        media-Reported story others media none h m e =
            rw (iterated-items media l, e)
              (malformed answer a t (λ entries k.
                let same : k.story ≡ story = cc (k.results, h) in
                let reads : items media ≡ some entries = rw (same, m) at k.media in cc (reads, e)))
        media-Reported story others media (some entries) h m e =
            rw (iterated-items media l, e)
              (looked answer entries _ a t
                (record { story = story; others = others; results = h; media = rw m e })
                (find_report-Found rt netloc_ok client send media_type entries))

        not_object :
            (v : Json) (others : List Json)
            → items (results_of answer) ≡ some (v ∷ others)
            → ((story : Fields) → ¬ (v ≡ dict story))
            → Reported (raises type_error)
        not_object v others h n = malformed answer a t (λ entries k. n k.story (cc (k.results, h)))

        abbrev look_first : List Json → Outcome (Option Text)
        look_first vs = (continue (first_media vs l).0 look (first_media vs l).1).0

        first-Reported :
            (vs : List Json) → items (results_of answer) ≡ some vs → Reported (look_first vs)
        unfolding first_media ◌>>=◌
        first-Reported [] h = malformed answer a t (λ entries k. cc (k.results, h))
        first-Reported (dict story ∷ others) h = media-Reported story others _ _ h refl refl
        first-Reported (Json.null ∷ others) h = not_object _ others h (λ story e. cc)
        first-Reported (Json.bool b ∷ others) h = not_object _ others h (λ story e. cc)
        first-Reported (Json.int z ∷ others) h = not_object _ others h (λ story e. cc)
        first-Reported (Json.float b ∷ others) h = not_object _ others h (λ story e. cc)
        first-Reported (str s ∷ others) h = not_object _ others h (λ story e. cc)
        first-Reported (list vs ∷ others) h = not_object _ others h (λ story e. cc)

        results-Reported :
            (o : Option (List Json))
            → items (results_of answer) ≡ o
            → Reported (if_results_of rt client send netloc_ok media_type answer l).0
        unfolding if_results_of ◌>>=◌
        results-Reported none e =
            rw (t, iterated-items (results_of answer) l, e)
              (malformed answer a t (λ entries k. cc (k.results, e)))
        results-Reported (some vs) e =
            rw (t, iterated-items (results_of answer) l, e) (first-Reported vs e)

      without-Reported :
          (answer : Fields) (l : List HttpRequest)
          → asked.0 ≡ returned answer
          → truthy (results_of answer) ≡ false
          → Reported (if_results_of rt client send netloc_ok media_type answer l).0
      unfolding if_results_of
      without-Reported answer l a t = rw t (no_results answer a t)

      -- `get_report` hands out a URL only if it is an https URL of an allowed host: of the entries of
      -- the story with which the service answers, which is the first of the results, the first one of
      -- the media type that has a URL decides, and if its URL is not such a one, an error is raised
      -- and no later entry is tried. An error of the request is raised; without results there is no
      -- report; and an answer whose results or entries cannot be gone through raises a TypeError.
      pub get_report-Reported :
          Reported (get_report rt client send netloc_ok session_id media_type log).0
      unfolding get_report ◌>>=◌
      get_report-Reported = go asked refl
        where
          go :
              (p : Outcome Fields × List HttpRequest)
              → asked ≡ p
              → Reported (continue p.0 (if_results_of rt client send netloc_ok media_type) p.1).0
          go (raises e, l) h = failed e (ap (λ x. x.0) h)
          go (returned answer, l) h = answered (truthy (results_of answer)) refl
            where
              a : asked.0 ≡ returned answer
              a = ap (λ x. x.0) h

              answered :
                  (b : Bool)
                  → truthy (results_of answer) ≡ b
                  → Reported (if_results_of rt client send netloc_ok media_type answer l).0
              answered true t = results-Reported answer a t l _ refl
              answered false t = without-Reported answer l a t
