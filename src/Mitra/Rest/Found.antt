-- ===== src/Mitra/Rest/Found.antt =====
-- The search for the report among the entries of a story.
use saarathi.Common.{
  Text, codes, Bool, true, false, ◌&&◌, Option, none, some, List, [], ◌∷◌, text_eq, mem_text,
  text_eq_iff, if◌then◌else◌, ◌≡◌, refl, inl, inr, Bool-cases,
}
use saarathi.Python.{Json, str, dict, Fields, Runtime, get, truthy}
use saarathi.Python.Urls.{SplitResult, urlsplit, hostname}
use saarathi.Exec.{Outcome, returned, raises, mitra_ssrf_error}
use saarathi.Mitra.Rest.{
  MitraRestClient, HttpRequest, Sent, type_error, value_error, trusts, validate_url,
}
use saarathi.Mitra.Rest.Stories.{is_text, checked_url, find_report}

module _ (rt : Runtime) (netloc_ok : Text → Bool) (client : MitraRestClient) where
  -- an https URL whose host name, in lower case, is one of the client's
  pub record Trusted (url : Text) : Type 0 where
    pub parsed : SplitResult
    pub parses : urlsplit rt netloc_ok url ≡ some parsed
    pub https : parsed.scheme ≡ codes "https"
    pub allowed : mem_text (rt.lower (hostname rt netloc_ok parsed)) client.allowed_hosts ≡ true

  pub data Checked : Json → Outcome (Option Text) → Type 0 where
    trusted : (url : Text) → Trusted url → Checked (str url) (returned (some url))
    untrusted :
        (url : Text) (r : SplitResult)
        → urlsplit rt netloc_ok url ≡ some r
        → trusts rt netloc_ok client r ≡ false
        → Checked (str url) (raises mitra_ssrf_error)
    unreadable :
        (url : Text) → urlsplit rt netloc_ok url ≡ none → Checked (str url) (raises value_error)
    not_text : (v : Json) → ((url : Text) → ¬ (v ≡ str url)) → Checked v (raises type_error)

  Trusted-trusts :
      (url : Text) (r : SplitResult)
      → urlsplit rt netloc_ok url ≡ some r
      → trusts rt netloc_ok client r ≡ true
      → Trusted url
  unfolding trusts
  Trusted-trusts url r e t = go (text_eq r.scheme (codes "https")) refl t
    where
      go :
          (b : Bool)
          → text_eq r.scheme (codes "https") ≡ b
          → (b && mem_text (rt.lower (hostname rt netloc_ok r)) client.allowed_hosts) ≡ true
          → Trusted url
      go false h t = cc
      go true h t = record {
        parsed = r;
        parses = e;
        https = (text_eq_iff r.scheme (codes "https")).0 h;
        allowed = t;
      }

  module _ (send : List HttpRequest → HttpRequest → Sent) where
    checked_url-text :
        (url : Text) → Checked (str url) (checked_url rt client send netloc_ok (str url))
    unfolding checked_url validate_url
    checked_url-text url = go (urlsplit rt netloc_ok url) refl
      where
        go :
            (o : Option SplitResult)
            → urlsplit rt netloc_ok url ≡ o
            → Checked (str url) (checked_url rt client send netloc_ok (str url))
        go none e = rw (e, checked_url, validate_url) (unreadable url e)
        go (some r) e = elim (Bool-cases (trusts rt netloc_ok client r)) [
          | inl t ↦ rw (e, t, checked_url, validate_url) (trusted url (Trusted-trusts url r e t))
          | inr t ↦ rw (e, t, checked_url, validate_url) (untrusted url r e t)
        ]

    checked_url-Checked : (v : Json) → Checked v (checked_url rt client send netloc_ok v)
    unfolding checked_url
    checked_url-Checked (str url) = checked_url-text url
    checked_url-Checked Json.null = not_text _ (λ url e. cc)
    checked_url-Checked (Json.bool b) = not_text _ (λ url e. cc)
    checked_url-Checked (Json.int z) = not_text _ (λ url e. cc)
    checked_url-Checked (Json.float b) = not_text _ (λ url e. cc)
    checked_url-Checked (Json.list vs) = not_text _ (λ url e. cc)
    checked_url-Checked (Json.dict fs) = not_text _ (λ url e. cc)

    -- an entry of the media type that has a URL
    abbrev pub has_report : Text → Fields → Bool
    unfolding get truthy is_text
    has_report media_type fs =
        is_text (get (codes "media_type") fs) media_type && truthy (get (codes "public_url") fs)

    -- What is found among entries: the first one of the media type that has a URL decides.
    pub data Found (media_type : Text) : List Json → Outcome (Option Text) → Type 0 where
      none_there : Found media_type [] (returned none)
      passed :
          (fs : Fields) (entries : List Json) (o : Outcome (Option Text))
          → has_report media_type fs ≡ false
          → Found media_type entries o
          → Found media_type (dict fs ∷ entries) o
      decided :
          (fs : Fields) (entries : List Json) (o : Outcome (Option Text))
          → has_report media_type fs ≡ true
          → Checked (get (codes "public_url") fs) o
          → Found media_type (dict fs ∷ entries) o
      no_entry :
          (v : Json) (entries : List Json)
          → ((fs : Fields) → ¬ (v ≡ dict fs))
          → Found media_type (v ∷ entries) (raises type_error)

    pub find_report-Found :
        (media_type : Text) (entries : List Json)
        → Found media_type entries (find_report rt client send netloc_ok media_type entries)
    unfolding find_report
    find_report-Found media_type [] = none_there
    find_report-Found media_type (dict fs ∷ entries) =
        go (is_text (get (codes "media_type") fs) media_type) (truthy (get (codes "public_url") fs))
          refl refl (find_report-Found media_type entries)
      where
        go :
            (a b : Bool)
            → is_text (get (codes "media_type") fs) media_type ≡ a
            → truthy (get (codes "public_url") fs) ≡ b
            → Found media_type entries (find_report rt client send netloc_ok media_type entries)
            → Found media_type (dict fs ∷ entries) (
                if a
                then (if b
                    then checked_url rt client send netloc_ok (get (codes "public_url") fs)
                    else find_report rt client send netloc_ok media_type entries)
                else find_report rt client send netloc_ok media_type entries)
        go true true x y tail = decided fs entries _ (rw (x, y)) (checked_url-Checked _)
        go true false x y tail = passed fs entries _ (rw (x, y)) tail
        go false b x y tail = passed fs entries _ (rw x) tail
    find_report-Found media_type (Json.null ∷ entries) = no_entry _ entries (λ fs e. cc)
    find_report-Found media_type (Json.bool b ∷ entries) = no_entry _ entries (λ fs e. cc)
    find_report-Found media_type (Json.int z ∷ entries) = no_entry _ entries (λ fs e. cc)
    find_report-Found media_type (Json.float b ∷ entries) = no_entry _ entries (λ fs e. cc)
    find_report-Found media_type (Json.str s ∷ entries) = no_entry _ entries (λ fs e. cc)
    find_report-Found media_type (Json.list vs ∷ entries) = no_entry _ entries (λ fs e. cc)
