-- ===== src/Mitra/Rest/Token.antt =====
-- Where `finalize` puts the user's token.
use saarathi.Common.{Text, codes, Bool, true, false, List, [], ◌∷◌, ◌≡◌}
use saarathi.Python.{null, Fields, get, has_key}
use saarathi.Exec.{Exec}
use saarathi.Mitra.Rest.Endpoints.{text_or_null}
use saarathi.Mitra.Rest.Stories.{Submission, bearer}

-- The places of the token in a request with the fields `fs` and the headers `hs`.
pub data Placed (v2 : Bool) (s : Submission) (fs : Fields) (hs : List (Text × Text)) : Type 0 where
  in_header :
      v2 ≡ true
      → s.as_guest ≡ false
      → hs ≡ (codes "Authorization", bearer s.token) ∷ []
      → has_key (codes "access_token") fs ≡ false
      → Placed v2 s fs hs
  in_body :
      v2 ≡ false
      → s.as_guest ≡ false
      → hs ≡ []
      → get (codes "access_token") fs ≡ text_or_null s.token
      → Placed v2 s fs hs
  nowhere :
      v2 ≡ true
      → s.as_guest ≡ true
      → hs ≡ []
      → has_key (codes "access_token") fs ≡ false
      → Placed v2 s fs hs
  explicit_null :
      v2 ≡ false
      → s.as_guest ≡ true
      → hs ≡ []
      → has_key (codes "access_token") fs ≡ true
      → get (codes "access_token") fs ≡ null
      → Placed v2 s fs hs
