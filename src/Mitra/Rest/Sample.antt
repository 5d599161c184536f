-- ===== src/Mitra/Rest/Sample.antt =====
-- A client for the tests.
use saarathi.Common.{Text, codes, Bool, true, [], ◌∷◌}
use saarathi.Mitra.Rest.{MitraPaths, MitraRestClient}

abbrev pub paths : MitraPaths
paths = record {
  profile = codes "/api/profile/";
  generate_session = codes "/api/generate-session/";
  chat = codes "/api/companychat/";
  get_story = codes "/api/get-story/";
  finalize_v1 = codes "/api/end-story/";
  finalize_v2 = codes "/api/end-story/v2/";
}

abbrev pub sample_client : MitraRestClient
sample_client = record {
  base_url = codes "https://h.org";
  origin = codes "https://key";
  user_agent = codes "browser";
  allowed_hosts = codes "h.org" ∷ codes "files.org" ∷ [];
  paths = paths;
}

abbrev pub any_netloc : Text → Bool
any_netloc netloc = true
