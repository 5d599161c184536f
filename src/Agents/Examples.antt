-- ===== src/Agents/Examples.antt =====
-- Tests of the access rules, and their theorem at a concrete caller.
use saarathi.Common.{
  Text, codes, true, false, none, some, List, [], ◌∷◌, ◌≡◌, ◌↔◌, refl, mem_text, text_eq, find,
}
use saarathi.Agents.{UserContext, AccessSpec}
use saarathi.Agents.Access.{matches, meets}
use saarathi.Agents.Access.Rules.{Permits, matches-Permits_iff}

abbrev teacher : UserContext
teacher = record {
  user_id = codes "u";
  email = codes "e";
  display_name = codes "U";
  tenant_code = codes "shikshalokam";
  orgs =
      record { org_id = codes "1"; org_code = codes "north"; roles = codes "teacher" ∷ [] }
      ∷ record { org_id = codes "2"; org_code = codes "south"; roles = codes "admin" ∷ [] }
      ∷ [];
  active_org_id = some (codes "1");
  locale = codes "en";
  token = none;
}

abbrev rule : List Text → AccessSpec
rule roles = record {
  tenant_codes = codes "shikshalokam" ∷ [];
  organization_codes = codes "north" ∷ [];
  required_roles = roles;
  allow_anonymous = false;
}

test_teacher : matches (rule (codes "teacher" ∷ [])) (some teacher) ≡ true
unfolding matches mem_text text_eq meets find
test_teacher = refl

-- a role in an organization that is not active does not count
test_admin : matches (rule (codes "admin" ∷ [])) (some teacher) ≡ false
unfolding matches mem_text text_eq meets find
test_admin = refl

matches-Permits_iff_example :
    (matches (rule (codes "teacher" ∷ [])) (some teacher) ≡ true)
    ↔ Permits (rule (codes "teacher" ∷ [])) teacher
matches-Permits_iff_example = matches-Permits_iff (rule (codes "teacher" ∷ [])) teacher
