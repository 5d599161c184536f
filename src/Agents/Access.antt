-- ===== src/Agents/Access.antt =====
-- `AccessSpec.matches` and `UserContext.roles`.
pub mod Rules
use saarathi.Common.{
  Text, Bool, true, false, not, ◌&&◌, ◌||◌, Option, none, some, List, [], ◌∷◌, find, text_eq,
  mem_text, is_empty, is_some, if◌then◌else◌,
}
use saarathi.Agents.Spec.{OrgMembership, UserContext, AccessSpec}

abbrev same_org : Option Text → OrgMembership → Bool
same_org none org = false
same_org (some id) org = text_eq org.org_id id

-- `next((o for o in self.orgs if o.org_id == self.active_org_id), None)`
unfoldable pub active_org : UserContext → Option OrgMembership
active_org user = find (same_org user.active_org_id) user.orgs

-- `UserContext.roles`: those of the active organization only
unfoldable pub roles : UserContext → List Text
unfolding active_org
roles user = elim (active_org user) [ none ↦ [] | some org ↦ org.roles ]

abbrev pub is_nil {ℓ} : {A : Type ℓ} → List A → Bool
is_nil [] = true
is_nil (x ∷ xs) = false

-- `set(a).intersection(set(b))` is not empty
unfoldable pub meets : List Text → List Text → Bool
meets [] ts = false
meets (s ∷ ss) ts = mem_text s ts || meets ss ts

abbrev tenant_matches : AccessSpec → UserContext → Bool
tenant_matches access user =
    is_nil access.tenant_codes || mem_text user.tenant_code access.tenant_codes

-- `if not user_context.active_org_id`
abbrev pub has_text : Option Text → Bool
has_text none = false
has_text (some s) = not (is_empty s)

org_code_matches : AccessSpec → Option OrgMembership → Bool
org_code_matches access none = false
org_code_matches access (some org) = mem_text org.org_code access.organization_codes

abbrev organization_matches : AccessSpec → UserContext → Bool
organization_matches access user =
    if is_nil access.organization_codes
    then true
    else has_text user.active_org_id && org_code_matches access (active_org user)

abbrev roles_match : AccessSpec → UserContext → Bool
roles_match access user = is_nil access.required_roles || meets (roles user) access.required_roles

unfoldable pub matches : AccessSpec → Option UserContext → Bool
unfolding roles active_org org_code_matches
matches access none = access.allow_anonymous
matches access (some user) =
    if not (tenant_matches access user)
    then false
    else if not (organization_matches access user)
    then false
    else roles_match access user
