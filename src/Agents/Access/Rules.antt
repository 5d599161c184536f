-- ===== src/Agents/Access/Rules.antt =====
-- The access rules as a statement about codes and roles.
use mathlib.Core.List.{Memᴰ}
use saarathi.Common.{
  Text, true, false, Option, none, some, List, [], ◌∷◌, ◌≡◌, refl, ◌↔◌, ◌⊎◌, inl, inr, arith,
  text_eq, text_eq_iff, mem_text, Bool-cases,
}
use saarathi.Agents.Spec.{OrgMembership, UserContext, AccessSpec}
use saarathi.Agents.Access.{
  active_org, roles, meets, matches, has_text, is_nil, tenant_matches, organization_matches,
  roles_match, org_code_matches,
}

pub mem_text→Memᴰ : (s : Text) (ts : List Text) → mem_text s ts ≡ true → Memᴰ s ts
unfolding mem_text
mem_text→Memᴰ s [] h = cc
mem_text→Memᴰ s (t ∷ ts) h = elim (Bool-cases (text_eq s t)) [
  | inl e ↦ Memᴰ.head ((text_eq_iff s t).0 e)
  | inr e ↦ Memᴰ.tail (mem_text→Memᴰ s ts (rw e at h))
]

pub Memᴰ→mem_text : (s : Text) (ts : List Text) → Memᴰ s ts → mem_text s ts ≡ true
unfolding mem_text
Memᴰ→mem_text s [] m = elim m [ ]
Memᴰ→mem_text s (t ∷ ts) (Memᴰ.head e) = rw ((text_eq_iff s t).1 e)
Memᴰ→mem_text s (t ∷ ts) (Memᴰ.tail m) = ground (arith, Memᴰ→mem_text s ts m)

-- What an access rule asks of a caller: each non-empty list names the caller's tenant, the code of
-- the active organization, or a role in the active organization.
pub record Permits (access : AccessSpec) (user : UserContext) : Type 0 where
  pub tenant : (access.tenant_codes ≡ []) ⊎ Memᴰ user.tenant_code access.tenant_codes
  pub organization :
      (access.organization_codes ≡ [])
      ⊎ ((org : OrgMembership) × (active_org user ≡ some org)
          × (has_text user.active_org_id ≡ true)
          × Memᴰ org.org_code access.organization_codes)
  pub role :
      (access.required_roles ≡ [])
      ⊎ ((org : OrgMembership) × (r : Text) × (active_org user ≡ some org)
          × Memᴰ r org.roles
          × Memᴰ r access.required_roles)

nil_or_cons : {A : Type 0} (l : List A) → ((l ≡ []) × (is_nil l ≡ true)) ⊎ (is_nil l ≡ false)
nil_or_cons [] = inl (refl, refl)
nil_or_cons (x ∷ l) = inr refl

meets→common : (ss ts : List Text) → meets ss ts ≡ true → (r : Text) × Memᴰ r ss × Memᴰ r ts
unfolding meets
meets→common [] ts h = cc
meets→common (s ∷ ss) ts h = elim (Bool-cases (mem_text s ts)) [
  | inl e ↦ (s, Memᴰ.head refl, mem_text→Memᴰ s ts e)
  | inr e ↦ let (r, m, n) = meets→common ss ts (rw e at h) in (r, Memᴰ.tail m, n)
]

common→meets : (r : Text) (ss ts : List Text) → Memᴰ r ss → Memᴰ r ts → meets ss ts ≡ true
unfolding meets
common→meets r [] ts m n = elim m [ ]
common→meets r (s ∷ ss) ts (Memᴰ.head e) n = rw (← e) (rw (Memᴰ→mem_text r ts n))
common→meets r (s ∷ ss) ts (Memᴰ.tail m) n = ground (arith, common→meets r ss ts m n)

module _ (access : AccessSpec) (user : UserContext) where
  tenant→rule :
      tenant_matches access user ≡ true
      → (access.tenant_codes ≡ []) ⊎ Memᴰ user.tenant_code access.tenant_codes
  tenant→rule h = elim (nil_or_cons access.tenant_codes) [
    | inl (e, _) ↦ inl e
    | inr f ↦ inr (mem_text→Memᴰ _ _ (ground arith))
  ]

  rule→tenant :
      (access.tenant_codes ≡ []) ⊎ Memᴰ user.tenant_code access.tenant_codes
      → tenant_matches access user ≡ true
  rule→tenant (inl e) = rw e
  rule→tenant (inr m) = ground (arith, Memᴰ→mem_text _ _ m)

  member_of :
      (o : Option OrgMembership)
      → org_code_matches access o ≡ true
      → (org : OrgMembership) × (o ≡ some org) × Memᴰ org.org_code access.organization_codes
  unfolding org_code_matches
  member_of none h = cc
  member_of (some org) h = (org, refl, mem_text→Memᴰ _ _ h)

  organization→rule :
      organization_matches access user ≡ true
      → (access.organization_codes ≡ [])
        ⊎ ((org : OrgMembership) × (active_org user ≡ some org)
            × (has_text user.active_org_id ≡ true)
            × Memᴰ org.org_code access.organization_codes)
  unfolding org_code_matches
  organization→rule h = elim (nil_or_cons access.organization_codes) [
    | inl (e, _) ↦ inl e
    | inr f ↦
        inr (
          let (org, e, m) = member_of (active_org user) (ground arith) in (org, e, ground arith, m))
  ]

  in_organization :
      (o : Option OrgMembership) (org : OrgMembership)
      → o ≡ some org
      → Memᴰ org.org_code access.organization_codes
      → org_code_matches access o ≡ true
  unfolding org_code_matches
  in_organization o org e m = rw e (Memᴰ→mem_text _ _ m)

  rule→organization :
      (access.organization_codes ≡ [])
        ⊎ ((org : OrgMembership) × (active_org user ≡ some org)
            × (has_text user.active_org_id ≡ true)
            × Memᴰ org.org_code access.organization_codes)
      → organization_matches access user ≡ true
  unfolding org_code_matches
  rule→organization (inl e) = rw e
  rule→organization (inr (org, e, t, m)) = ground (arith, in_organization (active_org user) org e m)

  holder_of :
      (r : Text)
      → Memᴰ r (roles user)
      → (org : OrgMembership) × (active_org user ≡ some org) × Memᴰ r org.roles
  unfolding roles
  holder_of r m = go (active_org user) m
    where
      go :
          (o : Option OrgMembership)
          → Memᴰ r (elim o [ none ↦ [] | some org ↦ org.roles ])
          → (org : OrgMembership) × (o ≡ some org) × Memᴰ r org.roles
      go none m = elim m [ ]
      go (some org) m = (org, refl, m)

  role→rule :
      roles_match access user ≡ true
      → (access.required_roles ≡ [])
        ⊎ ((org : OrgMembership) × (r : Text) × (active_org user ≡ some org)
            × Memᴰ r org.roles
            × Memᴰ r access.required_roles)
  role→rule h = elim (nil_or_cons access.required_roles) [
    | inl (e, _) ↦ inl e
    | inr f ↦ inr (
        let (r, m, n) = meets→common (roles user) access.required_roles (ground arith) in
        let (org, e, k) = holder_of r m in (org, r, e, k, n))
  ]

  rule→role :
      (access.required_roles ≡ [])
        ⊎ ((org : OrgMembership) × (r : Text) × (active_org user ≡ some org)
            × Memᴰ r org.roles
            × Memᴰ r access.required_roles)
      → roles_match access user ≡ true
  unfolding roles
  rule→role (inl e) = rw e
  rule→role (inr (org, r, e, m, n)) =
      ground (arith, common→meets r (roles user) access.required_roles (rw (roles, e) m) n)

  -- An agent with an access rule is shown to a signed-in caller exactly when each of the rule's
  -- non-empty lists names the caller: the tenant list the caller's tenant, the organization list the
  -- code of the caller's active organization, and the role list a role that the caller holds in the
  -- active organization.
  pub matches-Permits_iff : (matches access (some user) ≡ true) ↔ Permits access user
  unfolding matches
  matches-Permits_iff = (
    λ h. record {
      tenant = tenant→rule (ground arith);
      organization = organization→rule (ground arith);
      role = role→rule (ground arith);
    },
    λ p. ground (arith, rule→tenant p.tenant, rule→organization p.organization, rule→role p.role),
  )
