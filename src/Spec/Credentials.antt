-- ===== src/Spec/Credentials.antt =====
-- proto/pb/spec/utils.go: CopyCredentials and CredentialsEqual. The providers of a cluster are set
-- and are kept by value, so the tests for nil are left out.
use claudie.Prelude.{
  ◌≡◌, ap, arith, eq_iff, Bool, true, false, ◌&&◌, Option, none, some, String, str_eq,
  if◌then◌else◌, Bool-cases, Option-cases, inl, inr, subst,
}
use claudie.Spec.{
  Provider, ProviderType, gcp, hetzner, oci, aws, azure, cloudflare, openstack, exoscale, cloudrift,
  verda, ovh,
}

-- A getter of an optional string, which gives "" for an unset one.
abbrev pub text_of : Option String → String
text_of none = ""
text_of (some s) = s

-- The `switch` of CopyCredentials; `none` where nothing is updated.
unfoldable pub copy_type : ProviderType → ProviderType → Option ProviderType
copy_type (aws _ _) (aws secret access) = some (aws secret access)
copy_type (azure s t c _) (azure _ _ _ secret) = some (azure s t c secret)
copy_type (cloudflare _ account) (cloudflare token _) = some (cloudflare token account)
copy_type (cloudrift _ team) (cloudrift token _) = some (cloudrift token team)
copy_type (exoscale _ _) (exoscale key secret) = some (exoscale key secret)
copy_type (gcp _ project) (gcp key _) = some (gcp key project)
copy_type (hetzner _) (hetzner token) = some (hetzner token)
copy_type (oci u t _ c _) (oci _ _ fingerprint _ key) = some (oci u t fingerprint c key)
copy_type (openstack a d p _ _) (openstack _ _ _ id secret) = some (openstack a d p id secret)
copy_type (verda _ _ _) (verda id secret url) = some (verda id secret url)
copy_type (ovh _ _ _ endpoint) (ovh id secret service _) = some (ovh id secret service endpoint)
copy_type _ _ = none

-- The `switch` of CredentialsEqual.
unfoldable pub credentials_eq : ProviderType → ProviderType → Bool
credentials_eq (aws s a) (aws s' a') = str_eq a a' && str_eq s s'
credentials_eq (azure _ _ _ s) (azure _ _ _ s') = str_eq s s'
credentials_eq (cloudflare t _) (cloudflare t' _) = str_eq t t'
credentials_eq (cloudrift t _) (cloudrift t' _) = str_eq t t'
credentials_eq (exoscale k s) (exoscale k' s') = str_eq s s' && str_eq k k'
credentials_eq (gcp k _) (gcp k' _) = str_eq k k'
credentials_eq (hetzner t) (hetzner t') = str_eq t t'
credentials_eq (oci _ _ f _ k) (oci _ _ f' _ k') = str_eq f f' && str_eq k k'
credentials_eq (openstack _ _ _ i s) (openstack _ _ _ i' s') = str_eq i i' && str_eq s s'
credentials_eq (verda i s u) (verda i' s' u') =
    (str_eq i i' && str_eq s s') && str_eq (text_of u) (text_of u')
credentials_eq (ovh i s n _) (ovh i' s' n' _) = (str_eq i i' && str_eq s s') && str_eq n n'
credentials_eq _ _ = false

-- A changed value, and whether it was updated.
abbrev pub Updated {ℓ} : Type ℓ → Type ℓ
Updated A = A × Bool

-- "if !CredentialsEqual { if CopyCredentials ... }"
abbrev pub update_type : ProviderType → ProviderType → Updated ProviderType
update_type p o =
    if credentials_eq p o
    then (p, false)
    else elim (copy_type p o) [ none ↦ (p, false) | some p' ↦ (p', true) ]

unfoldable pub update_provider : Provider → Provider → Updated Provider
unfolding copy_type credentials_eq
update_provider p o =
    let (t, updated) = update_type p.provider_type o.provider_type in
    (record p { provider_type = t }, updated)

-- Credentials that are copied are equal afterwards, or are of another kind.
abbrev pub Agrees : ProviderType → Option ProviderType → Type 0
Agrees o none = Unit
Agrees o (some p) = credentials_eq p o ≡ true

copy_type-Agrees : (p o : ProviderType) → Agrees o (copy_type p o)
unfolding copy_type credentials_eq
copy_type-Agrees (aws _ _) (aws s a) = ground (arith, eq_iff s s, eq_iff a a)
copy_type-Agrees (azure _ _ _ _) (azure _ _ _ s) = ground (arith, eq_iff s s)
copy_type-Agrees (cloudflare _ _) (cloudflare t _) = ground (arith, eq_iff t t)
copy_type-Agrees (cloudrift _ _) (cloudrift t _) = ground (arith, eq_iff t t)
copy_type-Agrees (exoscale _ _) (exoscale k s) = ground (arith, eq_iff k k, eq_iff s s)
copy_type-Agrees (gcp _ _) (gcp k _) = ground (arith, eq_iff k k)
copy_type-Agrees (hetzner _) (hetzner t) = ground (arith, eq_iff t t)
copy_type-Agrees (oci _ _ _ _ _) (oci _ _ f _ k) = ground (arith, eq_iff f f, eq_iff k k)
copy_type-Agrees (openstack _ _ _ _ _) (openstack _ _ _ i s) =
    ground (arith, eq_iff i i, eq_iff s s)
copy_type-Agrees (verda _ _ _) (verda i s u) =
    ground (arith, eq_iff i i, eq_iff s s, eq_iff (text_of u) (text_of u))
copy_type-Agrees (ovh _ _ _ _) (ovh i s n _) = ground (arith, eq_iff i i, eq_iff s s, eq_iff n n)
copy_type-Agrees _ _ = tt

update_type_again :
    (p o : ProviderType) → update_type (update_type p o).0 o ≡ ((update_type p o).0, false)
update_type_again p o = elim (Bool-cases (credentials_eq p o)) [
  | inl same ↦ ground (arith, same)
  | inr differ ↦ elim (Option-cases (copy_type p o)) [
    | inl n ↦ ground (arith, differ, n)
    | inr (q, n) ↦
        let agrees : credentials_eq q o ≡ true = subst (Agrees o) n (copy_type-Agrees p o) in
        ground (arith, differ, n, agrees)
  ]
]

pub update_provider_again :
    (p o : Provider) → update_provider (update_provider p o).0 o ≡ ((update_provider p o).0, false)
unfolding update_provider
update_provider_again p o =
    ap (λ u. (record p { provider_type = u.0 }, u.1))
      (update_type_again p.provider_type o.provider_type)
