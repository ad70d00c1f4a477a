-- ===== src/Policy/Deployment.antt =====
-- DeploymentProfile of orchestrator/deployment.py: what a remote activation lacks.
use claude_router.Prelude.{
  Bool, List, String, [], all, any, codes, false, if◌then◌else◌, is_in, is_space, leb, length,
  nat_beq, not, starts_with, true, ℕ, ◌&&◌, ◌==◌, ◌||◌, ◌∷◌, nat_eq, string_eq, option_eq,
}
use claude_router.Policy.Paths.{Text, lstrip, rstrip}

pub data DeploymentMode : Type 0 where
  local : DeploymentMode
  remote : DeploymentMode
  multi_user : DeploymentMode

pub record DeploymentProfile : Type 0 where
  pub mode : DeploymentMode
  pub auth_mode : String
  pub namespace : String
  pub encrypted_secret_store : String
  pub rbac_policy : String
  pub audit_sink : String
  pub isolation_backend : String
  pub isolation_attestation : String
  pub tenant_claim : String

abbrev pub is_remote_mode : DeploymentMode → Bool
is_remote_mode local = false
is_remote_mode _ = true

abbrev is_multi_user : DeploymentMode → Bool
is_multi_user multi_user = true
is_multi_user _ = false

abbrev is_alphanumeric : ℕ → Bool
is_alphanumeric c = (leb 0x61 c && leb c 0x7A) || (leb 0x30 c && leb c 0x39)

abbrev is_name_char : ℕ → Bool
is_name_char c = is_alphanumeric c || nat_beq c 0x5F || nat_beq c 0x2E || nat_beq c 0x2D

-- `_NAMESPACE.fullmatch`, a letter or digit and up to 62 more characters
abbrev is_namespace : Text → Bool
is_namespace [] = false
is_namespace (c ∷ s) = is_alphanumeric c && (all is_name_char s && leb (length s) 62)

-- `_SECRET_SCHEMES`
abbrev secret_schemes : List String
secret_schemes = "enc://" ∷ "kms://" ∷ "keyvault://" ∷ "vault://" ∷ []

abbrev has_secret_scheme : Text → Bool
has_secret_scheme s = any (λ (scheme : String). starts_with s (codes scheme)) secret_schemes

abbrev missing_if : Bool → String → List String → List String
missing_if test name rest = if test then name ∷ rest else rest

-- `missing_prerequisites`
unfoldable pub missing_prerequisites : DeploymentProfile → List String
unfolding starts_with any all is_in
missing_prerequisites p =
    if not (is_remote_mode p.mode)
    then []
    else "remote_deployment_disabled"
      ∷ missing_if (not (is_in p.auth_mode ("mtls" ∷ "oidc" ∷ "trusted_proxy" ∷ []))) "auth" (
          missing_if
            (not (is_namespace (codes p.namespace)) || is_in p.namespace ("default" ∷ "local" ∷ []))
            "namespace"
            (missing_if (not (has_secret_scheme (codes p.encrypted_secret_store)))
              "encrypted_secret_reference"
              (missing_if (p.rbac_policy == "") "rbac" (
                missing_if (p.audit_sink == "") "audit" (
                  missing_if
                    (not (
                      is_in p.isolation_backend
                        ("container" ∷ "kubernetes" ∷ "microvm" ∷ "vm" ∷ [])))
                    "isolation_backend"
                    (missing_if (p.isolation_attestation == "") "isolation_attestation" (
                      missing_if (is_multi_user p.mode && p.tenant_claim == "") "tenant_claim"
                        [])))))))

abbrev tail_of : Text → Text
tail_of [] = []
tail_of (c ∷ s) = s

-- `candidate.split("://", 1)[-1]`, where the separator occurs
unfoldable pub after_scheme : Text → Text
unfolding starts_with
after_scheme [] = []
after_scheme (c ∷ s) =
    let rest = after_scheme s in
    if starts_with (c ∷ s) (codes "://") then tail_of (tail_of s) else rest

-- `is_encrypted_secret_reference`
unfoldable pub is_encrypted_secret_reference : String → Bool
unfolding starts_with any is_space after_scheme lstrip rstrip
is_encrypted_secret_reference value =
    let candidate = rstrip is_space (lstrip is_space (codes value)) in
    has_secret_scheme candidate && leb 3 (length (after_scheme candidate))
