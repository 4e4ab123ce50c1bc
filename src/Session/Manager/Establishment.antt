-- ===== src/Session/Manager/Establishment.antt =====
-- internal/session/manager.go: `Establish`.
use Prim.Native.String.{◌++◌ as append}
use ai_etl_platform.Common.{
  ℕ, ◌+◌, ◌-◌, String, str_eq, Option, none, some, Bool, not, ◌&&◌, ◌||◌, if◌then◌else◌, ltb, leb,
  ◌==◌, get, Outcome, ok, err, trim_space, is_blank,
}
use ai_etl_platform.Session.Types.{SessionRecord}
use ai_etl_platform.Session.Manager.Commands.{
  Policy, EstablishCommand, Credential, SessionFault, Repository, Services, is_correlation, answer,
  invalid, unavailable,
}
use ai_etl_platform.Session.Manager.Configuration.{known_method, assured}
use ai_etl_platform.Session.Manager.Authentication.{load_active}

module _ (repo : Repository) (services : Services) (policy : Policy) where
  abbrev pub is_evidence : ℕ → EstablishCommand → Bool
  is_evidence now c =
      str_eq (assured (get policy.establishment_assurances c.principal.authentication_method))
        c.assurance
      && not (c.authenticated_at == 0)
      && leb c.authenticated_at now
      && ltb (now - c.authenticated_at) policy.high_risk_freshness

  abbrev pub is_establishable : ℕ → EstablishCommand → Bool
  is_establishable now c =
      not (is_blank c.principal.tenant_id)
      && not (is_blank c.principal.subject_id)
      && known_method c.principal.authentication_method
      && is_evidence now c
      && is_correlation c.correlation_id

  -- `id` and `handle` are fresh uuids
  abbrev pub new_record : ℕ → String → String → String → EstablishCommand → SessionRecord
  new_record now token id handle c = record {
    id = id;
    management_handle = append "sm1_" handle;
    creation_order = 0;
    credential_digest = services.sha256 token;
    tenant_id = c.principal.tenant_id;
    subject_id = c.principal.subject_id;
    authentication_method = c.principal.authentication_method;
    assurance = c.assurance;
    authenticated_at = c.authenticated_at;
    created_at = now;
    last_activity_at = now;
    absolute_expires_at = now + policy.absolute_lifetime;
    revoked_at = none;
    generation = 1;
    policy_revision = policy.revision;
    established_correlation_id = trim_space c.correlation_id;
    revoked_correlation_id = "";
  }

  -- the new credential of a session that goes on
  abbrev pub rotated : SessionRecord → SessionRecord → SessionRecord
  rotated current r = record r {
    id = current.id;
    management_handle = current.management_handle;
    creation_order = current.creation_order;
    generation = current.generation + 1;
    created_at = current.created_at;
    absolute_expires_at = current.absolute_expires_at;
  }

  abbrev pub credential_of :
      String → Option SessionFault × repo.State → ℕ → Outcome SessionFault Credential × repo.State
  credential_of token (none, s) expires = (ok (record { token = token; expires_at = expires }), s)
  credential_of token (some e, s) expires = (err e, s)

  abbrev pub replace_from :
      ℕ
      → String
      → String
      → SessionRecord
      → repo.State
      → Option SessionRecord
      → Outcome SessionFault Credential × repo.State
  replace_from now token old_digest r s none = (err invalid, s)
  replace_from now token old_digest r s (some current) =
      if not (str_eq current.tenant_id r.tenant_id)
        || not (str_eq current.subject_id r.subject_id)
        || not (str_eq current.authentication_method r.authentication_method)
      then (err invalid, s)
      else let (refused, s') =
          repo.rotate old_digest current.id current.generation (rotated current r) s in
        credential_of token (answer "rotate credential" refused, s') current.absolute_expires_at

  abbrev pub establish_record :
      ℕ
      → String
      → SessionRecord
      → EstablishCommand
      → repo.State
      → Outcome SessionFault Credential × repo.State
  establish_record now token r c s =
      if not (str_eq c.replaces_credential "")
      then elim (load_active repo services policy "load replacement"
          (services.sha256 c.replaces_credential) now s) [
            | err e ↦ (err e, s)
            | ok found ↦ replace_from now token (services.sha256 c.replaces_credential) r s found
          ]
      else let (refused, s') =
          repo.create
            (record {
              value = r;
              max_active_sessions = policy.max_active_sessions;
              at = now;
              idle_cutoff = now - policy.idle_timeout;
              policy_revision = policy.revision;
            })
            s in
        credential_of token (answer "establish" refused, s') (now + policy.absolute_lifetime)

  -- `Establish`; the generator of tokens may fail
  unfoldable pub establish :
      ℕ
      → Option String
      → String
      → String
      → EstablishCommand
      → repo.State
      → Outcome SessionFault Credential × repo.State
  establish now token id handle c s =
      if not (is_establishable now c) then (err invalid, s) else elim token [
        | none ↦ (err (unavailable "generate credential"), s)
        | some t ↦ establish_record now t (new_record now t id handle c) c s
      ]
