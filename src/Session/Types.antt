-- ===== src/Session/Types.antt =====
-- internal/session/manager.go: the records of the package. A time is a number of nanoseconds, the
-- zero time is 0; a digest is the text that the hash gives.
use ai_etl_platform.Common.{ℕ, ◌+◌, String, str_eq, Option, some, Bool, ◌&&◌, ltb, has, not}

pub record SessionRecord : Type 0 where
  pub id : String
  pub management_handle : String
  pub creation_order : ℕ
  pub credential_digest : String
  pub tenant_id : String
  pub subject_id : String
  pub authentication_method : String
  pub assurance : String
  pub authenticated_at : ℕ
  pub created_at : ℕ
  pub last_activity_at : ℕ
  pub absolute_expires_at : ℕ
  pub revoked_at : Option ℕ
  pub generation : ℕ
  pub policy_revision : String
  pub established_correlation_id : String
  pub revoked_correlation_id : String

abbrev pub active_at : SessionRecord → ℕ → ℕ → String → Bool
active_at r at idle_timeout policy_revision =
    not (has r.revoked_at)
    && ltb at r.absolute_expires_at
    && ltb at (r.last_activity_at + idle_timeout)
    && str_eq r.policy_revision policy_revision

pub record Creation : Type 0 where
  pub value : SessionRecord
  pub max_active_sessions : ℕ
  pub at : ℕ
  pub idle_cutoff : ℕ
  pub policy_revision : String

pub record SessionFence : Type 0 where
  pub credential_digest : String
  pub current_session_id : String
  pub tenant_id : String
  pub subject_id : String
  pub at : ℕ
  pub idle_cutoff : ℕ
  pub policy_revision : String

pub record CurrentRevocation : Type 0 where
  pub credential_digest : String
  pub session_id : String
  pub revoked_at : ℕ
  pub correlation_id : String

pub record ManagedRevocation : Type 0 where
  pub fence : SessionFence
  pub handle : String
  pub correlation_id : String

pub record SubjectRevocation : Type 0 where
  pub credential_digest : String
  pub revoked_at : ℕ
  pub idle_cutoff : ℕ
  pub policy_revision : String
  pub correlation_id : String

-- `errChanged`, and any other error of a store
pub data StoreFault : Type 0 where
  changed : StoreFault
  failed : String → StoreFault

-- a record revoked at a time for a reason, one generation on
abbrev pub revoked : ℕ → String → SessionRecord → SessionRecord
revoked at correlation_id r = record r {
  revoked_at = some at;
  revoked_correlation_id = correlation_id;
  generation = r.generation + 1;
}

abbrev pub is_subject : String → String → SessionRecord → Bool
is_subject tenant_id subject_id r = str_eq r.tenant_id tenant_id && str_eq r.subject_id subject_id
