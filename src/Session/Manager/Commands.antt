-- ===== src/Session/Manager/Commands.antt =====
-- internal/session/manager.go: what the manager takes and answers, and the repository behind it.
use ai_etl_platform.Common.{
  ℕ, String, str_eq, Option, none, some, List, Bool, not, ◌&&◌, if◌then◌else◌, leb, Dict, Outcome,
  ok, err, trim_space, is_blank, cut_prefix, byte_length,
}
use ai_etl_platform.Session.Types.{
  SessionRecord, Creation, SessionFence, CurrentRevocation, ManagedRevocation, SubjectRevocation,
  StoreFault, changed, failed,
}
use ai_etl_platform.Session.Store.{
  MemoryStore, load, create, list_subject, touch, rotate, revoke_current, revoke_managed,
  revoke_subject,
}

pub record Policy : Type 0 where
  pub idle_timeout : ℕ
  pub absolute_lifetime : ℕ
  pub high_risk_freshness : ℕ
  pub high_risk_assurance : String
  pub establishment_assurances : Dict String
  pub action_risks : Dict String
  pub max_active_sessions : ℕ
  pub revision : String

-- the fields of `auth.Principal` that the package reads
pub record Principal : Type 0 where
  pub tenant_id : String
  pub subject_id : String
  pub authentication_method : String

pub record EstablishCommand : Type 0 where
  pub principal : Principal
  pub assurance : String
  pub authenticated_at : ℕ
  pub replaces_credential : String
  pub correlation_id : String

pub record Reference : Type 0 where
  pub id : String
  pub credential_digest : String

pub record RevokeCommand : Type 0 where
  pub credential : String
  pub reference : Reference
  pub scope : String
  pub correlation_id : String

pub record RevokeManagedCommand : Type 0 where
  pub credential : String
  pub handle : String
  pub correlation_id : String

pub record View : Type 0 where
  pub handle : String
  pub authentication_method : String
  pub created_at : ℕ
  pub last_activity_at : ℕ
  pub expires_at : ℕ
  pub current : Bool

pub record Credential : Type 0 where
  pub token : String
  pub expires_at : ℕ

pub data Decision : Type 0 where
  allow deny reauthenticate : Decision

-- the zero principal and reference are none
pub record AuthenticateResult : Type 0 where
  pub decision : Decision
  pub principal : Option Principal
  pub reference : Option Reference

pub data SessionFault : Type 0 where
  invalid : SessionFault
  unavailable : String → SessionFault

pub record Repository : Type 1 where
  pub State : Type 0
  pub load : String → State → Outcome StoreFault (Option SessionRecord)
  pub list_subject : SessionFence → State → Outcome StoreFault (List SessionRecord)
  pub create : Creation → State → Option StoreFault × State
  pub touch : String → ℕ → ℕ → State → Option StoreFault × State
  pub rotate : String → String → ℕ → SessionRecord → State → Option StoreFault × State
  pub revoke_current : CurrentRevocation → State → Option StoreFault × State
  pub revoke_managed : ManagedRevocation → State → Option StoreFault × State
  pub revoke_subject : SubjectRevocation → State → Option StoreFault × State

abbrev pub memory : Repository
memory = record {
  State = MemoryStore;
  load = λ digest s. ok (load digest s);
  list_subject = list_subject;
  create = create;
  touch = touch;
  rotate = rotate;
  revoke_current = revoke_current;
  revoke_managed = revoke_managed;
  revoke_subject = revoke_subject;
}

-- what the package takes of the libraries
pub record Services : Type 0 where
  pub sha256 : String → String
  pub valid_uuid : String → Bool

-- a text that is neither blank, nor padded, nor longer than 256 bytes
abbrev pub is_correlation : String → Bool
is_correlation c = not (is_blank c) && str_eq (trim_space c) c && leb (byte_length c) 256

unfoldable pub parse_management_handle : Services → String → Outcome SessionFault String
parse_management_handle services value = elim (cut_prefix "sm1_" value) [
  | none ↦ err invalid
  | some rest ↦ if services.valid_uuid rest then ok value else err invalid
]

-- a store's answer, where `errChanged` is the caller's fault
abbrev pub answer : String → Option StoreFault → Option SessionFault
answer what none = none
answer what (some changed) = some invalid
answer what (some (failed e)) = some (unavailable what)

abbrev pub principal_of : SessionRecord → Principal
principal_of r = record {
  tenant_id = r.tenant_id;
  subject_id = r.subject_id;
  authentication_method = r.authentication_method;
}

abbrev pub denied : AuthenticateResult
denied = record { decision = deny; principal = none; reference = none }
