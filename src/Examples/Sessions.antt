-- ===== src/Examples/Sessions.antt =====
-- A session from its login to its end.
use ai_etl_platform.Common.{
  inr, ◌≡◌, refl, [], ◌∷◌, none, some, true, ok, arith, eq_iff, trim_space, is_blank, byte_length,
  get, put, remove,
}
use ai_etl_platform.Session.Types.{SessionRecord, SubjectRevocation}
use ai_etl_platform.Session.Store.{
  MemoryStore, memory_store, to_touch, to_revoke_subject, run_all, revoke_subject, touch, create,
  rotate, revoke_current, load,
}
use ai_etl_platform.Session.Store.Revocation.{IsCleared, revoke_subject-final}
use ai_etl_platform.Session.Manager.{
  Policy, Principal, Services, memory, EstablishCommand, allow, AuthenticateResult, denied,
  RevokeCommand, new_manager, establish, authenticate, revoke,
}
use ai_etl_platform.Session.Access.{authenticate-allow_iff}
use ai_etl_platform.Session.Lifecycle.{revoke-authenticate, establish-authenticate}
use ai_etl_platform.Session.Rotation.{IsReplaced, establish-IsReplaced}

abbrev services : Services
services = record { sha256 = λ t. t; valid_uuid = λ t. true }

abbrev policy : Policy
policy = record {
  idle_timeout = 50;
  absolute_lifetime = 200;
  high_risk_freshness = 20;
  high_risk_assurance = "demo-mfa";
  establishment_assurances = ("federated", "demo-mfa") ∷ [];
  action_risks = ("read", "standard") ∷ ("delete", "high") ∷ [];
  max_active_sessions = 2;
  revision = "r1";
}

new_manager_run : new_manager (record policy { establishment_assurances = [] }) ≡ ok policy
unfolding new_manager is_blank trim_space
new_manager_run = refl

abbrev alice : Principal
alice = record { tenant_id = "t"; subject_id = "alice"; authentication_method = "federated" }

abbrev login : EstablishCommand
login = record {
  principal = alice;
  assurance = "demo-mfa";
  authenticated_at = 100;
  replaces_credential = "";
  correlation_id = "c1";
}

abbrev session : SessionRecord
session = record {
  id = "u1";
  management_handle = "sm1_u2";
  creation_order = 1;
  credential_digest = "token";
  tenant_id = "t";
  subject_id = "alice";
  authentication_method = "federated";
  assurance = "demo-mfa";
  authenticated_at = 100;
  created_at = 110;
  last_activity_at = 110;
  absolute_expires_at = 310;
  revoked_at = none;
  generation = 1;
  policy_revision = "r1";
  established_correlation_id = "c1";
  revoked_correlation_id = "";
}

abbrev logged_in : MemoryStore
logged_in = record {
  records = ("token", session) ∷ [];
  subject_revoked_before = [];
  next_creation_order = 1;
}

establish_run :
    establish memory services policy 110 (some "token") "u1" "u2" login memory_store
    ≡ (ok (record { token = "token"; expires_at = 310 }), logged_in)
unfolding establish is_blank trim_space byte_length create get put
establish_run = refl

establish-authenticate_example :
    (a : AuthenticateResult) × ((authenticate memory services policy 159 "token" "read"
        (establish memory services policy 110 (some "token") "u1" "u2" login memory_store).1).0
      ≡ ok a)
    × (a.decision ≡ allow)
    × (a.principal ≡ some alice)
unfolding establish is_blank trim_space byte_length create get put
establish-authenticate_example =
    establish-authenticate services policy 110 "token" "u1" "u2" login memory_store
      {cred = record { token = "token"; expires_at = 310 }} 159 "read" refl refl (omega arith)
      (omega arith) refl refl refl

authenticate-allow_iff_example :
    (a : AuthenticateResult) × ((authenticate memory services policy 119 "token" "delete"
        logged_in).0
      ≡ ok a)
    × (a.decision ≡ allow)
    × (a.principal ≡ some alice)
unfolding is_blank trim_space load get touch
authenticate-allow_iff_example =
    (authenticate-allow_iff memory services policy 119 "token" "delete" logged_in alice).1 (
      session,
      record {
        token_given = refl;
        action_given = refl;
        loaded = refl;
        unrevoked = refl;
        in_lifetime = omega arith;
        not_idle = omega arith;
        same_policy = refl;
        registered = ("high", refl, inr (refl, omega arith));
        touched = refl;
      },
      refl,
    )

abbrev logout : RevokeCommand
logout = record {
  credential = "token";
  reference = record { id = ""; credential_digest = "" };
  scope = "current";
  correlation_id = "c2";
}

revoke-authenticate_example :
    (authenticate memory services policy 121 "token" "read"
      (run_all (to_touch "u1" 2 130 ∷ []) (revoke memory services policy 120 logout logged_in).1)).0
    ≡ ok denied
unfolding revoke is_blank trim_space byte_length load get revoke_current
revoke-authenticate_example =
    revoke-authenticate services policy 120 logout logged_in session (to_touch "u1" 2 130 ∷ []) 121
      "read" refl refl refl refl refl

abbrev login_again : EstablishCommand
login_again = record login { authenticated_at = 115; replaces_credential = "token" }

establish-IsReplaced_example :
    IsReplaced services policy 120 "token2" login_again logged_in
      (establish memory services policy 120 (some "token2") "u3" "u4" login_again logged_in).1
      (record { token = "token2"; expires_at = 310 })
unfolding establish is_blank trim_space byte_length rotate get put remove load
establish-IsReplaced_example =
    establish-IsReplaced services policy 120 "token2" "u3" "u4" login_again logged_in
      {cred = record { token = "token2"; expires_at = 310 }}
      (λ e. absurd (ground (arith, e, eq_iff "token" ""))) refl

abbrev revocation : SubjectRevocation
revocation = record {
  credential_digest = "token";
  revoked_at = 130;
  idle_cutoff = 80;
  policy_revision = "r1";
  correlation_id = "c3";
}

revoke_subject-final_example : IsCleared "t" "alice" 130 (
    run_all
      (to_revoke_subject revocation ∷ to_touch "u1" 2 140 ∷ [])
      (revoke_subject revocation logged_in).1)
unfolding load get revoke_subject
revoke_subject-final_example =
    revoke_subject-final revocation logged_in session
      (to_revoke_subject revocation ∷ to_touch "u1" 2 140 ∷ []) refl refl (omega arith, (tt, tt))

-- a method that the policy does not name passes with an empty assurance
unnamed_method_run :
    (establish memory services policy 110
      (some "token")
      "u1"
      "u2"
      (record login {
        principal = record alice { authentication_method = "local" };
        assurance = "";
      })
      memory_store).0
    ≡ ok (record { token = "token"; expires_at = 310 })
unfolding establish is_blank trim_space byte_length create get put
unnamed_method_run = refl
