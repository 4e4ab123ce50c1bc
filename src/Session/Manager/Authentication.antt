-- ===== src/Session/Manager/Authentication.antt =====
-- internal/session/manager.go: `Authenticate`.
use ai_etl_platform.Common.{
  ℕ, ◌-◌, String, str_eq, Option, none, some, Bool, not, ◌&&◌, ◌||◌, if◌then◌else◌, leb, get,
  Outcome, ok, err, is_blank,
}
use ai_etl_platform.Session.Types.{SessionRecord, active_at, changed, failed}
use ai_etl_platform.Session.Manager.Commands.{
  Policy, AuthenticateResult, SessionFault, Repository, Services, principal_of, denied, allow, deny,
  reauthenticate, invalid, unavailable,
}

module _ (repo : Repository) (services : Services) (policy : Policy) where
  abbrev pub is_active : SessionRecord → ℕ → Bool
  is_active r now = active_at r now policy.idle_timeout policy.revision

  -- `Authenticate`, `List` and `RevokeManaged` go on from here; `what` names the failed step
  abbrev pub load_active :
      String → String → ℕ → repo.State → Outcome SessionFault (Option SessionRecord)
  load_active what digest now s = elim (repo.load digest s) [
    | err e ↦ err (unavailable what)
    | ok none ↦ ok none
    | ok (some r) ↦ if is_active r now then ok (some r) else ok none
  ]

  abbrev pub needs_login : ℕ → SessionRecord → String → Bool
  needs_login now r risk =
      str_eq risk "high"
      && (not (str_eq r.assurance policy.high_risk_assurance)
          || leb policy.high_risk_freshness (now - r.authenticated_at))

  -- the activity is stored before the session is let in
  abbrev pub touch_session :
      ℕ → String → SessionRecord → repo.State → Outcome SessionFault AuthenticateResult × repo.State
  touch_session now digest r s =
      let (refused, s') = repo.touch r.id r.generation now s in
      let reference = some (record { id = r.id; credential_digest = digest }) in
      elim refused [
        | none ↦ (
          ok (record {
            decision = allow;
            principal = some (principal_of r);
            reference = reference;
          }),
          s',
        )
        | some changed ↦
            (ok (record { decision = deny; principal = none; reference = reference }), s')
        | some (failed e) ↦ (err (unavailable "update activity"), s')
      ]

  abbrev pub authenticate_action :
      ℕ
      → String
      → SessionRecord
      → Option String
      → repo.State
      → Outcome SessionFault AuthenticateResult × repo.State
  authenticate_action now digest r none s = (ok denied, s)
  authenticate_action now digest r (some risk) s =
      if needs_login now r risk
      then (
        ok (record {
          decision = reauthenticate;
          principal = some (principal_of r);
          reference = some (record { id = r.id; credential_digest = digest });
        }),
        s,
      )
      else touch_session now digest r s

  unfoldable pub authenticate :
      ℕ → String → String → repo.State → Outcome SessionFault AuthenticateResult × repo.State
  authenticate now token action s =
      if is_blank token || is_blank action
      then (err invalid, s)
      else elim (load_active "authenticate" (services.sha256 token) now s) [
        | err e ↦ (err e, s)
        | ok none ↦ (ok denied, s)
        | ok (some r) ↦
            authenticate_action now (services.sha256 token) r (get policy.action_risks action) s
      ]
