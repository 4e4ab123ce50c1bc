-- ===== src/Session/Manager/Control.antt =====
-- internal/session/manager.go: `List`, `RevokeManaged` and `Revoke`.
use ai_etl_platform.Common.{
  text_lt, ℕ, ◌-◌, String, str_eq, Option, none, some, List, [], ◌∷◌, Bool, not, ◌&&◌, ◌||◌,
  if◌then◌else◌, ltb, ◌==◌, Outcome, ok, err, ◌>>=◌, trim_space, is_blank,
}
use ai_etl_platform.Session.Types.{SessionRecord, SessionFence, changed, failed}
use ai_etl_platform.Session.Manager.Commands.{
  Policy, RevokeCommand, RevokeManagedCommand, View, SessionFault, Repository, Services,
  is_correlation, parse_management_handle, answer, invalid, unavailable,
}
use ai_etl_platform.Session.Manager.Authentication.{is_active, load_active}

-- the later session first, sessions of one moment by their handles
abbrev shown_before : View → View → Bool
shown_before a b =
    if a.created_at == b.created_at
    then text_lt a.handle b.handle
    else ltb b.created_at a.created_at

unfoldable pub insert_view : View → List View → List View
insert_view v [] = v ∷ []
insert_view v (w ∷ ws) =
    let rest = insert_view v ws in if shown_before w v then w ∷ rest else v ∷ w ∷ ws

unfoldable pub sort_views : List View → List View
unfolding insert_view
sort_views [] = []
sort_views (v ∷ vs) = insert_view v (sort_views vs)

module _ (repo : Repository) (services : Services) (policy : Policy) where
  abbrev pub fence_of : String → SessionRecord → ℕ → SessionFence
  fence_of digest current now = record {
    credential_digest = digest;
    current_session_id = current.id;
    tenant_id = current.tenant_id;
    subject_id = current.subject_id;
    at = now;
    idle_cutoff = now - policy.idle_timeout;
    policy_revision = policy.revision;
  }

  abbrev pub view_of : SessionRecord → SessionRecord → View
  view_of current r = record {
    handle = r.management_handle;
    authentication_method = r.authentication_method;
    created_at = r.created_at;
    last_activity_at = r.last_activity_at;
    expires_at = r.absolute_expires_at;
    current = str_eq r.id current.id;
  }

  unfoldable pub views : SessionRecord → ℕ → List SessionRecord → List View
  views current now [] = []
  views current now (r ∷ rs) =
      let rest = views current now rs in
      if str_eq r.tenant_id current.tenant_id
        && str_eq r.subject_id current.subject_id
        && is_active repo services policy r now
      then view_of current r ∷ rest
      else rest

  abbrev pub list_from :
      ℕ → String → repo.State → Option SessionRecord → Outcome SessionFault (List View)
  list_from now digest s none = err invalid
  list_from now digest s (some current) = elim (repo.list_subject (fence_of digest current now) s) [
    | err changed ↦ err invalid
    | err (failed e) ↦ err (unavailable "list sessions")
    | ok records ↦ ok (sort_views (views current now records))
  ]

  -- `List`
  unfoldable pub list_sessions : ℕ → String → repo.State → Outcome SessionFault (List View)
  list_sessions now credential s =
      if is_blank credential
      then err invalid
      else load_active repo services policy "load current session" (services.sha256 credential) now
          s
        >>= λ found. list_from now (services.sha256 credential) s found

  abbrev pub revoke_managed_from :
      ℕ
      → String
      → String
      → RevokeManagedCommand
      → repo.State
      → Option SessionRecord
      → Option SessionFault × repo.State
  revoke_managed_from now digest handle c s none = (some invalid, s)
  revoke_managed_from now digest handle c s (some current) =
      let (refused, s') =
        repo.revoke_managed
          (record {
            fence = fence_of digest current now;
            handle = handle;
            correlation_id = trim_space c.correlation_id;
          })
          s in
      (answer "revoke managed session" refused, s')

  -- `RevokeManaged`
  unfoldable pub revoke_managed_session :
      ℕ → RevokeManagedCommand → repo.State → Option SessionFault × repo.State
  unfolding parse_management_handle
  revoke_managed_session now c s = elim (parse_management_handle services (trim_space c.handle)) [
    | err e ↦ (some invalid, s)
    | ok handle ↦
        if is_blank c.credential
          || not (str_eq (trim_space c.handle) c.handle)
          || not (is_correlation c.correlation_id)
        then (some invalid, s)
        else elim (load_active repo services policy "load current session"
            (services.sha256 (trim_space c.credential)) now s) [
              | err e ↦ (some e, s)
              | ok found ↦
                  revoke_managed_from now (services.sha256 (trim_space c.credential)) handle c s
                    found
            ]
  ]

  abbrev pub bad_revocation : RevokeCommand → Bool
  bad_revocation c =
      is_blank c.credential
      || not (str_eq c.scope "current" || str_eq c.scope "subject")
      || not (str_eq c.reference.id "") && not (services.valid_uuid c.reference.id)
      || str_eq c.scope "subject" && not (str_eq c.reference.id "")
      || not (is_correlation c.correlation_id)
      || not (str_eq c.reference.id "")
        && not (str_eq c.reference.credential_digest (services.sha256 c.credential))

  abbrev pub revoke_one : ℕ → RevokeCommand → repo.State → Option SessionFault × repo.State
  revoke_one now c s =
      let (refused, s') =
        repo.revoke_current
          (record {
            credential_digest = services.sha256 c.credential;
            session_id = c.reference.id;
            revoked_at = now;
            correlation_id = trim_space c.correlation_id;
          })
          s in
      (elim refused [ none ↦ none | some e ↦ some (unavailable "revoke current") ], s')

  abbrev pub revoke_every : ℕ → RevokeCommand → repo.State → Option SessionFault × repo.State
  revoke_every now c s =
      let (refused, s') =
        repo.revoke_subject
          (record {
            credential_digest = services.sha256 c.credential;
            revoked_at = now;
            idle_cutoff = now - policy.idle_timeout;
            policy_revision = policy.revision;
            correlation_id = trim_space c.correlation_id;
          })
          s in
      (answer "revoke subject" refused, s')

  -- `Revoke`
  unfoldable pub revoke : ℕ → RevokeCommand → repo.State → Option SessionFault × repo.State
  revoke now c s =
      if bad_revocation c
      then (some invalid, s)
      else if str_eq c.scope "current"
      then revoke_one now c s
      else revoke_every now c s
