-- ===== src/Session/Access.antt =====
-- Whom `Authenticate` of internal/session/manager.go lets in.
use ai_etl_platform.Common.{
  ◌+◌, ◌-◌, ◌<◌, ◌≢◌, ◌⊎◌, inl, inr, eq_iff, ℕ, ◌≡◌, ◌↔◌, inl, inr, refl, String, Option-cases,
  none, some, true, false, get, arith, Outcome-cases, ok, is_blank,
}
use ai_etl_platform.Session.Types.{SessionRecord, active_at}
use ai_etl_platform.Session.Manager.{
  Policy, Principal, principal_of, Repository, Services, allow, AuthenticateResult, authenticate,
  needs_login,
}

module _ (repo : Repository) (services : Services) (policy : Policy) where
  -- What lets a session in: it is the one that the repository loads for the credential's digest,
  -- it is not revoked, neither idle nor past its lifetime, and of the policy's revision, the action
  -- is registered, a risky action finds a fresh login of the right assurance, and the activity could
  -- be stored.
  pub record IsAllowed (now : ℕ) (token action : String) (s : repo.State) (r : SessionRecord)
      : Type 0 where
    pub token_given : is_blank token ≡ false
    pub action_given : is_blank action ≡ false
    pub loaded : repo.load (services.sha256 token) s ≡ ok (some r)
    pub unrevoked : r.revoked_at ≡ none
    pub in_lifetime : now < r.absolute_expires_at
    pub not_idle : now < r.last_activity_at + policy.idle_timeout
    pub same_policy : r.policy_revision ≡ policy.revision
    pub registered :
        (risk : String) × (get policy.action_risks action ≡ some risk)
        × ((risk ≢ "high")
            ⊎ ((r.assurance ≡ policy.high_risk_assurance)
                × (now - r.authenticated_at < policy.high_risk_freshness)))
    pub touched : (repo.touch r.id r.generation now s).0 ≡ none

  -- `Authenticate` allows an action for a principal exactly if the credential's session, which is
  -- that principal's, is let in: any failure of the repository refuses.
  pub authenticate-allow_iff :
      (now : ℕ) (token action : String) (s : repo.State) (p : Principal)
      → ((a : AuthenticateResult) × ((authenticate repo services policy now token action s).0
            ≡ ok a)
          × (a.decision ≡ allow)
          × (a.principal ≡ some p))
        ↔ ((r : SessionRecord) × IsAllowed now token action s r × (principal_of r ≡ p))
  unfolding authenticate
  authenticate-allow_iff now token action s p = (
    λ (a, h, d, q). elim (Outcome-cases (repo.load (services.sha256 token) s)) [
      | inl (x, e) ↦ absurd (ground (arith, h, e))
      | inr (none, e) ↦ absurd (ground (arith, h, e, d))
      | inr (some r, e) ↦ elim (Option-cases (get policy.action_risks action)) [
        | inl f ↦ absurd (ground (arith, h, e, f, d))
        | inr (risk, f) ↦
            let active : active_at r now policy.idle_timeout policy.revision ≡ true =
              ground (arith, h, e, f, d) in
            let fresh : needs_login repo services policy now r risk ≡ false =
              ground (arith, h, e, f, d) in
            (
              r,
              record {
                token_given = ground (arith, h);
                action_given = ground (arith, h);
                loaded = e;
                unrevoked = ground (arith, active);
                in_lifetime = ground (arith, active);
                not_idle = ground (arith, active);
                same_policy = ground (arith, active, eq_iff r.policy_revision policy.revision);
                registered = (
                  risk,
                  f,
                  ground (
                    arith,
                    fresh,
                    eq_iff risk "high",
                    eq_iff r.assurance policy.high_risk_assurance,
                  ),
                );
                touched = ground (arith, h, e, f, d);
              },
              ground (arith, h, e, f, d, q),
            )
      ]
    ],
    λ (r, h, q). (
      record {
        decision = allow;
        principal = some p;
        reference = some (record { id = r.id; credential_digest = services.sha256 token });
      },
      let active : active_at r now policy.idle_timeout policy.revision ≡ true = ground (
        arith,
        h.unrevoked,
        h.in_lifetime,
        h.not_idle,
        h.same_policy,
        eq_iff r.policy_revision policy.revision,
      ) in
          let fresh : needs_login repo services policy now r h.registered.0 ≡ false = ground (
            arith,
            h.registered.2,
            eq_iff h.registered.0 "high",
            eq_iff r.assurance policy.high_risk_assurance,
          ) in
          ground (
            arith, h.token_given, h.action_given, h.loaded, active, h.registered.1, fresh,
            h.touched, q,
          ),
      refl,
      refl,
    ),
  )
