-- ===== src/Session/Lifecycle.antt =====
-- Sessions of internal/session/manager.go over the store of internal/session/memory_store.go, from
-- `Establish` to `Revoke`.
use ai_etl_platform.Common.{
  ℕ, ◌+◌, ◌-◌, ◌<◌, ◌≡◌, inl, inr, refl, sym, ap, subst, String, str_eq, eq_iff, Option-cases, none,
  some, List, [], ◌∷◌, Bool, true, false, Dict, get, has, arith, Bool-cases, ok, is_blank, get-put,
  trim_space,
}
use ai_etl_platform.Session.Types.{SessionRecord, Creation, changed, failed, revoked}
use ai_etl_platform.Session.Store.{
  MemoryStore, load, create, touch, find_first, is_version, make_room, Command, run_all,
  revoke_current,
}
use ai_etl_platform.Session.Store.Revocation.{IsRevoked, run_all-IsRevoked}
use ai_etl_platform.Session.Manager.{
  Policy, memory, Services, allow, AuthenticateResult, denied, authenticate, RevokeCommand, revoke,
  Credential, EstablishCommand, establish, new_record, is_establishable,
}
use ai_etl_platform.Session.Access.{authenticate-allow_iff}

create-load :
    (c : Creation) (s : MemoryStore)
    → (create c s).0 ≡ none
    → load c.value.credential_digest (create c s).1
      ≡ some (record c.value { creation_order = s.next_creation_order + 1 })
unfolding create load
create-load c s h =
    let v : SessionRecord = record c.value { creation_order = s.next_creation_order + 1 } in
    ground (
      arith,
      h,
      get-put (make_room c s.records) c.value.credential_digest c.value.credential_digest v,
      eq_iff c.value.credential_digest c.value.credential_digest,
    )

find_first-get :
    (test : SessionRecord → Bool) (m : Dict SessionRecord) (d : String) {r : SessionRecord}
    → get m d ≡ some r
    → test r ≡ true
    → has (find_first test m) ≡ true
unfolding get find_first
find_first-get test [] d e t = absurd (ground (arith, e))
find_first-get test ((j, q) ∷ m) d {r} e t = elim (Bool-cases (str_eq j d)) [
  | inl f ↦
      let same : q ≡ r = ground (arith, e, f) in
      ground (arith, subst (λ x. test x ≡ true) (sym same) t)
  | inr f ↦ let ih = find_first-get test m d {r = r} (ground (arith, e, f)) t in ground (arith, ih)
]

-- the activity of a session that is there can be stored
touch-loaded :
    (at : ℕ) (d : String) (s : MemoryStore) (r : SessionRecord)
    → load d s ≡ some r
    → (touch r.id r.generation at s).0 ≡ none
unfolding touch load
touch-loaded at d s r e =
    let f =
      find_first-get (is_version r.id r.generation) s.records d {r = r} e
        (ground (arith, eq_iff r.id r.id)) in
    ground (arith, f)

module _ (services : Services) (policy : Policy) where
  authenticate-denied :
      (now : ℕ) (token action : String) (s : MemoryStore)
      → IsRevoked (services.sha256 token) s
      → is_blank token ≡ false
      → is_blank action ≡ false
      → (authenticate memory services policy now token action s).0 ≡ ok denied
  unfolding authenticate
  authenticate-denied now token action s (r, e, h) t a = ground (arith, e, h, t, a)

  revoke-IsRevoked :
      (now : ℕ) (c : RevokeCommand) (s : MemoryStore) (r : SessionRecord)
      → load (services.sha256 c.credential) s ≡ some r
      → c.scope ≡ "current"
      → c.reference.id ≡ ""
      → (revoke memory services policy now c s).0 ≡ none
      → IsRevoked (services.sha256 c.credential) (revoke memory services policy now c s).1
  unfolding revoke load revoke_current
  revoke-IsRevoked now c s r e scope id h = elim (Bool-cases (has r.revoked_at)) [
    | inl g ↦ (
      r,
      ground (arith, e, scope, id, h, g, eq_iff c.scope "current", eq_iff c.reference.id ""),
      g,
    )
    | inr g ↦
        let q : SessionRecord = revoked now (trim_space c.correlation_id) r in
        (
          q,
          ground (
            arith,
            e,
            scope,
            id,
            h,
            g,
            eq_iff c.scope "current",
            eq_iff c.reference.id "",
            get-put s.records (services.sha256 c.credential) (services.sha256 c.credential) q,
            eq_iff (services.sha256 c.credential) (services.sha256 c.credential),
          ),
          refl,
        )
  ]

  -- Once a call of `Revoke` of the current session, named by its credential alone, has succeeded,
  -- the credential is refused for every action at any time, whatever calls of the store come in
  -- between.
  pub revoke-authenticate :
      (now : ℕ) (c : RevokeCommand) (s : MemoryStore) (r : SessionRecord) (cs : List Command)
      (later : ℕ) (action : String)
      → load (services.sha256 c.credential) s ≡ some r
      → c.scope ≡ "current"
      → c.reference.id ≡ ""
      → (revoke memory services policy now c s).0 ≡ none
      → is_blank action ≡ false
      → (authenticate memory services policy later c.credential action
          (run_all cs (revoke memory services policy now c s).1)).0
        ≡ ok denied
  unfolding revoke
  revoke-authenticate now c s r cs later action e scope id h a =
      authenticate-denied later c.credential action
        (run_all cs (revoke memory services policy now c s).1)
        (run_all-IsRevoked cs (revoke memory services policy now c s).1
          (services.sha256 c.credential) (revoke-IsRevoked now c s r e scope id h))
        (ground (arith, h)) a

  -- what `Establish` asks the store to create
  abbrev creation_of : ℕ → String → String → String → EstablishCommand → Creation
  creation_of now token id handle c = record {
    value = new_record memory services policy now token id handle c;
    max_active_sessions = policy.max_active_sessions;
    at = now;
    idle_cutoff = now - policy.idle_timeout;
    policy_revision = policy.revision;
  }

  establish_creates :
      (now : ℕ) (token id handle : String) (c : EstablishCommand) (s : MemoryStore)
      {cred : Credential}
      → c.replaces_credential ≡ ""
      → (establish memory services policy now (some token) id handle c s).0 ≡ ok cred
      → ((create (creation_of now token id handle c) s).0 ≡ none)
        × ((establish memory services policy now (some token) id handle c s).1
            ≡ (create (creation_of now token id handle c) s).1)
        × (cred.token ≡ token)
  unfolding establish
  establish_creates now token id handle c s n h =
      let fit : is_establishable memory services policy now c ≡ true = ground (arith, h) in
      let fresh : str_eq c.replaces_credential "" ≡ true =
        ground (arith, n, eq_iff c.replaces_credential "") in
      elim (Option-cases (create (creation_of now token id handle c) s).0) [
        | inl e ↦ (e, ground (arith, fit, fresh, e), ground (arith, fit, fresh, h, e))
        | inr (changed, e) ↦ absurd (ground (arith, fit, fresh, h, e))
        | inr (failed x, e) ↦ absurd (ground (arith, fit, fresh, h, e))
      ]

  -- A session that `Establish` opened without replacing one lets its token in, for a registered
  -- action of standard risk, at any time before its idle timeout and its lifetime are over.
  pub establish-authenticate :
      (now : ℕ) (token id handle : String) (c : EstablishCommand) (s : MemoryStore)
      {cred : Credential} (later : ℕ) (action : String)
      → c.replaces_credential ≡ ""
      → (establish memory services policy now (some token) id handle c s).0 ≡ ok cred
      → later < now + policy.idle_timeout
      → later < now + policy.absolute_lifetime
      → is_blank token ≡ false
      → is_blank action ≡ false
      → get policy.action_risks action ≡ some "standard"
      → (a : AuthenticateResult) × ((authenticate memory services policy later cred.token action
            (establish memory services policy now (some token) id handle c s).1).0
          ≡ ok a)
        × (a.decision ≡ allow)
        × (a.principal ≡ some c.principal)
  establish-authenticate now token id handle c s {cred} later action n h idle life t a risk =
      let (created, same, tok) = establish_creates now token id handle c s {cred = cred} n h in
      let k = creation_of now token id handle c in
      let r : SessionRecord = record k.value { creation_order = s.next_creation_order + 1 } in
      let there : load (services.sha256 token)
            (establish memory services policy now (some token) id handle c s).1
          ≡ some r =
        subst (λ x. load (services.sha256 token) x ≡ some r) (sym same) (create-load k s created) in
      subst
        (λ x.
          (a : AuthenticateResult) × ((authenticate memory services policy later x action
              (establish memory services policy now (some token) id handle c s).1).0
            ≡ ok a)
          × (a.decision ≡ allow)
          × (a.principal ≡ some c.principal))
        (sym tok)
        ((authenticate-allow_iff memory services policy later token action
            (establish memory services policy now (some token) id handle c s).1 c.principal).1
          (
            r,
            record {
              token_given = t;
              action_given = a;
              loaded = ap ok there;
              unrevoked = refl;
              in_lifetime = life;
              not_idle = idle;
              same_policy = refl;
              registered = (
                "standard",
                risk,
                inl (λ e. absurd (ground (arith, e, eq_iff "standard" "high"))),
              );
              touched = touch-loaded later (services.sha256 token) _ r there;
            },
            refl,
          ))
