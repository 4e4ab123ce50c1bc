-- ===== src/Session/Rotation.antt =====
-- A credential that replaces another, in internal/session/manager.go over
-- internal/session/memory_store.go.
use ai_etl_platform.Common.{
  ℕ, ◌+◌, ◌≡◌, ◌≢◌, inl, inr, refl, sym, ap, subst, ◌∙◌, String, str_eq, eq_iff, Option-cases, none,
  some, true, false, ◌&&◌, get, remove, arith, Bool-cases, Outcome, ok, get-put, get-remove,
}
use ai_etl_platform.Session.Types.{SessionRecord, active_at, changed, failed}
use ai_etl_platform.Session.Store.{MemoryStore, load, rotate}
use ai_etl_platform.Session.Manager.{
  Policy, memory, Services, SessionFault, Credential, EstablishCommand, establish, new_record,
  rotated, replace_from, establish_record, is_establishable,
}

record IsSwapped (old : String) (r : SessionRecord) (s : MemoryStore) (s' : MemoryStore)
    : Type 0 where
  pub gone : load old s' ≡ none
  pub there : load r.credential_digest s' ≡ some r

rotate-IsSwapped :
    (old id : String) (generation : ℕ) (r : SessionRecord) (s : MemoryStore)
    → (rotate old id generation r s).0 ≡ none
    → IsSwapped old r s (rotate old id generation r s).1
unfolding rotate load
rotate-IsSwapped old id generation r s h = elim (Option-cases (get s.records old)) [
  | inl e ↦ absurd (ground (arith, h, e))
  | inr (current, e) ↦
      let new : get s.records r.credential_digest ≡ none =
        elim (Option-cases (get s.records r.credential_digest)) [
          | inl f ↦ f
          | inr (q, f) ↦ absurd (ground (arith, h, e, f))
        ] in
      let apart : str_eq r.credential_digest old ≡ false =
        ground (arith, e, new, eq_iff r.credential_digest old) in
      record {
        gone = ground (
          arith,
          h,
          e,
          new,
          apart,
          get-put (remove s.records old) r.credential_digest old r,
          get-remove s.records old old,
          eq_iff old old,
        );
        there = ground (
          arith,
          h,
          e,
          new,
          get-put (remove s.records old) r.credential_digest r.credential_digest r,
          eq_iff r.credential_digest r.credential_digest,
        );
      }
]

module _ (services : Services) (policy : Policy) where
  -- What `Establish` did with the credential that it replaced.
  pub record IsReplaced (now : ℕ) (token : String) (c : EstablishCommand) (s : MemoryStore)
      (s' : MemoryStore) (cred : Credential) : Type 0 where
    pub before : SessionRecord
    pub after : SessionRecord
    pub loaded : load (services.sha256 c.replaces_credential) s ≡ some before
    pub active : active_at before now policy.idle_timeout policy.revision ≡ true
    pub gone : load (services.sha256 c.replaces_credential) s' ≡ none
    pub stored : load (services.sha256 token) s' ≡ some after
    pub same_id : after.id ≡ before.id
    pub same_tenant : after.tenant_id ≡ before.tenant_id
    pub same_subject : after.subject_id ≡ before.subject_id
    pub same_end : after.absolute_expires_at ≡ before.absolute_expires_at
    pub next_generation : after.generation ≡ before.generation + 1
    pub given : cred ≡ record { token = token; expires_at = before.absolute_expires_at }

  establish_replaces :
      (now : ℕ) (token id handle : String) (c : EstablishCommand) (s : MemoryStore)
      {cred : Credential}
      → c.replaces_credential ≢ ""
      → (establish memory services policy now (some token) id handle c s).0 ≡ ok cred
      → (current : SessionRecord) × (load (services.sha256 c.replaces_credential) s ≡ some current)
        × (active_at current now policy.idle_timeout policy.revision ≡ true)
        × (establish memory services policy now (some token) id handle c s
            ≡ replace_from memory services policy now token
                (services.sha256 c.replaces_credential)
                (new_record memory services policy now token id handle c)
                s
                (some current))
  unfolding establish load
  establish_replaces now token id handle c s {cred} n h =
      let new = new_record memory services policy now token id handle c in
      let fit : is_establishable memory services policy now c ≡ true = ground (arith, h) in
      let replaces : str_eq c.replaces_credential "" ≡ false =
        ground (arith, n, eq_iff c.replaces_credential "") in
      let step : establish memory services policy now (some token) id handle c s
          ≡ establish_record memory services policy now token new c s =
        ground (arith, fit) in
      let h' : (establish_record memory services policy now token new c s).0 ≡ ok cred =
        sym (ap (λ x. x.0) step) ∙ h in
      elim (Option-cases (get s.records (services.sha256 c.replaces_credential))) [
        | inl e ↦ absurd (ground (arith, replaces, h', e))
        | inr (current, e) ↦
            elim (Bool-cases (active_at current now policy.idle_timeout policy.revision)) [
              | inr a ↦ absurd (ground (arith, replaces, h', e, a))
              | inl a ↦ (current, e, a, step ∙ ground (arith, replaces, e, a))
            ]
      ]

  replaced :
      (now : ℕ) (token : String) (c : EstablishCommand) (s : MemoryStore)
      (current new : SessionRecord) {cred : Credential}
      (result : Outcome SessionFault Credential × MemoryStore)
      → load (services.sha256 c.replaces_credential) s ≡ some current
      → active_at current now policy.idle_timeout policy.revision ≡ true
      → new.credential_digest ≡ services.sha256 token
      → result
        ≡ replace_from memory services policy now token
            (services.sha256 c.replaces_credential)
            new
            s
            (some current)
      → result.0 ≡ ok cred
      → IsReplaced now token c s result.1 cred
  replaced now token c s current new {cred} result e active digest step h =
      let old = services.sha256 c.replaces_credential in
      let r = rotated memory services policy current new in
      let h' : (replace_from memory services policy now token old new s (some current)).0
          ≡ ok cred =
        sym (ap (λ x. x.0) step) ∙ h in
      let same : (str_eq current.tenant_id new.tenant_id
            && str_eq current.subject_id new.subject_id
            && str_eq current.authentication_method new.authentication_method)
          ≡ true =
        ground (arith, h') in
      elim (Option-cases (rotate old current.id current.generation r s).0) [
        | inr (changed, f) ↦ absurd (ground (arith, h', f))
        | inr (failed x, f) ↦ absurd (ground (arith, h', f))
        | inl f ↦
            let after : result.1 ≡ (rotate old current.id current.generation r s).1 =
              ap (λ x. x.1) step ∙ ground (arith, same, f) in
            let swapped =
              subst (IsSwapped old r s) (sym after)
                (rotate-IsSwapped old current.id current.generation r s f) in
            record {
              before = current;
              after = r;
              loaded = e;
              active = active;
              gone = swapped.gone;
              stored = subst (λ d. load d result.1 ≡ some r) digest swapped.there;
              same_id = refl;
              same_tenant = ground (arith, same, eq_iff current.tenant_id new.tenant_id);
              same_subject = ground (arith, same, eq_iff current.subject_id new.subject_id);
              same_end = refl;
              next_generation = refl;
              given = ground (arith, same, h', f);
            }
      ]

  -- A call of `Establish` that replaces a credential and succeeds found an active session of the
  -- same user under it; the session goes on under the new token alone, with its id and the end of
  -- its lifetime, which the caller is told, and nothing is stored for the old credential.
  pub establish-IsReplaced :
      (now : ℕ) (token id handle : String) (c : EstablishCommand) (s : MemoryStore)
      {cred : Credential}
      → c.replaces_credential ≢ ""
      → (establish memory services policy now (some token) id handle c s).0 ≡ ok cred
      → IsReplaced now token c s
          (establish memory services policy now (some token) id handle c s).1
          cred
  establish-IsReplaced now token id handle c s {cred} n h =
      let old = services.sha256 c.replaces_credential in
      let new = new_record memory services policy now token id handle c in
      let (current, e, active, same) =
        establish_replaces now token id handle c s {cred = cred} n h in
      replaced now token c s current new {cred = cred}
        (establish memory services policy now (some token) id handle c s) e active refl same h
