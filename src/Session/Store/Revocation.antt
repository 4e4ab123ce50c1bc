-- ===== src/Session/Store/Revocation.antt =====
-- Revocations in the store of internal/session/memory_store.go are final.
use ai_etl_platform.Common.{
  ℕ, ◌-◌, ◌≤◌, ◌<◌, ◌≡◌, inl, inr, subst, String, str_eq, eq_iff, Option-cases, none, some, List,
  [], ◌∷◌, true, false, ◌&&◌, get, has, arith, Bool-cases, All,
}
use ai_etl_platform.Session.Types.{SessionRecord, active_at, SubjectRevocation, revoked, is_subject}
use ai_etl_platform.Session.Store.{
  MemoryStore, Mark, find_mark, is_fenced, load, create, touch, rotate, revoke_current,
  revoke_managed, revoke_subject, Command, run, run_all, is_open_of, to_create, to_touch, to_rotate,
  to_revoke_current, to_revoke_managed, to_revoke_subject,
}
use ai_etl_platform.Session.Store.Later.{IsLater, Later, get-update_all, revoked-IsLater}
use ai_etl_platform.Session.Store.Steps.{goes_on, comes, goes, run-Steps}

-- There is a session under the digest, and it is revoked.
abbrev pub IsRevoked : String → MemoryStore → Type 0
IsRevoked digest s = (r : SessionRecord) × (load digest s ≡ some r) × (has r.revoked_at ≡ true)

run-IsRevoked :
    (c : Command) (s : MemoryStore) (digest : String)
    → IsRevoked digest s
    → IsRevoked digest (run c s)
unfolding load
run-IsRevoked c s digest (r, e, h) = elim (run-Steps c s digest) [
  | goes_on k ↦
      let (q, f, l) = subst (λ o. Later o (get (run c s).records digest)) e k in (q, f, l.stays h)
  | comes q f g i ↦ absurd (ground (arith, e, f))
  | goes q f g i ↦ absurd (ground (arith, e, f, g, h))
]

-- A session that is revoked stays in the store and stays revoked, whatever calls come later.
pub run_all-IsRevoked :
    (cs : List Command) (s : MemoryStore) (digest : String)
    → IsRevoked digest s
    → IsRevoked digest (run_all cs s)
run_all-IsRevoked [] s digest h = h
run_all-IsRevoked (c ∷ cs) s digest h =
    run_all-IsRevoked cs (run c s) digest (run-IsRevoked c s digest h)

-- The user's sessions are revoked up to a time: a mark bars logins up to then, and each session
-- from a login up to then is revoked.
pub record IsCleared (tenant subject : String) (at : ℕ) (s : MemoryStore) : Type 0 where
  pub mark : ℕ
  pub marked : find_mark s.subject_revoked_before tenant subject ≡ some mark
  pub barred : at ≤ mark
  pub closed :
      (digest : String) (r : SessionRecord)
      → load digest s ≡ some r
      → is_subject tenant subject r ≡ true
      → r.authenticated_at ≤ at
      → has r.revoked_at ≡ true

-- A call that revokes all sessions of a user does so no earlier than a time.
abbrev pub IsOnTime : ℕ → Command → Type 0
IsOnTime at (to_revoke_subject c) = at ≤ c.revoked_at
IsOnTime at _ = Unit

-- the marks change only with a revocation of all sessions of a user
run-marked :
    (tenant subject : String) (at : ℕ) (c : Command) (s : MemoryStore) (mark : ℕ)
    → IsOnTime at c
    → find_mark s.subject_revoked_before tenant subject ≡ some mark
    → at ≤ mark
    → (t : ℕ) × (find_mark (run c s).subject_revoked_before tenant subject ≡ some t) × (at ≤ t)
unfolding create touch rotate revoke_current revoke_managed revoke_subject find_mark
run-marked tenant subject at (to_create c) s mark o e h = (mark, ground (arith, e), h)
run-marked tenant subject at (to_touch id generation now) s mark o e h =
    (mark, ground (arith, e), h)
run-marked tenant subject at (to_rotate digest id generation r) s mark o e h =
    (mark, ground (arith, e), h)
run-marked tenant subject at (to_revoke_current c) s mark o e h = (mark, ground (arith, e), h)
run-marked tenant subject at (to_revoke_managed c) s mark o e h = (mark, ground (arith, e), h)
run-marked tenant subject at (to_revoke_subject c) s mark o e h =
    elim (Option-cases (get s.records c.credential_digest)) [
      | inl f ↦ (mark, ground (arith, e, f), h)
      | inr (r, f) ↦
          elim (Bool-cases
            (active_at r c.revoked_at (c.revoked_at - c.idle_cutoff) c.policy_revision)) [
              | inr g ↦ (mark, ground (arith, e, f, g), h)
              | inl g ↦
                  elim (Bool-cases (str_eq r.tenant_id tenant && str_eq r.subject_id subject)) [
                    | inl k ↦ (c.revoked_at, ground (arith, e, f, g, k), o)
                    | inr k ↦ (mark, ground (arith, e, f, g, k), h)
                  ]
            ]
    ]

later-closed :
    (tenant subject : String) (at : ℕ) (r q : SessionRecord)
    → IsLater r q
    → (is_subject tenant subject r ≡ true → r.authenticated_at ≤ at → has r.revoked_at ≡ true)
    → is_subject tenant subject q ≡ true
    → q.authenticated_at ≤ at
    → has q.revoked_at ≡ true
later-closed tenant subject at r q l h u early =
    l.stays
      (h (ground (arith, u, l.same_tenant, l.same_subject)) (ground (arith, early, l.same_login)))

-- a session that comes is from a later login
comes-closed :
    (tenant subject : String) (at : ℕ) (marks : List Mark) (mark : ℕ) (q : SessionRecord)
    → find_mark marks tenant subject ≡ some mark
    → at ≤ mark
    → is_fenced marks q ≡ false
    → is_subject tenant subject q ≡ true
    → at < q.authenticated_at
comes-closed tenant subject at marks mark q e h f u =
    let t : q.tenant_id ≡ tenant = ground (arith, u, eq_iff q.tenant_id tenant) in
    let s : q.subject_id ≡ subject = ground (arith, u, eq_iff q.subject_id subject) in
    ground (arith, e, h, f, t, s)

run-IsCleared :
    (tenant subject : String) (at : ℕ) (c : Command) (s : MemoryStore)
    → IsOnTime at c
    → IsCleared tenant subject at s
    → IsCleared tenant subject at (run c s)
unfolding load
run-IsCleared tenant subject at c s o h =
    let (t, e, k) = run-marked tenant subject at c s h.mark o h.marked h.barred in
    record {
      mark = t;
      marked = e;
      barred = k;
      closed = λ digest q f u early. elim (run-Steps c s digest) [
        | goes_on l ↦ elim (Option-cases (get s.records digest)) [
          | inl g ↦
              absurd (ground (arith, f, subst (λ o. Later o (get (run c s).records digest)) g l))
          | inr (r, g) ↦
              let (q', f', later) = subst (λ o. Later o (get (run c s).records digest)) g l in
              let same : q' ≡ q = ground (arith, f, f') in
              later-closed tenant subject at r q (subst (IsLater r) same later)
                (h.closed digest r g) u early
        ]
        | comes r g i j ↦
            let same : r ≡ q = ground (arith, f, i) in
            let later =
              comes-closed tenant subject at s.subject_revoked_before h.mark q h.marked h.barred
                (subst (λ x. is_fenced s.subject_revoked_before x ≡ false) same j) u in
            absurd (omega (arith, later, early))
        | goes r g i j ↦ absurd (ground (arith, f, j))
      ];
    }

run_all-IsCleared :
    (tenant subject : String) (at : ℕ) (cs : List Command) (s : MemoryStore)
    → All (IsOnTime at) cs
    → IsCleared tenant subject at s
    → IsCleared tenant subject at (run_all cs s)
run_all-IsCleared tenant subject at [] s o h = h
run_all-IsCleared tenant subject at (c ∷ cs) s o h =
    run_all-IsCleared tenant subject at cs (run c s) o.1 (run-IsCleared tenant subject at c s o.0 h)

-- A successful revocation of all sessions of a user clears the user up to its time.
revoke_subject-IsCleared :
    (c : SubjectRevocation) (s : MemoryStore) (credential : SessionRecord)
    → load c.credential_digest s ≡ some credential
    → (revoke_subject c s).0 ≡ none
    → IsCleared credential.tenant_id credential.subject_id c.revoked_at (revoke_subject c s).1
unfolding load revoke_subject find_mark
revoke_subject-IsCleared c s credential e h = record {
  mark = c.revoked_at;
  marked = ground (
    arith,
    e,
    h,
    eq_iff credential.tenant_id credential.tenant_id,
    eq_iff credential.subject_id credential.subject_id,
  );
  barred = omega arith;
  closed = λ digest r f u early. ground (
    arith,
    e,
    h,
    f,
    u,
    get-update_all (is_open_of credential) (revoked c.revoked_at c.correlation_id)
        (revoked-IsLater c.revoked_at c.correlation_id) s.records digest,
  );
}

-- Once a call of the store that revokes all sessions of a user, with the digest of a session of
-- theirs, has succeeded, the user stays cleared up to its time whatever calls follow, as long as
-- no later such call reads an earlier clock: each session of theirs in the store that is from a
-- login up to that time is revoked, and a mark of that time or a later one bars such logins.
pub revoke_subject-final :
    (c : SubjectRevocation) (s : MemoryStore) (credential : SessionRecord) (cs : List Command)
    → load c.credential_digest s ≡ some credential
    → (revoke_subject c s).0 ≡ none
    → All (IsOnTime c.revoked_at) cs
    → IsCleared credential.tenant_id credential.subject_id c.revoked_at
        (run_all cs (revoke_subject c s).1)
revoke_subject-final c s credential cs e h o =
    run_all-IsCleared credential.tenant_id credential.subject_id c.revoked_at cs
      (revoke_subject c s).1 o (revoke_subject-IsCleared c s credential e h)
