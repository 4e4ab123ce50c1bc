-- ===== src/Session/Store/Steps.antt =====
-- What a call of the store of internal/session/memory_store.go does to the record under a digest.
use ai_etl_platform.Common.{
  ℕ, ◌+◌, ◌-◌, ◌≡◌, inl, inr, refl, sym, subst, subst₂, String, str_eq, eq_iff, Option,
  Option-cases, none, some, List, Bool, false, not, ◌||◌, if◌then◌else◌, ltb, ◌==◌, Dict, get,
  remove, has, get-put, get-remove, arith, Bool-cases,
}
use ai_etl_platform.Session.Types.{
  SessionRecord, active_at, Creation, CurrentRevocation, ManagedRevocation, SubjectRevocation,
  revoked,
}
use ai_etl_platform.Session.Store.{
  MemoryStore, Mark, is_fenced, update_first, evict, make_room, create, touch, rotate,
  revoke_current, revoke_managed, revoke_subject, Command, run, is_open_of, is_open, is_version,
  is_managed, is_counted, find_first, select, sort_created, to_create, to_touch, to_rotate,
  to_revoke_current, to_revoke_managed, to_revoke_subject,
}
use ai_etl_platform.Session.Store.Later.{
  IsLater, Later, IsLater-refl, Later-refl, revoked-IsLater, Later-via, update_first-Later,
  get-update_all, evict-Later,
}

-- What a call does under a digest: the session there goes on, a session comes that no earlier
-- revocation of its user covers, or a session that is not revoked goes.
pub data Step (marks : List Mark) (o : Option SessionRecord) (o' : Option SessionRecord)
    : Type 0 where
  goes_on : Later o o' → Step marks o o'
  comes : (r : SessionRecord) → o ≡ none → o' ≡ some r → is_fenced marks r ≡ false → Step marks o o'
  goes : (r : SessionRecord) → o ≡ some r → has r.revoked_at ≡ false → o' ≡ none → Step marks o o'

stays-Step :
    {marks : List Mark} (o : Option SessionRecord) {o' : Option SessionRecord}
    → o' ≡ o
    → Step marks o o'
stays-Step o e = goes_on (subst₂ Later refl (sym e) (Later-refl o))

-- the record under a digest before and after a call
abbrev pub Steps : MemoryStore → MemoryStore → String → Type 0
Steps s s' d = Step s.subject_revoked_before (get s.records d) (get s'.records d)

make_room-Later :
    (c : Creation) (m : Dict SessionRecord) (d : String) → Later (get m d) (get (make_room c m) d)
make_room-Later c m d = elim (Bool-cases (ltb 0 c.max_active_sessions)) [
  | inl e ↦
      Later-via {a = get m d} {b = get (make_room c m) d} (get m d)
        (get (evict c (sort_created (select (is_counted c) m)) m) d) refl (ground (arith, e))
        (evict-Later c (sort_created (select (is_counted c) m)) m d)
  | inr e ↦
      Later-via {a = get m d} {b = get (make_room c m) d} (get m d) (get m d) refl
        (ground (arith, e)) (Later-refl (get m d))
]

-- a call that changes the first record of some kind
first-Step :
    (test : SessionRecord → Bool) (change : SessionRecord → SessionRecord)
    (later : (r : SessionRecord) → IsLater r (change r)) (s s' : MemoryStore) (d : String)
    → s'.records ≡ update_first test change s.records
    → Steps s s' d
first-Step test change later s s' d e =
    subst (λ m. Step s.subject_revoked_before (get s.records d) (get m d)) (sym e)
      (goes_on (update_first-Later test change later s.records d))

create-Step : (c : Creation) (s : MemoryStore) (d : String) → Steps s (create c s).1 d
unfolding create
create-Step c s d =
    let v : SessionRecord = record c.value { creation_order = s.next_creation_order + 1 } in
    elim (Bool-cases (is_fenced s.subject_revoked_before c.value)) [
      | inl e ↦ stays-Step (get s.records d) (ground (arith, e))
      | inr e ↦ elim (Option-cases (get s.records c.value.credential_digest)) [
        | inr (r, f) ↦ stays-Step (get s.records d) (ground (arith, e, f))
        | inl f ↦ elim (Bool-cases (str_eq c.value.credential_digest d)) [
          | inl g ↦
              comes v (ground (arith, f, g, eq_iff c.value.credential_digest d))
                (ground
                  (arith, e, f, g, get-put (make_room c s.records) c.value.credential_digest d v))
                e
          | inr g ↦ goes_on (
              Later-via (get s.records d) (get (make_room c s.records) d) refl
                (ground
                  (arith, e, f, g, get-put (make_room c s.records) c.value.credential_digest d v))
                (make_room-Later c s.records d))
        ]
      ]
    ]

touch-Step :
    (id : String) (generation at : ℕ) (s : MemoryStore) (d : String)
    → Steps s (touch id generation at s).1 d
unfolding touch
touch-Step id generation at s d =
    elim (Bool-cases (has (find_first (is_version id generation) s.records))) [
      | inl e ↦
          first-Step (is_version id generation) (λ r. record r { last_activity_at = at })
            (λ r. record {
              same_id = refl;
              same_tenant = refl;
              same_subject = refl;
              same_login = refl;
              stays = λ h. h;
            })
            s (touch id generation at s).1 d (ground (arith, e))
      | inr e ↦ stays-Step (get s.records d) (ground (arith, e))
    ]

rotate-Step :
    (old id : String) (generation : ℕ) (r : SessionRecord) (s : MemoryStore) (d : String)
    → Steps s (rotate old id generation r s).1 d
unfolding rotate
rotate-Step old id generation r s d = elim (Option-cases (get s.records old)) [
  | inl e ↦ stays-Step (get s.records d) (ground (arith, e))
  | inr (current, e) ↦ elim (Option-cases (get s.records r.credential_digest)) [
    | inr (q, f) ↦ stays-Step (get s.records d) (ground (arith, e, f))
    | inl f ↦
        elim (Bool-cases (
          not (str_eq current.id id)
          || not (current.generation == generation)
          || has current.revoked_at
          || is_fenced s.subject_revoked_before r)) [
            | inl g ↦ stays-Step (get s.records d) (ground (arith, e, f, g))
            | inr g ↦ elim (Bool-cases (str_eq r.credential_digest d)) [
              | inl h ↦
                  comes r (ground (arith, f, h, eq_iff r.credential_digest d))
                    (ground
                      (arith, e, f, g, h, get-put (remove s.records old) r.credential_digest d r))
                    (ground (arith, g))
              | inr h ↦ elim (Bool-cases (str_eq old d)) [
                | inl k ↦ goes current (ground (arith, e, k, eq_iff old d)) (ground (arith, g)) (
                    ground (
                      arith,
                      e,
                      f,
                      g,
                      h,
                      k,
                      get-put (remove s.records old) r.credential_digest d r,
                      get-remove s.records old d,
                    ))
                | inr k ↦ stays-Step (get s.records d) (
                    ground (
                      arith,
                      e,
                      f,
                      g,
                      h,
                      k,
                      get-put (remove s.records old) r.credential_digest d r,
                      get-remove s.records old d,
                    ))
              ]
            ]
          ]
  ]
]

revoke_current-Step :
    (c : CurrentRevocation) (s : MemoryStore) (d : String) → Steps s (revoke_current c s).1 d
unfolding revoke_current
revoke_current-Step c s d = elim (Bool-cases (str_eq c.session_id "")) [
  | inr e ↦
      first-Step (is_open c.session_id) (revoked c.revoked_at c.correlation_id)
        (revoked-IsLater c.revoked_at c.correlation_id) s (revoke_current c s).1 d
        (ground (arith, e))
  | inl e ↦ elim (Option-cases (get s.records c.credential_digest)) [
    | inl f ↦ stays-Step (get s.records d) (ground (arith, e, f))
    | inr (r, f) ↦ elim (Bool-cases (has r.revoked_at)) [
      | inl g ↦ stays-Step (get s.records d) (ground (arith, e, f, g))
      | inr g ↦
          let q = revoked c.revoked_at c.correlation_id r in
          elim (Bool-cases (str_eq c.credential_digest d)) [
            | inl h ↦ goes_on (
                Later-via (some r) (some q) (ground (arith, f, h, eq_iff c.credential_digest d))
                  (ground (arith, e, f, g, h, get-put s.records c.credential_digest d q))
                  (q, refl, revoked-IsLater c.revoked_at c.correlation_id r))
            | inr h ↦
                stays-Step (get s.records d)
                  (ground (arith, e, f, g, h, get-put s.records c.credential_digest d q))
          ]
    ]
  ]
]

revoke_managed-Step :
    (c : ManagedRevocation) (s : MemoryStore) (d : String) → Steps s (revoke_managed c s).1 d
unfolding revoke_managed
revoke_managed-Step c s d = elim (Option-cases (get s.records c.fence.credential_digest)) [
  | inl e ↦ stays-Step (get s.records d) (ground (arith, e))
  | inr (current, e) ↦ elim (Option-cases (find_first (is_managed c) s.records)) [
    | inl f ↦ stays-Step (get s.records d) (ground (arith, e, f))
    | inr (r, f) ↦
        elim (Bool-cases (
          has (revoke_managed c s).0
          || str_eq r.id current.id
          || not (
              active_at r c.fence.at (c.fence.at - c.fence.idle_cutoff) c.fence.policy_revision))) [
                | inl g ↦ stays-Step (get s.records d) (ground (arith, e, f, g))
                | inr g ↦
                    first-Step (is_managed c) (revoked c.fence.at c.correlation_id)
                      (revoked-IsLater c.fence.at c.correlation_id) s (revoke_managed c s).1 d
                      (ground (arith, e, f, g))
              ]
  ]
]

-- the records after a revocation of all sessions of a user
abbrev pub all_revoked : SubjectRevocation → SessionRecord → SessionRecord → SessionRecord
all_revoked c credential r =
    if is_open_of credential r then revoked c.revoked_at c.correlation_id r else r

all_revoked-IsLater :
    (c : SubjectRevocation) (credential r : SessionRecord) → IsLater r (all_revoked c credential r)
all_revoked-IsLater c credential r = elim (Bool-cases (is_open_of credential r)) [
  | inl e ↦ rw e (revoked-IsLater c.revoked_at c.correlation_id r)
  | inr e ↦ rw e (IsLater-refl r)
]

revoke_subject-Step :
    (c : SubjectRevocation) (s : MemoryStore) (d : String) → Steps s (revoke_subject c s).1 d
unfolding revoke_subject
revoke_subject-Step c s d = elim (Option-cases (get s.records c.credential_digest)) [
  | inl e ↦ stays-Step (get s.records d) (ground (arith, e))
  | inr (credential, e) ↦
      elim (Bool-cases
        (active_at credential c.revoked_at (c.revoked_at - c.idle_cutoff) c.policy_revision)) [
          | inr f ↦ stays-Step (get s.records d) (ground (arith, e, f))
          | inl f ↦ elim (Option-cases (get s.records d)) [
            | inl g ↦ stays-Step (get s.records d) (
                ground (
                  arith,
                  e,
                  f,
                  g,
                  get-update_all (is_open_of credential) (revoked c.revoked_at c.correlation_id)
                      (revoked-IsLater c.revoked_at c.correlation_id) s.records d,
                ))
            | inr (r, g) ↦ goes_on (
                Later-via (some r) (some (all_revoked c credential r)) g
                  (ground (
                    arith,
                    e,
                    f,
                    g,
                    get-update_all (is_open_of credential) (revoked c.revoked_at c.correlation_id)
                        (revoked-IsLater c.revoked_at c.correlation_id) s.records d,
                  ))
                  (all_revoked c credential r, refl, all_revoked-IsLater c credential r))
          ]
        ]
]

-- Every call of the store is a step under every digest.
pub run-Steps : (c : Command) (s : MemoryStore) (d : String) → Steps s (run c s) d
run-Steps (to_create c) s d = create-Step c s d
run-Steps (to_touch id generation at) s d = touch-Step id generation at s d
run-Steps (to_rotate digest id generation r) s d = rotate-Step digest id generation r s d
run-Steps (to_revoke_current c) s d = revoke_current-Step c s d
run-Steps (to_revoke_managed c) s d = revoke_managed-Step c s d
run-Steps (to_revoke_subject c) s d = revoke_subject-Step c s d
