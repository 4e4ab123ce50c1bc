-- ===== src/Session/Store.antt =====
-- internal/session/memory_store.go: memoryStore. Every method holds the mutex for its whole length.
-- A range over the records visits them in the order of the association list.
pub mod Later
pub mod Steps
pub mod Revocation
use ai_etl_platform.Common.{
  ℕ, ◌+◌, ◌-◌, String, str_eq, Option, none, some, List, [], ◌∷◌, ◌++◌, Bool, true, false, not,
  ◌&&◌, ◌||◌, if◌then◌else◌, ltb, leb, ◌==◌, Dict, get, put, remove, has, Outcome, ok, err, length,
  map,
}
use ai_etl_platform.Session.Types.{
  SessionRecord, active_at, Creation, SessionFence, CurrentRevocation, ManagedRevocation,
  SubjectRevocation, StoreFault, changed, failed, revoked, is_subject,
}

pub record Mark : Type 0 where
  pub tenant_id : String
  pub subject_id : String
  pub at : ℕ

-- `subjectRevokedBefore` lists what was stored last first
pub record MemoryStore : Type 0 where
  pub records : Dict SessionRecord
  pub subject_revoked_before : List Mark
  pub next_creation_order : ℕ

abbrev pub memory_store : MemoryStore
memory_store = record { records = []; subject_revoked_before = []; next_creation_order = 0 }

unfoldable pub find_mark : List Mark → String → String → Option ℕ
find_mark [] tenant_id subject_id = none
find_mark (m ∷ ms) tenant_id subject_id =
    let rest = find_mark ms tenant_id subject_id in
    if str_eq m.tenant_id tenant_id && str_eq m.subject_id subject_id then some m.at else rest

-- whether the subject was revoked when or after the session's user logged in
abbrev pub is_fenced : List Mark → SessionRecord → Bool
is_fenced marks r = elim (find_mark marks r.tenant_id r.subject_id) [
  | none ↦ false
  | some t ↦ leb r.authenticated_at t
]

-- the first record that passes a test is changed, and whether there is one
unfoldable pub update_first :
    (SessionRecord → Bool)
    → (SessionRecord → SessionRecord)
    → Dict SessionRecord
    → Dict SessionRecord
update_first test change [] = []
update_first test change ((d, r) ∷ m) =
    let rest = update_first test change m in if test r then (d, change r) ∷ m else (d, r) ∷ rest

unfoldable pub find_first : (SessionRecord → Bool) → Dict SessionRecord → Option SessionRecord
find_first test [] = none
find_first test ((d, r) ∷ m) = let rest = find_first test m in if test r then some r else rest

unfoldable pub update_all :
    (SessionRecord → Bool)
    → (SessionRecord → SessionRecord)
    → Dict SessionRecord
    → Dict SessionRecord
update_all test change [] = []
update_all test change ((d, r) ∷ m) =
    let rest = update_all test change m in if test r then (d, change r) ∷ rest else (d, r) ∷ rest

unfoldable pub select : (SessionRecord → Bool) → Dict SessionRecord → List SessionRecord
select test [] = []
select test ((d, r) ∷ m) = let rest = select test m in if test r then r ∷ rest else rest

unfoldable pub insert_created : SessionRecord → List SessionRecord → List SessionRecord
insert_created r [] = r ∷ []
insert_created r (q ∷ qs) =
    let rest = insert_created r qs in
    if ltb q.creation_order r.creation_order then q ∷ rest else r ∷ q ∷ qs

unfoldable pub sort_created : List SessionRecord → List SessionRecord
unfolding insert_created
sort_created [] = []
sort_created (r ∷ rs) = insert_created r (sort_created rs)

abbrev pub is_counted : Creation → SessionRecord → Bool
is_counted c r =
    is_subject c.value.tenant_id c.value.subject_id r
    && not (has r.revoked_at)
    && ltb c.at r.absolute_expires_at
    && ltb c.idle_cutoff r.last_activity_at
    && str_eq r.policy_revision c.policy_revision

-- the oldest sessions are revoked while there are too many
unfoldable pub evict : Creation → List SessionRecord → Dict SessionRecord → Dict SessionRecord
unfolding update_first
evict c [] m = m
evict c (oldest ∷ active) m =
    let m' =
      update_first (λ r. str_eq r.id oldest.id) (revoked c.at c.value.established_correlation_id)
        m in
    let rest = evict c active m' in
    if leb c.max_active_sessions (length (oldest ∷ active)) then rest else m

abbrev pub make_room : Creation → Dict SessionRecord → Dict SessionRecord
make_room c m =
    if ltb 0 c.max_active_sessions then evict c (sort_created (select (is_counted c) m)) m else m

unfoldable pub create : Creation → MemoryStore → Option StoreFault × MemoryStore
unfolding get put find_mark evict select sort_created
create c s =
    if is_fenced s.subject_revoked_before c.value
    then (some changed, s)
    else if has (get s.records c.value.credential_digest)
    then (some (failed "credential collision"), s)
    else (
      none,
      record s {
        next_creation_order = s.next_creation_order + 1;
        records =
            put (make_room c s.records) c.value.credential_digest
              (record c.value { creation_order = s.next_creation_order + 1 });
      },
    )

unfoldable pub load : String → MemoryStore → Option SessionRecord
load digest s = get s.records digest

abbrev pub in_fence : SessionFence → SessionRecord → Bool
in_fence f r =
    str_eq r.id f.current_session_id
    && is_subject f.tenant_id f.subject_id r
    && not (has r.revoked_at)
    && ltb f.at r.absolute_expires_at
    && ltb f.idle_cutoff r.last_activity_at
    && str_eq r.policy_revision f.policy_revision

unfoldable pub list_subject : SessionFence → MemoryStore → Outcome StoreFault (List SessionRecord)
unfolding get select
list_subject f s = elim (get s.records f.credential_digest) [
  | none ↦ err changed
  | some current ↦
      if in_fence f current
      then ok (select (is_subject f.tenant_id f.subject_id) s.records)
      else err changed
]

abbrev pub is_version : String → ℕ → SessionRecord → Bool
is_version id generation r = str_eq r.id id && r.generation == generation

unfoldable pub touch : String → ℕ → ℕ → MemoryStore → Option StoreFault × MemoryStore
unfolding find_first update_first
touch id generation at s =
    if has (find_first (is_version id generation) s.records)
    then (
      none,
      record s {
        records =
            update_first (is_version id generation) (λ r. record r { last_activity_at = at })
              s.records;
      },
    )
    else (some changed, s)

abbrev rotate_from :
    String
    → String
    → ℕ
    → SessionRecord
    → MemoryStore
    → SessionRecord
    → Option StoreFault × MemoryStore
rotate_from old_digest id generation replacement s current =
    if not (str_eq current.id id)
      || not (current.generation == generation)
      || has current.revoked_at
    then (some changed, s)
    else if has (get s.records replacement.credential_digest)
    then (some (failed "credential collision"), s)
    else if is_fenced s.subject_revoked_before replacement
    then (some changed, s)
    else (
      none,
      record s {
        records = put (remove s.records old_digest) replacement.credential_digest replacement;
      },
    )

unfoldable pub rotate :
    String → String → ℕ → SessionRecord → MemoryStore → Option StoreFault × MemoryStore
unfolding get put remove find_mark
rotate old_digest id generation replacement s = elim (get s.records old_digest) [
  | none ↦ (some changed, s)
  | some current ↦ rotate_from old_digest id generation replacement s current
]

abbrev pub is_open : String → SessionRecord → Bool
is_open id r = str_eq r.id id && not (has r.revoked_at)

abbrev revoke_digest : CurrentRevocation → MemoryStore → Option SessionRecord → MemoryStore
revoke_digest c s none = s
revoke_digest c s (some r) = if has r.revoked_at then s else record s {
  records = put s.records c.credential_digest (revoked c.revoked_at c.correlation_id r);
}

-- it never fails
unfoldable pub revoke_current : CurrentRevocation → MemoryStore → Option StoreFault × MemoryStore
unfolding get put update_first
revoke_current c s =
    if not (str_eq c.session_id "")
    then (
      none,
      record s {
        records =
            update_first (is_open c.session_id) (revoked c.revoked_at c.correlation_id) s.records;
      },
    )
    else (none, revoke_digest c s (get s.records c.credential_digest))

abbrev pub is_managed : ManagedRevocation → SessionRecord → Bool
is_managed c r =
    str_eq r.management_handle c.handle && is_subject c.fence.tenant_id c.fence.subject_id r

-- the first session under the handle; one that is not active is left as it is
abbrev revoke_handle :
    ManagedRevocation
    → MemoryStore
    → SessionRecord
    → Option SessionRecord
    → Option StoreFault × MemoryStore
revoke_handle c s current none = (none, s)
revoke_handle c s current (some r) =
    if str_eq r.id current.id
    then (some changed, s)
    else if active_at r c.fence.at (c.fence.at - c.fence.idle_cutoff) c.fence.policy_revision
    then (
      none,
      record s {
        records = update_first (is_managed c) (revoked c.fence.at c.correlation_id) s.records;
      },
    )
    else (none, s)

unfoldable pub revoke_managed : ManagedRevocation → MemoryStore → Option StoreFault × MemoryStore
unfolding get find_first update_first
revoke_managed c s = elim (get s.records c.fence.credential_digest) [
  | none ↦ (some changed, s)
  | some current ↦
      if not (str_eq current.id c.fence.current_session_id)
        || not (
            active_at current c.fence.at (c.fence.at - c.fence.idle_cutoff) c.fence.policy_revision)
        || not (is_subject c.fence.tenant_id c.fence.subject_id current)
      then (some changed, s)
      else revoke_handle c s current (find_first (is_managed c) s.records)
]

abbrev pub is_open_of : SessionRecord → SessionRecord → Bool
is_open_of credential r =
    is_subject credential.tenant_id credential.subject_id r && not (has r.revoked_at)

unfoldable pub revoke_subject : SubjectRevocation → MemoryStore → Option StoreFault × MemoryStore
unfolding get update_all
revoke_subject c s = elim (get s.records c.credential_digest) [
  | none ↦ (some changed, s)
  | some credential ↦
      if not (active_at credential c.revoked_at (c.revoked_at - c.idle_cutoff) c.policy_revision)
      then (some changed, s)
      else (
        none,
        record s {
          subject_revoked_before =
              record {
                tenant_id = credential.tenant_id;
                subject_id = credential.subject_id;
                at = c.revoked_at;
              }
              ∷ s.subject_revoked_before;
          records =
              update_all (is_open_of credential) (revoked c.revoked_at c.correlation_id) s.records;
        },
      )
]

-- the calls that change a store
pub data Command : Type 0 where
  to_create : Creation → Command
  to_touch : String → ℕ → ℕ → Command
  to_rotate : String → String → ℕ → SessionRecord → Command
  to_revoke_current : CurrentRevocation → Command
  to_revoke_managed : ManagedRevocation → Command
  to_revoke_subject : SubjectRevocation → Command

abbrev pub run : Command → MemoryStore → MemoryStore
run (to_create c) s = (create c s).1
run (to_touch id generation at) s = (touch id generation at s).1
run (to_rotate digest id generation r) s = (rotate digest id generation r s).1
run (to_revoke_current c) s = (revoke_current c s).1
run (to_revoke_managed c) s = (revoke_managed c s).1
run (to_revoke_subject c) s = (revoke_subject c s).1

abbrev pub run_all : List Command → MemoryStore → MemoryStore
run_all [] s = s
run_all (c ∷ cs) s = run_all cs (run c s)
