-- ===== src/Agent/Lock/Fencing.antt =====
-- Lock leases exclude one another, and fencing tokens only grow.
use ai_etl_platform.Common.{
  ℕ, ◌+◌, ◌≤◌, ◌<◌, ◌≡◌, ◌≢◌, inl, inr, Option-cases, String, eq_iff, some, List, [], ◌∷◌, arith,
  get, put, get-put, ok, err,
}
use ai_etl_platform.Agent.Types.{lock_held, lease_invalid}
use ai_etl_platform.Agent.Lock.{LockLease, Locks, or_zero, acquire, extend, release}

-- What a granted lease leaves behind.
pub acquire_granted :
    (now ttl : ℕ) (id owner : String) (locks : Locks) {lease : LockLease}
    → (acquire now id owner ttl locks).0 ≡ ok lease
    → (lease.fencing_token ≡ (or_zero (get locks id)).fencing_token + 1)
      × (lease.expires_at ≡ now + ttl)
      × (lease.owner ≡ owner)
      × (owner ≢ "")
      × (id ≢ "")
      × ((acquire now id owner ttl locks).1
          ≡ put locks id (record {
            owner = owner;
            fencing_token = lease.fencing_token;
            expires_at = lease.expires_at;
          }))
unfolding acquire
acquire_granted now ttl id owner locks h = ground (arith, eq_iff id "", eq_iff owner "")

-- After a lease was granted at `now` for `ttl`, an acquisition before `now + ttl` is refused with
-- the holder's name, whoever asks, and changes nothing.
pub acquire_excludes :
    (now later ttl ttl' : ℕ) (id owner owner' : String) (locks : Locks) {lease : LockLease}
    → (acquire now id owner ttl locks).0 ≡ ok lease
    → later < now + ttl
    → owner' ≢ ""
    → 0 < ttl'
    → let locks' = (acquire now id owner ttl locks).1 in
      acquire later id owner' ttl' locks' ≡ (err (lock_held id owner), locks')
unfolding acquire
acquire_excludes now later ttl ttl' id owner owner' locks h before named pos = ground (
  arith,
  eq_iff id "",
  eq_iff owner "",
  eq_iff owner' "",
  eq_iff id id,
  get-put locks id id (record {
    owner = owner;
    fencing_token = (or_zero (get locks id)).fencing_token + 1;
    expires_at = now + ttl;
  }),
)

-- The calls that any number of nodes make on one manager, in the order in which they take its mutex.
pub data LockCall : Type 0 where
  acquiring : ℕ → String → String → ℕ → LockCall
  extending : ℕ → LockLease → ℕ → LockCall
  releasing : LockLease → LockCall

unfoldable pub after : LockCall → Locks → Locks
after (acquiring now id owner ttl) locks = (acquire now id owner ttl locks).1
after (extending now lease ttl) locks = (extend now lease ttl locks).1
after (releasing lease) locks = (release lease locks).1

unfoldable pub after_all : List LockCall → Locks → Locks
unfolding after
after_all [] locks = locks
after_all (c ∷ cs) locks = after_all cs (after c locks)

-- the token last granted for a run
abbrev pub token : Locks → String → ℕ
token locks id = (or_zero (get locks id)).fencing_token

token-after :
    (c : LockCall) (locks : Locks) (id : String) → token locks id ≤ token (after c locks) id
unfolding after acquire extend release
token-after (acquiring now j owner ttl) locks id = ground (
  arith,
  eq_iff j id,
  get-put locks j id
      (record { owner = owner; fencing_token = token locks j + 1; expires_at = now + ttl }),
)
token-after (extending now lease ttl) locks id = elim (Option-cases (get locks lease.run_id)) [
  | inl e ↦ ground (arith, e)
  | inr (r, e) ↦ ground (
    arith,
    e,
    eq_iff lease.run_id id,
    get-put locks lease.run_id id (record r { expires_at = now + ttl }),
  )
]
token-after (releasing lease) locks id = elim (Option-cases (get locks lease.run_id)) [
  | inl e ↦ ground (arith, e)
  | inr (r, e) ↦ ground (
    arith,
    e,
    eq_iff lease.run_id id,
    get-put locks lease.run_id id (record r { owner = ""; expires_at = 0 }),
  )
]

token-after_all :
    (cs : List LockCall) (locks : Locks) (id : String)
    → token locks id ≤ token (after_all cs locks) id
unfolding after_all
token-after_all [] locks id = omega arith
token-after_all (c ∷ cs) locks id =
    omega (arith, token-after c locks id, token-after_all cs (after c locks) id)

-- Of two leases granted for one run, the later one has the larger token, whatever calls of any
-- nodes come between them.
pub tokens_increase :
    (now ttl now' ttl' : ℕ) (id owner owner' : String) (cs : List LockCall) (locks : Locks)
    {first second : LockLease}
    → (acquire now id owner ttl locks).0 ≡ ok first
    → (acquire now' id owner' ttl' (after_all cs (acquire now id owner ttl locks).1)).0 ≡ ok second
    → first.fencing_token < second.fencing_token
tokens_increase now ttl now' ttl' id owner owner' cs locks {first} {second} h k =
    let locks' = (acquire now id owner ttl locks).1 in
    let g = acquire_granted now ttl id owner locks h in
    let g' = acquire_granted now' ttl' id owner' (after_all cs locks') k in
    ground (
      arith,
      g,
      g',
      token-after_all cs locks' id,
      eq_iff id id,
      get-put locks id id (record {
        owner = owner;
        fencing_token = first.fencing_token;
        expires_at = first.expires_at;
      }),
    )

outdated :
    (now ttl : ℕ) (lease : LockLease) (locks : Locks)
    → 0 < ttl
    → lease.fencing_token < token locks lease.run_id
    → (extend now lease ttl locks ≡ (err lease_invalid, locks))
      × (release lease locks ≡ (some lease_invalid, locks))
unfolding extend release
outdated now ttl lease locks pos stale = (ground arith, ground arith)

pub granted_run :
    (now ttl : ℕ) (id owner : String) (locks : Locks) {lease : LockLease}
    → (acquire now id owner ttl locks).0 ≡ ok lease
    → lease.run_id ≡ id
unfolding acquire
granted_run now ttl id owner locks h = ground arith

-- the token of a lease that is granted is the one that is stored
granted_token :
    (now ttl : ℕ) (id owner : String) (locks : Locks) {lease : LockLease}
    → (acquire now id owner ttl locks).0 ≡ ok lease
    → token (acquire now id owner ttl locks).1 id ≡ lease.fencing_token
granted_token now ttl id owner locks {lease} h =
    let g = acquire_granted now ttl id owner locks h in
    ground (
      arith,
      g,
      eq_iff id id,
      get-put locks id id (record {
        owner = owner;
        fencing_token = lease.fencing_token;
        expires_at = lease.expires_at;
      }),
    )

-- After a second lease was granted for a run, whatever calls came between the two and whatever
-- calls follow, the first can neither be extended nor released: either call fails and leaves all
-- locks as they are.
pub replaced_lease_rejected :
    (now ttl now' ttl' later ttl'' : ℕ) (id owner owner' : String) (cs cs' : List LockCall)
    (locks : Locks) {first second : LockLease}
    → (acquire now id owner ttl locks).0 ≡ ok first
    → (acquire now' id owner' ttl' (after_all cs (acquire now id owner ttl locks).1)).0 ≡ ok second
    → 0 < ttl''
    → let between = after_all cs (acquire now id owner ttl locks).1 in
      let end = after_all cs' (acquire now' id owner' ttl' between).1 in
      (extend later first ttl'' end ≡ (err lease_invalid, end))
      × (release first end ≡ (some lease_invalid, end))
replaced_lease_rejected now ttl now' ttl' later ttl'' id owner owner' cs cs' locks {first} {second}
      h k pos =
    let between = after_all cs (acquire now id owner ttl locks).1 in
    let taken = (acquire now' id owner' ttl' between).1 in
    let smaller =
      tokens_increase now ttl now' ttl' id owner owner' cs locks {first = first} {second = second} h
        k in
    let stored = granted_token now' ttl' id owner' between {lease = second} k in
    outdated later ttl'' first (after_all cs' taken) pos (
      rw (granted_run now ttl id owner locks {lease = first} h)
        (omega (arith, smaller, stored, token-after_all cs' taken id)))
