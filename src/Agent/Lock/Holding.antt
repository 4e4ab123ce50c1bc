-- ===== src/Agent/Lock/Holding.antt =====
-- A lease is held while other nodes call the lock manager of internal/agent/lock.go.
use ai_etl_platform.Common.{
  ℕ, ◌+◌, ◌≤◌, ◌<◌, ◌≡◌, ◌≢◌, ◌⊎◌, inl, inr, Option-cases, String, refl, str_eq, eq_iff, sym, ap,
  ◌∙◌, ◌||◌, ◌==◌, some, List, [], ◌∷◌, All, arith, get, get-put, ok, Bool-cases,
}
use ai_etl_platform.Agent.Lock.{
  LockLease, LockRecord, Locks, or_zero, acquire, extend, release, mismatch,
}
use ai_etl_platform.Agent.Lock.Fencing.{
  LockCall, acquiring, extending, releasing, after, after_all, acquire_granted, granted_run,
}

-- A call that does not end the lease: an acquisition of another run or before the lease's end, an
-- extension of another run, under another token or to that end at least, or a release of another
-- run or under another token.
abbrev pub Spares : LockLease → LockCall → Type 0
Spares lease (acquiring now id owner ttl) = (id ≢ lease.run_id) ⊎ (now < lease.expires_at)
Spares lease (extending now l ttl) =
    (l.run_id ≢ lease.run_id)
    ⊎ (l.fencing_token ≢ lease.fencing_token)
    ⊎ (lease.expires_at ≤ now + ttl)
Spares lease (releasing l) = (l.run_id ≢ lease.run_id) ⊎ (l.fencing_token ≢ lease.fencing_token)

-- The lock's record is the lease's, at least until the lease's end.
abbrev pub IsHolding : LockLease → Locks → Type 0
IsHolding lease locks =
    (r : LockRecord) × (get locks lease.run_id ≡ some r)
    × (r.owner ≡ lease.owner)
    × (r.fencing_token ≡ lease.fencing_token)
    × (lease.expires_at ≤ r.expires_at)

after-IsHolding :
    (lease : LockLease) (c : LockCall) (locks : Locks)
    → Spares lease c
    → IsHolding lease locks
    → IsHolding lease (after c locks)
unfolding after acquire extend release
after-IsHolding lease (acquiring now id owner ttl) locks s (r, e, o, t, u) = (
  r,
  ground (
    arith,
    s,
    e,
    u,
    eq_iff id lease.run_id,
    get-put locks id lease.run_id (record {
      owner = owner;
      fencing_token = (or_zero (get locks id)).fencing_token + 1;
      expires_at = now + ttl;
    }),
  ),
  o,
  t,
  u,
)
after-IsHolding lease (extending now l ttl) locks s (r, e, o, t, u) =
    elim (Option-cases (get locks l.run_id)) [
      | inl n ↦ (r, ground (arith, e, n), o, t, u)
      | inr (q, n) ↦
          let longer : LockRecord = record q { expires_at = now + ttl } in
          let g = get-put locks l.run_id lease.run_id longer in
          elim (Bool-cases (str_eq l.run_id lease.run_id)) [
            | inl same ↦
                let i = (eq_iff l.run_id lease.run_id).0 same in
                let found : some q ≡ some r = sym n ∙ ap (get locks) i ∙ e in
                elim (Bool-cases (mismatch q l || ttl == 0)) [
                  | inl m ↦ (r, ground (arith, e, n, m), o, t, u)
                  | inr m ↦ (
                    longer,
                    ground (arith, n, m, g, same),
                    ground (arith, found, o),
                    ground (arith, found, t),
                    ground (arith, s, i, found, t, m),
                  )
                ]
            | inr other ↦ (r, ground (arith, e, n, g, other, eq_iff l.run_id lease.run_id), o, t, u)
          ]
    ]
after-IsHolding lease (releasing l) locks s (r, e, o, t, u) =
    elim (Option-cases (get locks l.run_id)) [
      | inl n ↦ (r, ground (arith, e, n), o, t, u)
      | inr (q, n) ↦
          let free : LockRecord = record q { owner = ""; expires_at = 0 } in
          let g = get-put locks l.run_id lease.run_id free in
          elim (Bool-cases (mismatch q l)) [
            | inl m ↦ (r, ground (arith, e, n, m), o, t, u)
            | inr m ↦ (r, ground (arith, s, e, n, m, g, t, eq_iff l.run_id lease.run_id), o, t, u)
          ]
    ]

after_all-IsHolding :
    (lease : LockLease) (cs : List LockCall) (locks : Locks)
    → All (Spares lease) cs
    → IsHolding lease locks
    → IsHolding lease (after_all cs locks)
unfolding after_all
after_all-IsHolding lease [] locks s h = h
after_all-IsHolding lease (c ∷ cs) locks (s, ss) h =
    after_all-IsHolding lease cs (after c locks) ss (after-IsHolding lease c locks s h)

acquire-IsHolding :
    (now ttl : ℕ) (id owner : String) (locks : Locks) {lease : LockLease}
    → (acquire now id owner ttl locks).0 ≡ ok lease
    → IsHolding lease (acquire now id owner ttl locks).1
acquire-IsHolding now ttl id owner locks {lease} h =
    let g = acquire_granted now ttl id owner locks h in
    let r : LockRecord = record {
      owner = owner;
      fencing_token = lease.fencing_token;
      expires_at = lease.expires_at;
    } in
    (
      r,
      rw (granted_run now ttl id owner locks h)
          (ground (arith, g, get-put locks id id r, eq_iff id id)),
      ground (arith, g),
      refl,
      omega arith,
    )

-- What a granted lease keeps, whatever calls that do not end it come after.
pub granted-IsHolding :
    (now ttl : ℕ) (id owner : String) (locks : Locks) (cs : List LockCall) {lease : LockLease}
    → (acquire now id owner ttl locks).0 ≡ ok lease
    → All (Spares lease) cs
    → IsHolding lease (after_all cs (acquire now id owner ttl locks).1)
granted-IsHolding now ttl id owner locks cs {lease} h spared =
    after_all-IsHolding lease cs (acquire now id owner ttl locks).1 spared
      (acquire-IsHolding now ttl id owner locks h)
