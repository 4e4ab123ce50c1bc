-- ===== src/Agent/Lock.antt =====
-- internal/agent/lock.go: `MemoryLockManager`. `at` is what the manager's clock says.
pub mod Fencing
pub mod Holding
use ai_etl_platform.Common.{
  ℕ, ◌+◌, ◌==◌, ltb, ◌||◌, not, Bool, if◌then◌else◌, String, str_eq, Option, none, some, Dict, get,
  put, Outcome, ok, err,
}
use ai_etl_platform.Agent.Types.{
  Fault, run_id_required, owner_required, ttl_required, lease_invalid, lock_held,
}

pub record LockLease : Type 0 where
  pub run_id : String
  pub owner : String
  pub fencing_token : ℕ
  pub expires_at : ℕ

pub record LockRecord : Type 0 where
  pub owner : String
  pub fencing_token : ℕ
  pub expires_at : ℕ

abbrev pub Locks : Type 0
Locks = Dict LockRecord

-- the zero `lockRecord`, which a missing key reads as
abbrev or_zero : Option LockRecord → LockRecord
or_zero none = record { owner = ""; fencing_token = 0; expires_at = 0 }
or_zero (some r) = r

-- `now.Before(current.expiresAt)` of a record that exists
abbrev held : ℕ → Option LockRecord → Option String
held now none = none
held now (some r) = if ltb now r.expires_at then some r.owner else none

abbrev grant : ℕ → String → String → ℕ → LockRecord → Locks → Outcome Fault LockLease × Locks
grant now run_id owner ttl current locks =
    let next_token = current.fencing_token + 1 in
    (
      ok (record {
        run_id = run_id;
        owner = owner;
        fencing_token = next_token;
        expires_at = now + ttl;
      }),
      put locks run_id
          (record { owner = owner; fencing_token = next_token; expires_at = now + ttl }),
    )

unfoldable pub acquire : ℕ → String → String → ℕ → Locks → Outcome Fault LockLease × Locks
acquire now run_id owner ttl locks =
    if str_eq run_id ""
    then (err run_id_required, locks)
    else if str_eq owner ""
    then (err owner_required, locks)
    else if ttl == 0
    then (err ttl_required, locks)
    else elim (held now (get locks run_id)) [
      | some holder ↦ (err (lock_held run_id holder), locks)
      | none ↦ grant now run_id owner ttl (or_zero (get locks run_id)) locks
    ]

-- `current.owner != lease.Owner || current.fencingToken != lease.FencingToken`
abbrev pub mismatch : LockRecord → LockLease → Bool
mismatch current lease =
    not (str_eq current.owner lease.owner) || not (current.fencing_token == lease.fencing_token)

unfoldable pub extend : ℕ → LockLease → ℕ → Locks → Outcome Fault LockLease × Locks
extend now lease ttl locks =
    if ttl == 0 then (err ttl_required, locks) else elim (get locks lease.run_id) [
      | none ↦ (err lease_invalid, locks)
      | some current ↦ if mismatch current lease then (err lease_invalid, locks) else (
        ok (record lease { expires_at = now + ttl }),
        put locks lease.run_id (record current { expires_at = now + ttl }),
      )
    ]

unfoldable pub release : LockLease → Locks → Option Fault × Locks
release lease locks = elim (get locks lease.run_id) [
  | none ↦ (none, locks)
  | some current ↦
      if mismatch current lease
      then (some lease_invalid, locks)
      else (none, put locks lease.run_id (record current { owner = ""; expires_at = 0 }))
]
