-- ===== src/Examples/Locks.antt =====
-- Two nodes and one run's lock.
use ai_etl_platform.Common.{◌<◌, ◌≡◌, refl, [], ◌∷◌, some, err, arith, get, put, eq_iff}
use ai_etl_platform.Agent.Types.{lock_held, lease_invalid}
use ai_etl_platform.Agent.Lock.{LockLease, Locks, acquire, extend, release}
use ai_etl_platform.Agent.Lock.Fencing.{
  acquire_excludes, tokens_increase, replaced_lease_rejected, extending, releasing, after_all,
}

abbrev lease_of_a : LockLease
lease_of_a = record { run_id = "r1"; owner = "a"; fencing_token = 1; expires_at = 150 }

-- node a took the lock at 100 for 50
abbrev pub held_by_a : Locks
held_by_a = ("r1", record { owner = "a"; fencing_token = 1; expires_at = 150 }) ∷ []

-- then node b at 200
abbrev lease_of_b : LockLease
lease_of_b = record { run_id = "r1"; owner = "b"; fencing_token = 2; expires_at = 250 }

abbrev extended_by_b : Locks
extended_by_b = ("r1", record { owner = "b"; fencing_token = 2; expires_at = 280 }) ∷ []

acquire_excludes_example :
    acquire 120 "r1" "b" 50 (acquire 100 "r1" "a" 50 []).1
    ≡ (err (lock_held "r1" "a"), (acquire 100 "r1" "a" 50 []).1)
unfolding acquire get
acquire_excludes_example =
    acquire_excludes 100 120 50 50 "r1" "a" "b" [] {lease = lease_of_a} refl (omega arith)
      (λ e. absurd (ground (arith, e, eq_iff "b" ""))) (omega arith)

tokens_increase_example : 1 < 2
unfolding acquire extend release get after_all put
tokens_increase_example =
    tokens_increase 100 50 200 50 "r1" "a" "b"
      (extending 110 lease_of_a 60 ∷ releasing lease_of_a ∷ []) [] {first = lease_of_a}
      {second = record { run_id = "r1"; owner = "b"; fencing_token = 2; expires_at = 250 }} refl
      refl

-- the lease of node b is extended at 220, then node a comes back
replaced_lease_rejected_example :
    (extend 230 lease_of_a 50 extended_by_b ≡ (err lease_invalid, extended_by_b))
    × (release lease_of_a extended_by_b ≡ (some lease_invalid, extended_by_b))
unfolding acquire extend get after_all put
replaced_lease_rejected_example =
    replaced_lease_rejected 100 50 200 50 230 50 "r1" "a" "b" [] (extending 220 lease_of_b 60 ∷ [])
      [] {first = lease_of_a} {second = lease_of_b} refl refl (omega arith)
