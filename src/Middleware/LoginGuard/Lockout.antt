-- ===== src/Middleware/LoginGuard/Lockout.antt =====
-- A lock of internal/middleware/login_guard.go holds until its time.
use ai_etl_platform.Common.{
  ℕ, suc, ◌+◌, ◌≤◌, ◌<◌, ◌≡◌, ◌≢◌, ◌⊎◌, inl, inr, String, str_eq, eq_iff, some, List, [], ◌∷◌,
  Bool-cases, false, leb, ◌==◌, get, get-put, get-remove, All, arith,
}
use ai_etl_platform.Middleware.LoginGuard.{
  Limiters, LoginGuardConfig, LoginGuard, login_identity_key, or_none, allow, record_failure,
  record_success, Event, tried, failed_at, succeeded, run, run_all,
}

-- An event that neither is a success under the key nor a call of the clock out of order: failures
-- come no earlier than `from`, and tries under the key come before `until`.
abbrev pub Leaves : String → ℕ → ℕ → Event → Type 0
Leaves key from until (tried ip username now) =
    (login_identity_key ip username ≢ key) ⊎ (now < until)
Leaves key from until (failed_at ip username now) = from ≤ now
Leaves key from until (succeeded ip username) = login_identity_key ip username ≢ key

module _ (limiters : Limiters) (c : LoginGuardConfig) where
  -- The key is locked at least until a time.
  abbrev pub IsLocked : String → ℕ → LoginGuard limiters → Type 0
  IsLocked key until g = (t : ℕ) × (get g.locked key ≡ some t) × (until ≤ t)

  run-IsLocked :
      (key : String) (from : ℕ) (e : Event) (g : LoginGuard limiters)
      → Leaves key from (from + c.lock_duration) e
      → IsLocked key (from + c.lock_duration) g
      → IsLocked key (from + c.lock_duration) (run limiters c e g)
  unfolding allow record_failure record_success
  run-IsLocked key from (tried ip username now) g l (t, e, h) = (
    t,
    ground (
      arith,
      l,
      e,
      h,
      get-remove g.locked (login_identity_key ip username) key,
      eq_iff (login_identity_key ip username) key,
    ),
    h,
  )
  run-IsLocked key from (failed_at ip username now) g l (t, e, h) =
      elim (Bool-cases (str_eq (login_identity_key ip username) key)) [
        | inr f ↦ (
          t,
          ground (
            arith,
            e,
            f,
            get-put g.locked (login_identity_key ip username) key (now + c.lock_duration),
          ),
          h,
        )
        | inl f ↦ elim (Bool-cases (c.lock_threshold == 0)) [
          | inl z ↦ (t, ground (arith, e, z), h)
          | inr z ↦
              elim (Bool-cases (
                leb c.lock_threshold
                  (suc (or_none (get g.fails (login_identity_key ip username)))))) [
                    | inl k ↦ (
                      now + c.lock_duration,
                      ground (
                        arith,
                        f,
                        z,
                        k,
                        get-put g.locked (login_identity_key ip username) key
                            (now + c.lock_duration),
                      ),
                      omega (arith, l),
                    )
                    | inr k ↦ (t, ground (arith, e, z, k), h)
                  ]
        ]
      ]
  run-IsLocked key from (succeeded ip username) g l (t, e, h) = (
    t,
    ground (
      arith,
      l,
      e,
      get-remove g.locked (login_identity_key ip username) key,
      eq_iff (login_identity_key ip username) key,
    ),
    h,
  )

  run_all-IsLocked :
      (key : String) (from : ℕ) (es : List Event) (g : LoginGuard limiters)
      → All (Leaves key from (from + c.lock_duration)) es
      → IsLocked key (from + c.lock_duration) g
      → IsLocked key (from + c.lock_duration) (run_all limiters c es g)
  run_all-IsLocked key from [] g l h = h
  run_all-IsLocked key from (e ∷ es) g l h =
      run_all-IsLocked key from es (run limiters c e g) l.1 (run-IsLocked key from e g l.0 h)

  -- If a failed login makes as many failures as the threshold under its address and name, then,
  -- whatever logins under other keys do, and however often this one fails again, no login is
  -- allowed under it until the lock's duration is over, unless one has succeeded in between.
  pub allow-locked :
      (from : ℕ) (ip username : String) (es : List Event) (g : LoginGuard limiters) (now : ℕ)
      → 0 < c.lock_threshold
      → c.lock_threshold ≤ suc (or_none (get g.fails (login_identity_key ip username)))
      → All (Leaves (login_identity_key ip username) from (from + c.lock_duration)) es
      → now < from + c.lock_duration
      → (allow limiters c now ip username
          (run_all limiters c es (record_failure limiters c from ip username g))).0.0
        ≡ false
  unfolding allow record_failure
  allow-locked from ip username es g now z n l h =
      let key = login_identity_key ip username in
      let (t, e, k) =
        run_all-IsLocked key from es (record_failure limiters c from ip username g) l (
          from + c.lock_duration,
          ground (arith, z, n, get-put g.locked key key (from + c.lock_duration), eq_iff key key),
          omega arith,
        ) in
      ground (arith, z, h, e, k)
