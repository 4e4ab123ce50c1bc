-- ===== src/Examples/Limits.antt =====
-- Logins in a row and requests at once.
use ai_etl_platform.Common.{
  List, ℕ, ◌≡◌, [], ◌∷◌, true, false, arith, inr, get, put, trim_space, to_lower,
}
use ai_etl_platform.Middleware.LoginGuard.{
  Limiters, LoginGuardConfig, LoginGuard, login_guard, allow, record_failure, tried, failed_at,
  run_all, login_identity_key,
}
use ai_etl_platform.Middleware.LoginGuard.Lockout.{allow-locked}
use ai_etl_platform.Middleware.Concurrency.{
  Call, new_limiter, in_flight, try_acquire, release, enters, leaves,
}
use ai_etl_platform.Middleware.Concurrency as Concurrency
use ai_etl_platform.Middleware.Concurrency.Bounds.{release-try_acquire}

-- limiters that count what is left and are never filled up
abbrev limiters : Limiters
limiters = record {
  Limiter = ℕ;
  new_limiter = λ interval burst. burst;
  allow = λ now left. (true, left);
}

abbrev config : LoginGuardConfig
config = record { per_ip = 20; per_user = 5; lock_threshold = 2; lock_duration = 100; window = 60 }

abbrev once_failed : LoginGuard limiters
once_failed = record_failure limiters config 10 "10.0.0.1" "Alice" (login_guard limiters)

-- the name is folded, and another user's tries do not matter
allow-locked_example :
    (allow limiters config 119 "10.0.0.1" "Alice" (
      run_all limiters config
        (failed_at "10.0.0.1" "bob" 30 ∷ tried "10.0.0.1" "alice " 40 ∷ [])
        (record_failure limiters config 20 "10.0.0.1" "Alice" once_failed))).0.0
    ≡ false
unfolding record_failure login_identity_key trim_space to_lower get put
allow-locked_example =
    allow-locked limiters config 20 "10.0.0.1" "Alice"
      (failed_at "10.0.0.1" "bob" 30 ∷ tried "10.0.0.1" "alice " 40 ∷ []) once_failed 119
      (omega arith) (omega arith) (omega arith, (inr (omega arith), tt)) (omega arith)

-- of three requests at once the third is not served
abbrev rush : List Call
rush = enters "t" ∷ enters "t" ∷ enters "t" ∷ leaves "t" ∷ []

release-try_acquire_example :
    ((try_acquire 2 "t" (("t", 1) ∷ [])).0 ≡ true)
    × (in_flight (release "t" (try_acquire 2 "t" (("t", 1) ∷ [])).1) "t" ≡ 1)
unfolding get
release-try_acquire_example = release-try_acquire 2 "t" (("t", 1) ∷ []) "t" (omega arith)
