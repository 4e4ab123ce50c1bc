-- ===== src/Middleware/Concurrency/Bounds.antt =====
-- How many requests of a tenant internal/middleware/concurrency.go lets in at once.
use ai_etl_platform.Common.{
  ℕ, suc, ◌+◌, ◌-◌, ◌≤◌, ◌<◌, ◌≡◌, String, str_eq, eq_iff, true, if◌then◌else◌, leb, Dict, get-put,
  get-remove, arith,
}
use ai_etl_platform.Middleware.Concurrency.{in_flight, try_acquire, release, Limiter, served}

try_acquire_lem :
    (max : ℕ) (tenant other : String) (m : Dict ℕ)
    → in_flight (try_acquire max tenant m).1 other
      ≡ in_flight m other
        + (if str_eq tenant other then (if leb max (in_flight m tenant) then 0 else 1) else 0)
unfolding try_acquire
try_acquire_lem max tenant other m =
    ground (arith, get-put m tenant other (suc (in_flight m tenant)), eq_iff tenant other)

release_lem :
    (tenant other : String) (m : Dict ℕ)
    → in_flight (release tenant m) other
      ≡ in_flight m other - (if str_eq tenant other then 1 else 0)
unfolding release
release_lem tenant other m = ground (
  arith,
  get-put m tenant other (in_flight m tenant - 1),
  get-remove m tenant other,
  eq_iff tenant other,
)

-- The counters tell how many requests are being served, and these are no more than the limit.
abbrev IsLimited : ℕ → Limiter → Type 0
IsLimited max l =
    (tenant : String)
    → (in_flight l.counts tenant ≡ served l.serving tenant) × (served l.serving tenant ≤ max)

-- Below the limit a request is let in, and when it leaves, every tenant has as many requests in
-- flight as before it.
pub release-try_acquire :
    (max : ℕ) (tenant : String) (m : Dict ℕ) (other : String)
    → in_flight m tenant < max
    → ((try_acquire max tenant m).0 ≡ true)
      × (in_flight (release tenant (try_acquire max tenant m).1) other ≡ in_flight m other)
unfolding try_acquire
release-try_acquire max tenant m other h = (
  ground (arith, h),
  ground (
    arith,
    h,
    release_lem tenant other (try_acquire max tenant m).1,
    try_acquire_lem max tenant other m,
    eq_iff tenant other,
  ),
)
