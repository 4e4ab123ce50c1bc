-- ===== src/Middleware/Concurrency.antt =====
-- internal/middleware/concurrency.go: TenantConcurrencyLimiter. Every method holds the mutex for
-- its whole length; a tenant that is not in the map has no request in flight.
pub mod Bounds
use ai_etl_platform.Common.{
  str_eq, ◌==◌, ℕ, suc, ◌-◌, String, Option, none, some, Bool, true, false, if◌then◌else◌, leb,
  Dict, get, put, remove, List, [], ◌∷◌,
}

abbrev pub in_flight : Dict ℕ → String → ℕ
in_flight m tenant = elim (get m tenant) [ none ↦ 0 | some n ↦ n ]

unfoldable pub try_acquire : ℕ → String → Dict ℕ → Bool × Dict ℕ
unfolding get put
try_acquire max tenant m =
    if leb max (in_flight m tenant)
    then (false, m)
    else (true, put m tenant (suc (in_flight m tenant)))

unfoldable pub release : String → Dict ℕ → Dict ℕ
unfolding get put remove
release tenant m =
    if leb (in_flight m tenant) 1 then remove m tenant else put m tenant (in_flight m tenant - 1)

-- a limiter, and the tenants of the requests that the middleware is serving
pub record Limiter : Type 0 where
  pub counts : Dict ℕ
  pub serving : List String

abbrev pub new_limiter : Limiter
new_limiter = record { counts = []; serving = [] }

-- how many requests of a tenant are being served
unfoldable pub served : List String → String → ℕ
served [] tenant = 0
served (t ∷ ts) tenant = let rest = served ts tenant in if str_eq t tenant then suc rest else rest

-- one request of a tenant is over
unfoldable pub drop_one : List String → String → List String
drop_one [] tenant = []
drop_one (t ∷ ts) tenant = let rest = drop_one ts tenant in if str_eq t tenant then ts else t ∷ rest

-- a request that comes in, and one that is being served and ends
pub data Call : Type 0 where
  enters : String → Call
  leaves : String → Call

-- `Middleware`, under a positive limit and for a known tenant: a request is served if the limiter takes it, and only then released at its end
unfoldable pub run : ℕ → Call → Limiter → Limiter
unfolding try_acquire release served drop_one
run max (enters tenant) l =
    let (admitted, counts) = try_acquire max tenant l.counts in
    record { counts = counts; serving = if admitted then tenant ∷ l.serving else l.serving }
run max (leaves tenant) l =
    if served l.serving tenant == 0
    then l
    else record { counts = release tenant l.counts; serving = drop_one l.serving tenant }

unfoldable pub run_all : ℕ → List Call → Limiter → Limiter
unfolding run
run_all max [] l = l
run_all max (c ∷ cs) l = run_all max cs (run max c l)
