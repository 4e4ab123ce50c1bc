-- ===== src/Middleware/LoginGuard.antt =====
-- internal/middleware/login_guard.go: MemoryLoginGuard. Every method holds the mutex for its whole
-- length. A limiter of golang.org/x/time/rate is a value of an interface that is an argument, and
-- the clock's answer another. A limit that is not positive is 0.
pub mod Lockout
use Prim.Native.Nat.{◌/◌}
use Prim.Native.String.{◌++◌ as append}
use ai_etl_platform.Common.{
  ℕ, suc, ◌+◌, ◌-◌, String, str_eq, Option, none, some, List, [], ◌∷◌, Bool, true, false, not, ◌&&◌,
  if◌then◌else◌, ltb, leb, ◌==◌, Dict, get, put, remove, has, trim_space, to_lower, is_blank,
}

-- `rate.NewLimiter` and `Limiter.Allow`
pub record Limiters : Type 1 where
  pub Limiter : Type 0
  -- the interval between tokens and the burst
  pub new_limiter : ℕ → ℕ → Limiter
  -- whether there is a token at a time, and the limiter without it
  pub allow : ℕ → Limiter → Bool × Limiter

pub record LoginGuardConfig : Type 0 where
  pub per_ip : ℕ
  pub per_user : ℕ
  pub lock_threshold : ℕ
  pub lock_duration : ℕ
  pub window : ℕ

-- nanoseconds
abbrev minute : ℕ
minute = 60_000_000_000

unfoldable pub normalized : LoginGuardConfig → LoginGuardConfig
normalized c = record c {
  window = if c.window == 0 then minute else c.window;
  lock_duration = if c.lock_duration == 0 then 900_000_000_000 else c.lock_duration;
}

abbrev pub disabled : LoginGuardConfig → Bool
disabled c = c.per_ip == 0 && c.per_user == 0 && c.lock_threshold == 0

abbrev normalize_login_ip : String → String
normalize_login_ip ip = if str_eq (trim_space ip) "" then "unknown" else trim_space ip

unfoldable pub login_identity_key : String → String → String
login_identity_key ip username =
    append (normalize_login_ip ip) (append "|" (to_lower (trim_space username)))

abbrev pub or_none : Option ℕ → ℕ
or_none none = 0
or_none (some n) = n

module _ (limiters : Limiters) where
  pub record LoginGuard : Type 0 where
    pub ip : Dict limiters.Limiter
    pub user : Dict limiters.Limiter
    pub fails : Dict ℕ
    pub locked : Dict ℕ

  abbrev pub login_guard : LoginGuard
  login_guard = record { ip = []; user = []; fails = []; locked = [] }

  -- `newWindowLimiter`, at a limit and a window that are positive; the interval is at least 1
  abbrev new_window_limiter : LoginGuardConfig → ℕ → limiters.Limiter
  new_window_limiter c limit =
      limiters.new_limiter (if c.window / limit == 0 then 1 else c.window / limit) limit

  abbrev limiter_or : LoginGuardConfig → ℕ → Option limiters.Limiter → limiters.Limiter
  limiter_or c limit none = new_window_limiter c limit
  limiter_or c limit (some l) = l

  -- a limiter of the store, made when it is first asked, is asked for a token
  abbrev take :
      LoginGuardConfig → ℕ → ℕ → String → Dict limiters.Limiter → Bool × Dict limiters.Limiter
  take c now limit key m =
      let (ok, l) = limiters.allow now (limiter_or c limit (get m key)) in (ok, put m key l)

  abbrev user_taken :
      LoginGuardConfig → LoginGuard → Bool × Dict limiters.Limiter → (Bool × ℕ) × LoginGuard
  user_taken c g (true, m) = ((true, 0), record g { user = m })
  user_taken c g (false, m) = ((false, c.window), record g { user = m })

  abbrev allow_user : LoginGuardConfig → ℕ → String → String → LoginGuard → (Bool × ℕ) × LoginGuard
  allow_user c now key username g =
      if ltb 0 c.per_user && not (is_blank username)
      then user_taken c g (take c now c.per_user key g.user)
      else ((true, 0), g)

  abbrev ip_taken :
      LoginGuardConfig
      → ℕ
      → String
      → String
      → LoginGuard
      → Bool × Dict limiters.Limiter
      → (Bool × ℕ) × LoginGuard
  ip_taken c now key username g (true, m) = allow_user c now key username (record g { ip = m })
  ip_taken c now key username g (false, m) = ((false, c.window), record g { ip = m })

  abbrev allow_ip :
      LoginGuardConfig → ℕ → String → String → String → LoginGuard → (Bool × ℕ) × LoginGuard
  allow_ip c now ip key username g =
      if ltb 0 c.per_ip
      then ip_taken c now key username g (take c now c.per_ip ip g.ip)
      else allow_user c now key username g

  -- `Allow`: whether a login may be tried, and when else
  unfoldable pub allow :
      LoginGuardConfig → ℕ → String → String → LoginGuard → (Bool × ℕ) × LoginGuard
  unfolding get put remove
  allow c now ip username g =
      let key = login_identity_key ip username in
      if disabled c then ((true, 0), g) else elim (get g.locked key) [
        | none ↦ allow_ip c now (normalize_login_ip ip) key username g
        | some until ↦
            if ltb now until
            then ((false, until - now), g)
            else allow_ip c now (normalize_login_ip ip) key username
                (record g { locked = remove g.locked key })
      ]

  unfoldable pub record_failure : LoginGuardConfig → ℕ → String → String → LoginGuard → LoginGuard
  unfolding get put
  record_failure c now ip username g =
      let key = login_identity_key ip username in
      let n = suc (or_none (get g.fails key)) in
      if c.lock_threshold == 0 then g else record g {
        fails = put g.fails key n;
        locked =
            if leb c.lock_threshold n then put g.locked key (now + c.lock_duration) else g.locked;
      }

  unfoldable pub record_success : String → String → LoginGuard → LoginGuard
  unfolding remove
  record_success ip username g =
      let key = login_identity_key ip username in
      record g { fails = remove g.fails key; locked = remove g.locked key }

-- the calls of a guard, with the client's address, the user's name and the time
pub data Event : Type 0 where
  tried : String → String → ℕ → Event
  failed_at : String → String → ℕ → Event
  succeeded : String → String → Event

module _ (limiters : Limiters) (c : LoginGuardConfig) where
  abbrev pub run : Event → LoginGuard limiters → LoginGuard limiters
  run (tried ip username now) g = (allow limiters c now ip username g).1
  run (failed_at ip username now) g = record_failure limiters c now ip username g
  run (succeeded ip username) g = record_success limiters ip username g

  abbrev pub run_all : List Event → LoginGuard limiters → LoginGuard limiters
  run_all [] g = g
  run_all (e ∷ es) g = run_all es (run e g)
