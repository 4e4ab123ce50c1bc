-- ===== src/Agent/World/Keeps.antt =====
-- Rules for what a call keeps of the stored runs, and what it returns.
use ai_etl_platform.Common.{
  ℕ, suc, ◌+◌, ◌≡◌, String, Option, none, some, Bool, true, false, refl, inl, inr, get, get-put,
  eq_iff, str_eq, Bool-cases, ap, arith, Outcome, ok, err, if◌then◌else◌, Outcome-cases,
}
use ai_etl_platform.Agent.Types.{Fault, Run}
use ai_etl_platform.Agent.Lock.{LockLease, acquire, release}
use ai_etl_platform.Agent.Store.{Runs, SaveOptions, save_run, load_run}
use ai_etl_platform.Agent.Store.Versions.{save_run_lem, save_run_refused}
use ai_etl_platform.Agent.World.{
  Env, World, Exec, continue, call, unless, ◌>>=◌, load, save, holding, with_lease,
}

-- every stored run stands under its own id and satisfies `I`
abbrev pub AllRuns : (Run → Type 0) → Runs → Type 0
AllRuns I runs = (id : String) (run : Run) → get runs id ≡ some run → (run.id ≡ id) × I run

-- `saved` is `run` but for the version and the token that the store gives it
abbrev pub IsSaved : Run → Run → Type 0
IsSaved run saved =
    saved ≡ record run { version = saved.version; fencing_token = saved.fencing_token }

module _ (I : Run → Type 0) where
  -- The stored runs satisfy `I` in any case, and what is returned satisfies `Q`.
  abbrev pub Post : {A : Type 0} → (A → Runs → Type 0) → Outcome Fault A × World → Type 0
  Post Q (ok a, w) = AllRuns I w.runs × Q a w.runs
  Post Q (err e, w) = AllRuns I w.runs

  module _ {A B : Type 0} where
    pub Post-bind :
        (m : Exec A) (f : A → Exec B) (w : World) (Q : A → Runs → Type 0) (R : B → Runs → Type 0)
        → Post Q (m w)
        → ((a : A) (w' : World) → AllRuns I w'.runs → Q a w'.runs → Post R (f a w'))
        → Post R ((m >>= f) w)
    unfolding ◌>>=◌
    Post-bind m f w Q R h k = go (m w) h
      where
        go : (r : Outcome Fault A × World) → Post Q r → Post R (continue r.0 f r.1)
        go (ok a, w') h = k a w' h.0 h.1
        go (err e, w') h = h

    -- a call of outside code leaves the runs alone
    pub Post-call :
        (f : ℕ → A) (k : A → Exec B) (w : World) (R : B → Runs → Type 0)
        → ((n : ℕ) (w' : World) → w'.runs ≡ w.runs → Post R (k (f n) w'))
        → Post R ((call f >>= k) w)
    unfolding ◌>>=◌ call
    Post-call f k w R h = h w.calls (record w { calls = suc w.calls }) refl

  module _ {A : Type 0} (Q : A → Runs → Type 0) where
    pub Post-if :
        (b : Bool) (m n : Exec A) (w : World)
        → (b ≡ true → Post Q (m w))
        → (b ≡ false → Post Q (n w))
        → Post Q ((if b then m else n) w)
    Post-if true m n w hm hn = hm refl
    Post-if false m n w hm hn = hn refl

    pub Post-unless :
        (o : Option Fault) (m : Exec A) (w : World)
        → AllRuns I w.runs
        → (o ≡ none → Post Q (m w))
        → Post Q (unless o m w)
    unfolding unless
    Post-unless none m w h k = k refl
    Post-unless (some e) m w h k = h

  -- a weaker postcondition
  pub Post-weaken :
      {A : Type 0} (Q R : A → Runs → Type 0) (r : Outcome Fault A × World)
      → ((a : A) (runs : Runs) → Q a runs → R a runs)
      → Post Q r
      → Post R r
  Post-weaken Q R (ok a, w) k h = (h.0, k a w.runs h.1)
  Post-weaken Q R (err e, w) k h = h

  module _
      (stable : (run : Run) (v t : ℕ)
        → I run
        → I (record run { version = v; fencing_token = t })) where
    -- a save of a run that satisfies `I`
    pub Post-save :
        (run : Run) (lease : LockLease) (w : World)
        → AllRuns I w.runs
        → I run
        → Post
            (λ saved runs. (get runs saved.id ≡ some saved) × IsSaved run saved)
            (save run lease w)
    unfolding save
    Post-save run lease w h i = elim (Outcome-cases (save_run run opts w.runs).0) [
      | inl (e, p) ↦ rw p (rw (save_run_refused run opts w.runs p) h)
      | inr (saved, p) ↦
          let (current, stored, same, newer, pos, fresh, after) = save_run_lem run opts w.runs p in
          let good : I saved = rw same (stable run (current.version + 1) opts.fencing_token i) in
          let own : saved.id ≡ run.id = cc (ap (λ (r : Run). r.id) same) in
          rw p (
            rw after (
              λ id r g. elim (Bool-cases (str_eq run.id id)) [
                | inl e ↦
                    let q : r ≡ saved = ground (arith, g, e, get-put w.runs run.id id saved) in
                    (ground (arith, q, own, e, eq_iff run.id id), rw q good)
                | inr e ↦ h id r (ground (arith, g, e, get-put w.runs run.id id saved))
              ],
              (
                ground (arith, own, eq_iff run.id run.id, get-put w.runs run.id run.id saved),
                ground (arith, same),
              ),
            ))
    ]
      where
        opts : SaveOptions
        opts = record { expected_version = run.version; fencing_token = lease.fencing_token }

  load_run_lem :
      (id : String) (runs : Runs) {run : Run} → load_run id runs ≡ ok run → get runs id ≡ some run
  unfolding load_run
  load_run_lem id runs h = ground arith

  -- a load gives a run that satisfies `I` and is the one stored under the id
  pub Post-load :
      (id : String) (w : World)
      → AllRuns I w.runs
      → Post
          (λ run runs. I run × (run.id ≡ id) × (get runs id ≡ some run) × (runs ≡ w.runs))
          (load id w)
  unfolding load
  Post-load id w h = elim (Outcome-cases (load_run id w.runs)) [
    | inl (e, p) ↦ rw p h
    | inr (run, p) ↦
        let g = load_run_lem id w.runs p in rw p (h, ((h id run g).1, (h id run g).0, g, refl))
  ]

  module _ {A : Type 0} (Q : A → Runs → Type 0) where
    Post-unlock :
        (lease : LockLease) (r : Outcome Fault A × World)
        → Post Q r
        → Post Q (r.0, record (r.1) { locks = (release lease r.1.locks).1 })
    Post-unlock lease (ok a, w) h = h
    Post-unlock lease (err e, w) h = h

    Post-holding :
        (body : LockLease → Exec A) (granted : Outcome Fault LockLease) (w : World)
        → AllRuns I w.runs
        → ((lease : LockLease) → Post Q (body lease w))
        → Post Q (holding body granted w)
    unfolding holding
    Post-holding body (err e) w h k = h
    Post-holding body (ok lease) w h k = Post-unlock lease (body lease w) (k lease)

    -- taking and releasing the lock leaves the runs alone
    pub Post-with_lease :
        (env : Env) (id : String) (body : LockLease → Exec A) (w : World)
        → AllRuns I w.runs
        → ((lease : LockLease) (w' : World) → w'.runs ≡ w.runs → Post Q (body lease w'))
        → Post Q (with_lease env id body w)
    unfolding with_lease
    Post-with_lease env id body w h k =
        let (granted, locks) = acquire (env.now w.calls) id env.node_id env.lock_ttl w.locks in
        let w' : World = record w { locks = locks; calls = suc w.calls } in
        Post-holding body granted w' h (λ lease. k lease w' refl)
