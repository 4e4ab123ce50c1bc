-- ===== src/Agent/Orchestrator/Invariant.antt =====
-- What holds of every stored run: its steps are numbered from 1, and while it is not terminal it is
-- within its limits on steps and tokens.
use ai_etl_platform.Common.{
  ℕ, zero, suc, ◌+◌, ◌≤◌, ◌≡◌, refl, ap, Option, some, List, [], ◌∷◌, ◌++◌, false, arith, length,
  get_elem?, String, none, Bool-cases, inl, inr,
}
use ai_etl_platform.Agent.Types.{Fault, Run, RunState, Step, Actor, terminal_state}
use ai_etl_platform.Agent.World.{Env}
use ai_etl_platform.Agent.Tools.{Reply, compensate}
use ai_etl_platform.Agent.Orchestrator.Steps.{
  update_at, compensate_steps, compensated_by, can_compensate, or_empty,
}
use ai_etl_platform.Agent.Orchestrator.Next.{over_budget}

-- the steps have the indexes k, k + 1, ...
abbrev pub Numbered : ℕ → List Step → Type 0
Numbered k [] = Unit
Numbered k (s ∷ ss) = (s.index ≡ k) × Numbered (suc k) ss

pub record IsWellFormed (run : Run) : Type 0 where
  pub numbered : Numbered 1 run.steps
  pub bounded : length run.steps ≤ run.max_steps + 1
  pub roomy : terminal_state run.state ≡ false → length run.steps ≤ run.max_steps
  pub affordable : terminal_state run.state ≡ false → over_budget run ≡ false

pub Numbered-append :
    (k : ℕ) (ss : List Step) (s : Step)
    → Numbered k ss
    → s.index ≡ k + length ss
    → Numbered k (ss ++ s ∷ [])
Numbered-append k [] s h e = (omega arith, tt)
Numbered-append k (x ∷ ss) s h e = (h.0, Numbered-append (suc k) ss s h.1 (omega arith))

pub Numbered-update_at :
    (k i : ℕ) (f : Step → Step) (ss : List Step)
    → ((s : Step) → get_elem? ss i ≡ some s → (f s).index ≡ s.index)
    → Numbered k ss
    → Numbered k (update_at i f ss)
unfolding update_at
Numbered-update_at k i f [] e h = tt
Numbered-update_at k zero f (s ∷ ss) e h = (ground (arith, e s refl, h.0), h.1)
Numbered-update_at k (suc i) f (s ∷ ss) e h = (h.0, Numbered-update_at (suc k) i f ss e h.1)

pub length-update_at :
    (i : ℕ) (f : Step → Step) (ss : List Step) → length (update_at i f ss) ≡ length ss
unfolding update_at
length-update_at i f [] = refl
length-update_at zero f (s ∷ ss) = refl
length-update_at (suc i) f (s ∷ ss) = ap suc (length-update_at i f ss)

pub index-compensated_by : (r : Reply) (s : Step) → (compensated_by r s).index ≡ s.index
index-compensated_by (result, none) s = refl
index-compensated_by (result, some e) s = refl

module _ (env : Env) (actor : Actor) (run_id : String) where
  pub length-compensate_steps :
      (ss : List Step) (n : ℕ) → length (compensate_steps env actor run_id ss n).0 ≡ length ss
  unfolding compensate_steps
  length-compensate_steps [] n = refl
  length-compensate_steps (s ∷ ss) n = ground (arith, length-compensate_steps ss n)

  pub Numbered-compensate_steps :
      (k : ℕ) (ss : List Step) (n : ℕ)
      → Numbered k ss
      → Numbered k (compensate_steps env actor run_id ss n).0
  unfolding compensate_steps
  Numbered-compensate_steps k [] n h = tt
  Numbered-compensate_steps k (s ∷ ss) n h =
      let ih = Numbered-compensate_steps (suc k) ss n h.1 in
      let n' = (compensate_steps env actor run_id ss n).1 in
      let at =
        index-compensated_by
          (compensate env.tools n' actor run_id s.index s.tool_name s.tool_arguments
            (or_empty s.tool_result) none)
          s in
      elim (Bool-cases (can_compensate env.tools s)) [
        | inl e ↦ rw e (ground (arith, at, h.0), ih)
        | inr e ↦ rw e (h.0, ih)
      ]

-- a change of the fields that a call may set
pub IsWellFormed-change :
    (r : Run) (state : RunState) (steps : List Step) (fault : Option Fault) (final : String)
    (now : ℕ)
    → IsWellFormed r
    → terminal_state r.state ≡ false
    → Numbered 1 steps
    → length steps ≤ r.max_steps + 1
    → (terminal_state state ≡ false → length steps ≤ r.max_steps)
    → IsWellFormed
        (record r { state = state; steps = steps; fault = fault; final = final; updated_at = now })
IsWellFormed-change r state steps fault final now h live numbered bounded roomy = record {
  numbered = numbered;
  bounded = bounded;
  roomy = roomy;
  affordable = λ _. h.affordable live;
}
