-- ===== src/Agent/Orchestrator/Compensation.antt =====
-- What compensation does to the steps of a run, in `compensateCompletedSideEffects` of
-- internal/agent/orchestrator.go.
use ai_etl_platform.Common.{
  ℕ, suc, String, ◌≡◌, Option-cases, Outcome-cases, none, some, List, [], ◌∷◌, Bool-cases, true,
  false, arith, Dict, ok, err, inl, inr,
}
use ai_etl_platform.Agent.Types.{Fault, Json, Step, Actor, ToolResult, RunState, StepType}
use ai_etl_platform.Agent.Schema.{validate_arguments}
use ai_etl_platform.Agent.World.{Env}
use ai_etl_platform.Agent.Tools.{
  Registry, RegisteredTool, Compensator, lookup, has_compensation, prepare, invocation, compensate,
}
use ai_etl_platform.Agent.Orchestrator.Steps.{
  can_compensate, compensated_by, compensate_steps, or_empty,
}

-- The step is a completed tool call that has not been undone, and its tool is registered with a
-- compensator.
pub record CanUndo (tools : Registry) (s : Step) : Type 0 where
  pub called : s.type ≡ StepType.tool_call
  pub completed : s.state ≡ RunState.completed
  pub fresh : s.compensated ≡ false
  pub tool : RegisteredTool
  pub known : lookup tools s.tool_name ≡ some tool
  pub compensator : Compensator
  pub offered : tool.compensator ≡ some compensator

-- A step before and after the call of number `n`. Arguments that are not valid any more keep the
-- compensator from being called; otherwise it is called once, with the step's own arguments and
-- result. The step carries the error, or the result and the mark that it is undone; all else of it
-- stays.
pub data IsHandled (actor : Actor) (run_id : String) (tool : RegisteredTool) (c : Compensator)
    (n : ℕ) (s : Step) (t : Step) : Type 0 where
  refused :
      (e : Fault)
      → validate_arguments tool.definition.parameters s.tool_arguments ≡ err e
      → t ≡ record s { compensation_fault = some e }
      → IsHandled actor run_id tool c n s t
  failed :
      (args : Dict Json) (r : ToolResult) (e : Fault)
      → validate_arguments tool.definition.parameters s.tool_arguments ≡ ok args
      → c n (invocation actor run_id s.index tool args) (or_empty s.tool_result) ≡ (r, some e)
      → t ≡ record s { compensation_fault = some e }
      → IsHandled actor run_id tool c n s t
  undone :
      (args : Dict Json) (r : ToolResult)
      → validate_arguments tool.definition.parameters s.tool_arguments ≡ ok args
      → c n (invocation actor run_id s.index tool args) (or_empty s.tool_result) ≡ (r, none)
      → t ≡ record s { compensation_result = some r; compensated = true }
      → IsHandled actor run_id tool c n s t

-- The steps before and after, and the number of the next call before and after: from the last step
-- to the first, each that can be undone takes one number, and no other step takes any.
pub data AllHandled (tools : Registry) (actor : Actor) (run_id : String) (n : ℕ)
    : List Step → List Step → ℕ → Type 0 where
  no_steps : AllHandled tools actor run_id n [] [] n
  left :
      {s : Step} {ss ts : List Step} {m : ℕ}
      → (CanUndo tools s → ⊥)
      → AllHandled tools actor run_id n ss ts m
      → AllHandled tools actor run_id n (s ∷ ss) (s ∷ ts) m
  handed :
      {s t : Step} {ss ts : List Step} {m : ℕ} (u : CanUndo tools s)
      → IsHandled actor run_id u.tool u.compensator m s t
      → AllHandled tools actor run_id n ss ts m
      → AllHandled tools actor run_id n (s ∷ ss) (t ∷ ts) (suc m)

can_compensate-CanUndo :
    (tools : Registry) (s : Step) → can_compensate tools s ≡ true → CanUndo tools s
unfolding has_compensation
can_compensate-CanUndo tools s h = elim (Option-cases (lookup tools s.tool_name)) [
  | inl e ↦ absurd (ground (arith, h, e))
  | inr (tool, e) ↦ elim (Option-cases tool.compensator) [
    | inl f ↦ absurd (ground (arith, h, e, f))
    | inr (c, f) ↦ record {
      called = ground (arith, h);
      completed = ground (arith, h);
      fresh = ground (arith, h);
      tool = tool;
      known = e;
      compensator = c;
      offered = f;
    }
  ]
]

CanUndo-can_compensate :
    (tools : Registry) (s : Step) → CanUndo tools s → can_compensate tools s ≡ true
unfolding has_compensation
CanUndo-can_compensate tools s u =
    ground (arith, u.called, u.completed, u.fresh, u.known, u.offered)

compensate-IsHandled :
    (tools : Registry) (actor : Actor) (run_id : String) (n : ℕ) (s : Step) (u : CanUndo tools s)
    → IsHandled actor run_id u.tool u.compensator n s (
        compensated_by
          (compensate tools n actor run_id s.index s.tool_name s.tool_arguments
            (or_empty s.tool_result)
            none)
          s)
unfolding compensate prepare
compensate-IsHandled tools actor run_id n s u =
    let reply =
      compensate tools n actor run_id s.index s.tool_name s.tool_arguments (or_empty s.tool_result)
        none in
    elim (Outcome-cases (validate_arguments u.tool.definition.parameters s.tool_arguments)) [
      | inl (e, v) ↦ refused e v (ground (arith, v, u.known))
      | inr (args, v) ↦
          let own =
            u.compensator n (invocation actor run_id s.index u.tool args)
              (or_empty s.tool_result) in
          let step : reply ≡ own = ground (arith, v, u.known, u.offered) in
          elim (Option-cases own.1) [
            | inr (e, f) ↦ failed args own.0 e v (ground (arith, f)) (ground (arith, step, f))
            | inl f ↦ undone args own.0 v (ground (arith, f)) (ground (arith, step, f))
          ]
    ]

-- Compensation goes from the last step to the first and makes one attempt, no more and no less, at
-- each completed tool call that has not been undone and whose tool has a compensator: the
-- compensator is called once, with the step's own arguments and result, unless the arguments are
-- not valid any more; the step is marked as undone or carries the error. Every other step is left
-- as it is.
pub compensate_steps-AllHandled :
    (env : Env) (actor : Actor) (run_id : String) (ss : List Step) (n : ℕ)
    → AllHandled env.tools actor run_id n ss
        (compensate_steps env actor run_id ss n).0
        (compensate_steps env actor run_id ss n).1
unfolding compensate_steps
compensate_steps-AllHandled env actor run_id [] n = no_steps
compensate_steps-AllHandled env actor run_id (s ∷ ss) n =
    let ih = compensate_steps-AllHandled env actor run_id ss n in
    let m = (compensate_steps env actor run_id ss n).1 in
    elim (Bool-cases (can_compensate env.tools s)) [
      | inl e ↦
          let u = can_compensate-CanUndo env.tools s e in
          rw e (handed u (compensate-IsHandled env.tools actor run_id m s u) ih)
      | inr e ↦
          rw e (left (λ u. absurd (ground (arith, e, CanUndo-can_compensate env.tools s u))) ih)
    ]
