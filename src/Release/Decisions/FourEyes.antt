-- ===== src/Release/Decisions/FourEyes.antt =====
-- Who has decided when `Decide` of internal/releasecenter/coordinator.go publishes or answers.
use ai_etl_platform.Common.{
  Outcome, err, refl, ℕ, ◌≤◌, ◌≡◌, ◌⊎◌, inl, inr, sym, subst, String, str_eq, eq_iff, Option-cases,
  List, [], ◌∷◌, ◌++◌, Bool, true, false, not, ◌&&◌, ◌||◌, if◌then◌else◌, Outcome-cases, ok, arith,
  Bool-cases,
}
use ai_etl_platform.Release.Publication.{Actor}
use ai_etl_platform.Release.Center.{ReleaseRequest}
use ai_etl_platform.Release.Decisions.{
  recorded_world, DecisionFault, of_store, Answer, entry_for, Decision, ReleaseStore, Services,
  ApprovalResult, is_approved, count_approved, World, admit, settle, decide_admitted, decide,
  entry_of, decision_recorded,
}
use ai_etl_platform.Release.Decisions.Admission.{decided_by, OneEach, OneEach-snoc, admit_lem}
use ai_etl_platform.Release.Decisions.Safety.{decide_admitted-recorded, decide-IsBacked}

-- somebody else has approved
abbrev pub other_approved : String → List Decision → Bool
other_approved user [] = false
other_approved user (d ∷ ds) =
    (is_approved d && not (str_eq d.decided_by user)) || other_approved user ds

count_approved-alone :
    (user : String) (ds : List Decision)
    → OneEach ds
    → other_approved user ds ≡ false
    → count_approved ds ≤ (if decided_by ds user then 1 else 0)
unfolding count_approved
count_approved-alone user [] h n = omega arith
count_approved-alone user (d ∷ ds) h n =
    ground (
      arith,
      count_approved-alone user ds h.1 (ground (arith, n)),
      h.0,
      n,
      eq_iff d.decided_by user,
    )

module _ (store : ReleaseStore) (services : Services) where
  -- If the store lists no two decisions of one user and the request, as it loads it, asks for two
  -- approvals at least, then a call of `Decide` that hands anything to the workflow finds an
  -- approval by somebody else than the actor.
  pub decide-other_approved :
      (now later : ℕ) (fresh : String) (actor : Actor) (id decision reason : String)
      (w : World store services) {request : ReleaseRequest} {ds : List Decision}
      → store.get_request actor.tenant_id id w.state ≡ ok request
      → store.list_decisions actor.tenant_id id w.state ≡ ok ds
      → OneEach ds
      → 2 ≤ request.required_approvals
      → ((decide store services now later fresh actor id decision reason w).1.published
          ≡ w.published)
        ⊎ (other_approved actor.user_id ds ≡ true)
  decide-other_approved now later fresh actor id decision reason w {request} {ds} r l o n =
      elim (decide-IsBacked store services now later fresh actor id decision reason w) [
        | inl e ↦ inl e
        | inr (p, e, b) ↦
            let same : b.request ≡ request = ground (arith, b.admitted.loaded, r) in
            let list : b.decisions ≡ ds = ground (arith, b.admitted.listed, l) in
            inr (elim (Bool-cases (other_approved actor.user_id ds)) [
              | inl t ↦ t
              | inr f ↦ absurd (
                  ground (
                    arith,
                    same,
                    list,
                    b.approved,
                    b.admitted.known,
                    n,
                    count_approved-alone actor.user_id ds o f,
                  ))
            ])
      ]

  -- an error, or a list of decisions, in which nobody has two
  abbrev pub AnswersWith : Outcome DecisionFault ApprovalResult → List Decision → Type 0
  AnswersWith outcome ds =
      ((e : DecisionFault) × (outcome ≡ err e))
      ⊎ ((r : ApprovalResult) × (outcome ≡ ok r) × (r.decisions ≡ ds) × OneEach ds)

  settle-AnswersWith :
      (actor : Actor) (id : String) (request : ReleaseRequest) (decision : String)
      (ds : List Decision) (w : World store services)
      → OneEach ds
      → AnswersWith (settle store services actor id request decision ds w).0 ds
        × ((settle store services actor id request decision ds w).1.recorded ≡ w.recorded)
  unfolding settle
  settle-AnswersWith actor id request decision ds w o =
      let kept : (settle store services actor id request decision ds w).1.recorded ≡ w.recorded =
        ground arith in
      elim (Outcome-cases (settle store services actor id request decision ds w).0) [
        | inl (x, e) ↦ (inl (x, e), kept)
        | inr (r, e) ↦ (inr (r, e, ground (arith, e), o), kept)
      ]

  -- What a call records: nothing, and then it fails or the actor's decision is listed already; or
  -- one decision, the actor's own on the request, where the list has none of the actor's.
  abbrev pub RecordsOnce :
      Actor → String → List Decision → World store services → Answer store services → Type 0
  RecordsOnce actor id ds w (outcome, after) =
      ((after.recorded ≡ w.recorded)
        × (((e : DecisionFault) × (outcome ≡ err e))
            ⊎ ((decided_by ds actor.user_id ≡ true) × AnswersWith outcome ds)))
      ⊎ ((d : Decision) × (after.recorded ≡ d ∷ w.recorded)
          × (d.decided_by ≡ actor.user_id)
          × (d.request_id ≡ id)
          × (decided_by ds actor.user_id ≡ false)
          × AnswersWith outcome (ds ++ d ∷ []))

  decide_admitted-RecordsOnce :
      (later : ℕ) (fresh : String) (actor : Actor) (id reason : String) (w : World store services)
      (request : ReleaseRequest) (normal : String) (ds : List Decision) (found : Bool)
      → found ≡ decided_by ds actor.user_id
      → OneEach ds
      → RecordsOnce actor id ds w (
          decide_admitted store services later fresh actor id reason (request, normal, ds, found) w)
  unfolding decide_admitted
  decide_admitted-RecordsOnce later fresh actor id reason w request normal ds true k o =
      let (a, r) =
        settle-AnswersWith actor id request normal ds
          (record w {
            notices =
                decision_recorded request normal (entry_of actor.user_id ds) actor.user_id
                  (count_approved ds)
                ∷ w.notices;
          })
          o in
      inl (r, inr (sym k, a))
  decide_admitted-RecordsOnce later fresh actor id reason w request normal ds false k o =
      let entry = entry_for later fresh actor id normal reason in
      let all = ds ++ entry ∷ [] in
      elim (Option-cases (store.record_decision entry w.state).0) [
        | inr (x, e) ↦
            inr (entry, ground (arith, e), refl, refl, sym k, inl (of_store x, ground (arith, e)))
        | inl e ↦
            let (a, r) =
              settle-AnswersWith actor id request normal all
                (record (recorded_world store services entry w) {
                  notices =
                      decision_recorded request normal fresh actor.user_id (count_approved all)
                      ∷ w.notices;
                })
                (OneEach-snoc ds entry o (sym k)) in
            let step =
              decide_admitted-recorded store services later fresh actor id reason w request normal
                ds e in
            subst (RecordsOnce actor id ds w) (sym step) (inr (entry, r, refl, refl, sym k, a))
      ]

  -- If the store lists no two decisions of one user, a call of `Decide` either hands no decision to
  -- the store, and then it fails or the actor's is listed already and the list is answered as it
  -- is; or it hands over one, the actor's own on the request, while none of the actor's is listed,
  -- and then it fails or answers with that one added at the end. No answer has two of one user.
  pub decide-RecordsOnce :
      (now later : ℕ) (fresh : String) (actor : Actor) (id decision reason : String)
      (w : World store services) {ds : List Decision}
      → store.list_decisions actor.tenant_id id w.state ≡ ok ds
      → OneEach ds
      → RecordsOnce actor id ds w (decide store services now later fresh actor id decision reason w)
  unfolding decide
  decide-RecordsOnce now later fresh actor id decision reason w {ds} l o =
      elim (Outcome-cases (admit store services now actor id decision reason w.state)) [
        | inl (x, e) ↦ inl (ground (arith, e), inl (x, ground (arith, e)))
        | inr ((request, normal, ds', found), e) ↦
            let a = admit_lem store services now actor id decision reason w.state e in
            let same : ds' ≡ ds = ground (arith, a.listed, l) in
            subst
              (λ x.
                RecordsOnce actor id x w
                  (decide store services now later fresh actor id decision reason w))
              same
              (rw (e, decide)
                (decide_admitted-RecordsOnce later fresh actor id reason w request normal ds' found
                  a.known (subst OneEach (sym same) o)))
      ]
