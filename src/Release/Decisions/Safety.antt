-- ===== src/Release/Decisions/Safety.antt =====
-- What was checked when `Decide` of internal/releasecenter/coordinator.go publishes a document,
-- and that nobody decides twice.
use ai_etl_platform.Common.{
  ℕ, ◌+◌, ◌≤◌, ◌≡◌, ◌≢◌, ◌⊎◌, inl, inr, refl, sym, subst, String, str_eq, eq_iff, Option-cases,
  none, List, [], ◌∷◌, ◌++◌, Bool, true, false, if◌then◌else◌, ltb, Outcome-cases, ok, arith,
  Bool-cases,
}
use ai_etl_platform.Release.Publication.{Actor, Assessment, Request}
use ai_etl_platform.Release.Center.{ReleaseRequest}
use ai_etl_platform.Release.Decisions.{
  entry_for, Decision, ReleaseStore, Services, is_approved, count_approved, is_current, World,
  admit, settle, decide_admitted, decide, entry_of, decision_recorded, notify_and_settle,
  recorded_world,
}
use ai_etl_platform.Release.Decisions.Admission.{IsAdmitted, admit_lem}

module _ (store : ReleaseStore) (services : Services) where
  -- What `settle` hands to the workflow: nothing, or the request's candidate once the approvals are
  -- there and the assessment is ready and of that candidate.
  abbrev pub IsPublishing : Actor → ReleaseRequest → String → List Decision → List Request → Type 0
  IsPublishing actor request decision ds added =
      (added ≡ [])
      ⊎ ((a : Assessment) × (added
            ≡ record { actor = actor; candidate = request.candidate; idempotency_key = request.id }
              ∷ [])
          × (decision ≢ "rejected")
          × (request.required_approvals ≤ count_approved ds)
          × (services.assess actor request.document_id ≡ ok a)
          × (is_current a request.candidate ≡ true))

  -- the requests that a call added in front
  abbrev Published : List Request → List Request → (List Request → Type 0) → Type 0
  Published before after P = (added : List Request) × (after ≡ added ++ before) × P added

  settle-Published :
      (actor : Actor) (id : String) (request : ReleaseRequest) (decision : String)
      (ds : List Decision) (w : World store services)
      → Published w.published
          (settle store services actor id request decision ds w).1.published
          (IsPublishing actor request decision ds)
  unfolding settle
  settle-Published actor id request decision ds w = elim (Bool-cases (str_eq decision "rejected")) [
    | inl e ↦ ([], ground (arith, e), inl refl)
    | inr e ↦ elim (Bool-cases (ltb (count_approved ds) request.required_approvals)) [
      | inl f ↦ ([], ground (arith, e, f), inl refl)
      | inr f ↦ elim (Outcome-cases (services.assess actor request.document_id)) [
        | inl (x, g) ↦ ([], ground (arith, e, f, g), inl refl)
        | inr (a, g) ↦ elim (Bool-cases (is_current a request.candidate)) [
          | inr c ↦ ([], ground (arith, e, f, g, c), inl refl)
          | inl c ↦ (
            record { actor = actor; candidate = request.candidate; idempotency_key = request.id }
                ∷ [],
            ground (arith, e, f, g, c),
            inr (a, refl, ground (arith, e, eq_iff decision "rejected"), ground (arith, f), g, c),
          )
        ]
      ]
    ]
  ]

count_approved-snoc :
    (ds : List Decision) (e : Decision)
    → count_approved (ds ++ e ∷ []) ≡ count_approved ds + (if is_approved e then 1 else 0)
unfolding count_approved
count_approved-snoc [] e = ground arith
count_approved-snoc (d ∷ ds) e = ground (arith, count_approved-snoc ds e)

module _ (store : ReleaseStore) (services : Services) where
  -- What stands behind a published request.
  pub record IsBacked (now : ℕ) (actor : Actor) (id : String) (reason : String)
      (w : World store services) (p : Request) : Type 0 where
    pub request : ReleaseRequest
    pub decisions : List Decision
    pub found : Bool
    pub assessment : Assessment
    pub admitted :
        IsAdmitted store services now actor id reason w.state request "approved" decisions found
    pub approved : request.required_approvals ≤ count_approved decisions + (if found then 0 else 1)
    pub assessed : services.assess actor request.document_id ≡ ok assessment
    pub current : is_current assessment request.candidate ≡ true
    pub same :
        p ≡ record { actor = actor; candidate = request.candidate; idempotency_key = request.id }

  abbrev pub BacksAll : ℕ → Actor → String → String → World store services → List Request → Type 0
  BacksAll now actor id reason w after =
      (after ≡ w.published)
      ⊎ ((p : Request) × (after ≡ p ∷ w.published) × IsBacked now actor id reason w p)

  backed :
      (now : ℕ) (actor : Actor) (id reason : String) (w : World store services)
      {request : ReleaseRequest} {normal : String} {ds : List Decision} {found : Bool}
      (all : List Decision) (after : List Request)
      → IsAdmitted store services now actor id reason w.state request normal ds found
      → count_approved all ≤ count_approved ds + (if found then 0 else 1)
      → Published store services w.published after
          (IsPublishing store services actor request normal all)
      → BacksAll now actor id reason w after
  backed now actor id reason w all after h n (added, e, inl f) = inl (ground (arith, e, f))
  backed now actor id reason w {request} {normal} {ds} {found} all after h n
        (added, e, inr (a, f, d, c, g, i)) =
      let word : normal ≡ "approved" = ground (arith, h.binary, d) in
      inr (
        record { actor = actor; candidate = request.candidate; idempotency_key = request.id },
        ground (arith, e, f),
        record {
          request = request;
          decisions = ds;
          found = found;
          assessment = a;
          admitted =
              subst (λ x. IsAdmitted store services now actor id reason w.state request x ds found)
                word h;
          approved = omega (arith, c, n);
          assessed = g;
          current = i;
          same = refl;
        },
      )

  -- a decision that the store takes is settled
  pub decide_admitted-recorded :
      (later : ℕ) (fresh : String) (actor : Actor) (id reason : String) (w : World store services)
      (request : ReleaseRequest) (normal : String) (ds : List Decision)
      → (store.record_decision (entry_for later fresh actor id normal reason) w.state).0 ≡ none
      → decide_admitted store services later fresh actor id reason (request, normal, ds, false) w
        ≡ notify_and_settle store services actor id request normal
            (ds ++ entry_for later fresh actor id normal reason ∷ [])
            fresh
            (recorded_world store services (entry_for later fresh actor id normal reason) w)
  unfolding decide_admitted
  decide_admitted-recorded later fresh actor id reason w request normal ds e = ground (arith, e)

  decide_admitted-IsBacked :
      (now later : ℕ) (fresh : String) (actor : Actor) (id reason : String)
      (w : World store services) (request : ReleaseRequest) (normal : String) (ds : List Decision)
      (found : Bool)
      → IsAdmitted store services now actor id reason w.state request normal ds found
      → BacksAll now actor id reason w
          (decide_admitted store services later fresh actor id reason
            (request, normal, ds, found)
            w).1.published
  unfolding decide_admitted
  decide_admitted-IsBacked now later fresh actor id reason w request normal ds true h =
      backed now actor id reason w ds _ h (omega arith) (
        settle-Published store services actor id request normal ds (record w {
          notices =
              decision_recorded request normal (entry_of actor.user_id ds) actor.user_id
                (count_approved ds)
              ∷ w.notices;
        }))
  decide_admitted-IsBacked now later fresh actor id reason w request normal ds false h =
      let entry = entry_for later fresh actor id normal reason in
      elim (Option-cases (store.record_decision entry w.state).0) [
        | inr (x, e) ↦ inl (ground (arith, e))
        | inl e ↦
            let step = decide_admitted-recorded later fresh actor id reason w request normal ds e in
            subst (λ x. BacksAll now actor id reason w x.1.published) (sym step)
              (backed now actor id reason w (ds ++ entry ∷ []) _ h
                (ground (arith, count_approved-snoc ds entry))
                (settle-Published store services actor id request normal (ds ++ entry ∷ [])
                  (record (recorded_world store services entry w) {
                    notices =
                        decision_recorded request normal fresh actor.user_id
                          (count_approved (ds ++ entry ∷ []))
                        ∷ w.notices;
                  })))
      ]

  -- Whatever the store and the services answer, `Decide` hands at most one request to the
  -- workflow; where it does, the request was loaded from the store, the actor is an
  -- administrator whom the policy allows, the review was there and bound to the candidate, the
  -- listed decisions, together with the actor's own unless it is among them, hold as many
  -- approvals as required, and the assessment was ready and of the request's candidate.
  pub decide-IsBacked :
      (now later : ℕ) (fresh : String) (actor : Actor) (id decision reason : String)
      (w : World store services)
      → BacksAll now actor id reason w
          (decide store services now later fresh actor id decision reason w).1.published
  unfolding decide
  decide-IsBacked now later fresh actor id decision reason w =
      elim (Outcome-cases (admit store services now actor id decision reason w.state)) [
        | inl (x, e) ↦ inl (rw (e, decide) refl)
        | inr ((request, normal, ds, found), e) ↦
            rw (e, decide)
              (decide_admitted-IsBacked now later fresh actor id reason w request normal ds found
                (admit_lem store services now actor id decision reason w.state e))
      ]
