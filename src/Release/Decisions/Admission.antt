-- ===== src/Release/Decisions/Admission.antt =====
-- What `Decide` of internal/releasecenter/coordinator.go checks before it records a decision.
use ai_etl_platform.Common.{
  ℕ, ◌≡◌, ◌⊎◌, inl, inr, refl, String, str_eq, eq_iff, none, List, [], ◌∷◌, ◌++◌, Bool, true, false,
  ◌||◌, Outcome-cases, ok, arith, Bool-cases, trim_space, to_lower, equal_fold, is_blank,
}
use ai_etl_platform.Release.Publication.{Actor}
use ai_etl_platform.Release.Center.{
  ReleaseRequest, ReviewReport, validate_review_binding, is_awaiting, is_manual_exception,
}
use ai_etl_platform.Release.Decisions.{Decision, ReleaseStore, Services, objection, scan, admit}

abbrev pub decided_by : List Decision → String → Bool
decided_by [] user = false
decided_by (d ∷ ds) user = str_eq d.decided_by user || decided_by ds user

-- Nobody has two decisions in the list.
abbrev pub OneEach : List Decision → Type 0
OneEach [] = Unit
OneEach (d ∷ ds) = (decided_by ds d.decided_by ≡ false) × OneEach ds

-- a scan that ends tells whether the user is in the list
pub scan_lem :
    (user decision reason : String) (ds : List Decision) (found : Bool) {r : Bool}
    → scan user decision reason ds found ≡ ok r
    → r ≡ (found || decided_by ds user)
unfolding scan
scan_lem user decision reason [] found h = ground (arith, h)
scan_lem user decision reason (d ∷ ds) found {r} h = elim (Bool-cases (str_eq d.decided_by user)) [
  | inl e ↦
      let q = scan_lem user decision reason ds true {r = r} (ground (arith, h, e)) in
      ground (arith, q, e)
  | inr e ↦
      let q = scan_lem user decision reason ds found {r = r} (ground (arith, h, e)) in
      ground (arith, q, e)
]

decided_by-snoc :
    (ds : List Decision) (e : Decision) (user : String)
    → decided_by (ds ++ e ∷ []) user ≡ (decided_by ds user || str_eq e.decided_by user)
decided_by-snoc [] e user = ground arith
decided_by-snoc (d ∷ ds) e user = ground (arith, decided_by-snoc ds e user)

pub OneEach-snoc :
    (ds : List Decision) (e : Decision)
    → OneEach ds
    → decided_by ds e.decided_by ≡ false
    → OneEach (ds ++ e ∷ [])
OneEach-snoc [] e h n = (refl, tt)
OneEach-snoc (d ∷ ds) e h n = (
  ground (
    arith,
    decided_by-snoc ds e d.decided_by,
    h.0,
    n,
    eq_iff d.decided_by e.decided_by,
    eq_iff e.decided_by d.decided_by,
  ),
  OneEach-snoc ds e h.1 (ground (arith, n)),
)

module _ (store : ReleaseStore) (services : Services) where
  -- What `Decide` has found out before it records a decision.
  pub record IsAdmitted (now : ℕ) (actor : Actor) (id : String) (reason : String) (s : store.State)
      (request : ReleaseRequest) (normal : String) (ds : List Decision) (found : Bool)
      : Type 0 where
    pub admin : equal_fold (trim_space actor.role) "admin" ≡ true
    pub loaded : store.get_request actor.tenant_id id s ≡ ok request
    pub allowed : objection services.policies actor request ≡ none
    pub awaiting : is_awaiting request.state ≡ true
    pub reviewed :
        (report : ReviewReport) × (store.get_review actor.tenant_id request.review_id s ≡ ok report)
        × (validate_review_binding report request.candidate now ≡ none)
    pub explained : (is_manual_exception request.state ≡ false) ⊎ (is_blank reason ≡ false)
    pub listed : store.list_decisions actor.tenant_id id s ≡ ok ds
    pub known : found ≡ decided_by ds actor.user_id
    pub binary : (normal ≡ "approved") ⊎ (normal ≡ "rejected")

  pub admit_lem :
      (now : ℕ) (actor : Actor) (id decision reason : String) (s : store.State)
      {request : ReleaseRequest} {normal : String} {ds : List Decision} {found : Bool}
      → admit store services now actor id decision reason s ≡ ok (request, normal, ds, found)
      → IsAdmitted now actor id reason s request normal ds found
  unfolding admit
  admit_lem now actor id decision reason s {request} {normal} {ds} {found} h =
      elim (Outcome-cases (store.get_request actor.tenant_id id s)) [
        | inl (x, e) ↦ absurd (ground (arith, h, e))
        | inr (r, e) ↦ elim (Outcome-cases (store.get_review actor.tenant_id r.review_id s)) [
          | inl (x, f) ↦ absurd (ground (arith, h, e, f))
          | inr (report, f) ↦ elim (Outcome-cases (store.list_decisions actor.tenant_id id s)) [
            | inl (x, g) ↦ absurd (ground (arith, h, e, f, g))
            | inr (l, g) ↦
                let same : request ≡ r = ground (arith, h, e, f, g) in
                let list : ds ≡ l = ground (arith, h, e, f, g) in
                let word : normal ≡ to_lower (trim_space decision) = ground (arith, h, e, f, g) in
                let known : scan actor.user_id normal (trim_space reason) ds false ≡ ok found =
                  ground (arith, h, e, f, g, same, list, word) in
                record {
                  admin = ground (arith, h);
                  loaded = rw same e;
                  allowed = ground (arith, h, e, f, g, same);
                  awaiting = ground (arith, h, e, f, g, same);
                  reviewed = (report, rw same f, ground (arith, h, e, f, g, same));
                  explained = ground (arith, h, e, f, g, same);
                  listed = rw list g;
                  known =
                      scan_lem actor.user_id normal (trim_space reason) ds false {r = found} known;
                  binary = ground (
                    arith,
                    h,
                    e,
                    f,
                    g,
                    same,
                    word,
                    eq_iff normal "approved",
                    eq_iff normal "rejected",
                  );
                }
          ]
        ]
      ]
