-- ===== src/Release/Publication/Readiness.antt =====
-- Which documents are ready, and when the publisher is called.
use ai_etl_platform.Common.{
  ap, sym, ◌∙◌, ◌&&◌, not, has, Outcome-cases, ◌<◌, String, eq_iff, Option, Option-cases, none,
  some, ◌≡◌, ◌≢◌, ◌↔◌, ◌⊎◌, inl, inr, refl, true, false, arith, ok, trim_space, equal_fold,
  is_blank,
}
use ai_etl_platform.Release.Publication.{
  Actor, Candidate, Assessment, Document, DocumentReader, CandidateReader, Publisher, Request,
  valid_candidate, publish_approved, document_blockers, assessment, assess,
}

-- What makes a document ready to be published as the candidate.
pub record IsReady (doc : Document) (candidate : Candidate) : Type 0 where
  pub managed : doc.knowledge_space_id ≢ "user-uploads"
  pub placed : is_blank doc.knowledge_space_id ≡ false
  pub ingested : doc.status ≡ "completed"
  pub active : (doc.doc_status ≡ "") ⊎ (doc.doc_status ≡ "active")
  pub publishable : (doc.publication_status ≡ "draft") ⊎ (doc.publication_status ≡ "published")
  pub owned : is_blank doc.owner ≡ false
  pub dated : 0 < doc.effective_date
  pub valid : valid_candidate candidate ≡ true
  pub same : candidate.document_id ≡ doc.doc_id

assessment-IsReady :
    (doc : Document) (o : Option Candidate) (c : Candidate)
    → (assessment doc o).candidate ≡ some c
    → (o ≡ some c) × IsReady doc c
unfolding assessment document_blockers
assessment-IsReady doc none c h = absurd (ground (arith, h))
assessment-IsReady doc (some d) c h =
    let same : d ≡ c = ground (arith, h) in
    (
      ground (arith, same),
      record {
        managed = ground (arith, h, eq_iff doc.knowledge_space_id "user-uploads");
        placed = ground (arith, h);
        ingested = ground (arith, h, eq_iff doc.status "completed");
        active = ground (arith, h, eq_iff doc.doc_status "", eq_iff doc.doc_status "active");
        publishable = ground (
          arith,
          h,
          eq_iff doc.publication_status "draft",
          eq_iff doc.publication_status "published",
        );
        owned = ground (arith, h);
        dated = ground (arith, h);
        valid = ground (arith, h, same);
        same = ground (arith, h, same, eq_iff d.document_id doc.doc_id);
      },
    )

ready_assessment :
    (doc : Document) (c : Candidate)
    → IsReady doc c
    → ((assessment doc (some c)).ready ≡ true) × ((assessment doc (some c)).candidate ≡ some c)
unfolding assessment document_blockers
ready_assessment doc c h =
    let e1 = eq_iff doc.knowledge_space_id "user-uploads" in
    let e2 = eq_iff doc.status "completed" in
    let e3 = eq_iff doc.doc_status "" in
    let e4 = eq_iff doc.doc_status "active" in
    let e5 = eq_iff doc.publication_status "draft" in
    let e6 = eq_iff doc.publication_status "published" in
    let e7 = eq_iff c.document_id doc.doc_id in
    (
      ground (
        arith, h.managed, h.placed, h.ingested, h.active, h.publishable, h.owned, h.dated, h.valid,
        h.same, e1, e2, e3, e4, e5, e6, e7,
      ),
      ground (
        arith, h.managed, h.placed, h.ingested, h.active, h.publishable, h.owned, h.dated, h.valid,
        h.same, e1, e2, e3, e4, e5, e6, e7,
      ),
    )

-- What an assessment that succeeds was made from.
found :
    (documents : DocumentReader) (candidates : CandidateReader) (actor : Actor) (id : String)
    (a : Assessment)
    → assess (some documents) (some candidates) actor id ≡ ok a
    → (doc : Document) × (o : Option Candidate) × (is_blank actor.tenant_id ≡ false)
      × (is_blank id ≡ false)
      × (documents (trim_space actor.tenant_id) (trim_space id) ≡ ok (some doc))
      × (doc.tenant_id ≡ trim_space actor.tenant_id)
      × (candidates (trim_space actor.tenant_id) (trim_space id) ≡ ok o)
      × (assessment doc o ≡ a)
unfolding assess is_blank
found documents candidates actor id a h =
    let tenant = trim_space actor.tenant_id in
    let key = trim_space id in
    elim (Outcome-cases (documents tenant key)) [
      | inl (x, e) ↦ absurd (ground (arith, h, e))
      | inr (od, e) ↦ elim (Option-cases od) [
        | inl n ↦ absurd (ground (arith, h, e, n))
        | inr (doc, n) ↦ elim (Outcome-cases (candidates tenant key)) [
          | inl (x, k) ↦ absurd (ground (arith, h, e, n, k))
          | inr (o, k) ↦ (
            doc,
            o,
            ground (arith, h, e, n, k),
            ground (arith, h, e, n, k),
            ground (arith, e, n),
            ground (arith, h, e, n, k, eq_iff doc.tenant_id tenant),
            k,
            ground (arith, h, e, n, k),
          )
        ]
      ]
    ]

assess_found :
    (documents : DocumentReader) (candidates : CandidateReader) (actor : Actor) (id : String)
    (doc : Document) (c : Candidate)
    → is_blank actor.tenant_id ≡ false
    → is_blank id ≡ false
    → documents (trim_space actor.tenant_id) (trim_space id) ≡ ok (some doc)
    → doc.tenant_id ≡ trim_space actor.tenant_id
    → candidates (trim_space actor.tenant_id) (trim_space id) ≡ ok (some c)
    → assess (some documents) (some candidates) actor id ≡ ok (assessment doc (some c))
unfolding assess is_blank
assess_found documents candidates actor id doc c t i d own k =
    ground (arith, t, i, d, own, k, eq_iff doc.tenant_id (trim_space actor.tenant_id))

-- What stands behind an assessment that calls a document ready: tenant and document are named, the
-- document was found and is the tenant's, its current candidate was found, and the document is
-- ready for it.
abbrev pub IsFoundReady : DocumentReader → CandidateReader → Actor → String → Candidate → Type 0
IsFoundReady documents candidates actor id c =
    (doc : Document) × (is_blank actor.tenant_id ≡ false)
    × (is_blank id ≡ false)
    × (documents (trim_space actor.tenant_id) (trim_space id) ≡ ok (some doc))
    × (doc.tenant_id ≡ trim_space actor.tenant_id)
    × (candidates (trim_space actor.tenant_id) (trim_space id) ≡ ok (some c))
    × IsReady doc c

-- a document without blockers has a candidate
ready_candidate :
    (doc : Document) (o : Option Candidate)
    → (assessment doc o).ready ≡ true
    → (c : Candidate) × ((assessment doc o).candidate ≡ some c)
unfolding assessment document_blockers
ready_candidate doc none h = absurd (ground (arith, h))
ready_candidate doc (some c) h = (c, ground (arith, h))

-- An assessment says that a document is ready and names a candidate exactly when tenant and
-- document are named, the document was found and is the tenant's, that candidate was found as its
-- current one, and the document is ready for it: in a managed space, ingested, active, a draft or
-- published, owned, dated, and with a valid candidate of its own. It says that a document is ready
-- exactly when this holds of some candidate, and names a candidate only if it says so.
pub assess-IsReady_iff :
    (documents : DocumentReader) (candidates : CandidateReader) (actor : Actor) (id : String)
    (c : Candidate)
    → (((a : Assessment) × (assess (some documents) (some candidates) actor id ≡ ok a)
          × (a.ready ≡ true)
          × (a.candidate ≡ some c))
        ↔ IsFoundReady documents candidates actor id c)
      × (((a : Assessment) × (assess (some documents) (some candidates) actor id ≡ ok a)
            × (a.ready ≡ true))
          ↔ ((d : Candidate) × IsFoundReady documents candidates actor id d))
      × (((a : Assessment) × (assess (some documents) (some candidates) actor id ≡ ok a)
            × (a.candidate ≡ some c))
          ↔ IsFoundReady documents candidates actor id c)
assess-IsReady_iff documents candidates actor id c = (
  (λ (a, h, y, r). behind c (a, h, r), λ f. let (a, h, y, r) = made c f in (a, h, y, r)),
  (
    λ (a, h, y).
        let (doc, o, t, i, d, own, k, e) = found documents candidates actor id a h in
        let (b, q) = ready_candidate doc o (ap (λ (x : Assessment). x.ready) e ∙ y) in
        (b, behind b (a, h, sym (ap (λ (x : Assessment). x.candidate) e) ∙ q)),
    λ (d, f). let (a, h, y, r) = made d f in (a, h, y),
  ),
  (λ (a, h, r). behind c (a, h, r), λ f. let (a, h, y, r) = made c f in (a, h, r)),
)
  where
    behind :
        (b : Candidate)
        → (a : Assessment) × (assess (some documents) (some candidates) actor id ≡ ok a)
          × (a.candidate ≡ some b)
        → IsFoundReady documents candidates actor id b
    behind b (a, h, r) =
        let (doc, o, t, i, d, own, k, e) = found documents candidates actor id a h in
        let q = assessment-IsReady doc o b (ap (λ (x : Assessment). x.candidate) e ∙ r) in
        (doc, t, i, d, own, k ∙ ap ok q.0, q.1)

    made :
        (b : Candidate)
        → IsFoundReady documents candidates actor id b
        → (a : Assessment) × (assess (some documents) (some candidates) actor id ≡ ok a)
          × (a.ready ≡ true)
          × (a.candidate ≡ some b)
    made b (doc, t, i, d, own, k, h) =
        let q = ready_assessment doc b h in
        (
          assessment doc (some b),
          assess_found documents candidates actor id doc b t i d own k,
          q.0,
          q.1,
        )

-- The publisher is called exactly when there is one, the actor is an administrator, the candidate
-- is valid and the idempotency key is not blank; it is then called once, with just these.
pub publish_requested_iff :
    (publisher : Option Publisher) (actor : Actor) (c : Candidate) (key : String) (r : Request)
    → ((publish_approved publisher actor c key).1 ≡ some r) ↔ (
        (has publisher ≡ true)
        × (equal_fold (trim_space actor.role) "admin" ≡ true)
        × (valid_candidate c ≡ true)
        × (is_blank key ≡ false)
        × (r ≡ record { actor = actor; candidate = c; idempotency_key = key }))
unfolding publish_approved
publish_requested_iff none actor c key r = (λ h. absurd (ground (arith, h)), λ h. absurd (cc h.0))
publish_requested_iff (some f) actor c key r = (
  λ h. (refl, ground (arith, h), ground (arith, h), ground (arith, h), ground (arith, h)),
  λ h. ground (arith, h),
)

-- A document counts as published only when its publisher was called with it and had no error: the
-- result then names it.
publish_approved-published :
    (publisher : Publisher) (actor : Actor) (c : Candidate) (key : String)
    → (has (publish_approved (some publisher) actor c key).1 && not (has (publisher actor c key))
        ≡ true)
      ↔ ((publish_approved (some publisher) actor c key).0
          ≡ ok (record { document_id = c.document_id; publication_status = "published" }))
unfolding publish_approved
publish_approved-published publisher actor c key = (
  λ h. elim (Option-cases (publisher actor c key)) [
    | inl e ↦ ground (arith, h, e)
    | inr (x, e) ↦ absurd (ground (arith, h, e))
  ],
  λ h. elim (Option-cases (publisher actor c key)) [
    | inl e ↦ ground (arith, h, e)
    | inr (x, e) ↦ absurd (ground (arith, h, e))
  ],
)

-- A candidate that an assessment gave is one that an administrator can publish under any key that
-- is not blank: the publisher is then called with that candidate.
pub publish_approved-assess :
    (documents : DocumentReader) (candidates : CandidateReader) (publisher : Publisher)
    (actor : Actor) (id key : String) (c : Candidate) {a : Assessment}
    → assess (some documents) (some candidates) actor id ≡ ok a
    → a.candidate ≡ some c
    → equal_fold (trim_space actor.role) "admin" ≡ true
    → is_blank key ≡ false
    → (publish_approved (some publisher) actor c key).1
      ≡ some (record { actor = actor; candidate = c; idempotency_key = key })
publish_approved-assess documents candidates publisher actor id key c {a} h given admin named =
    let (doc, o, t, i, d, own, k, e) = found documents candidates actor id a h in
    let ready = (assessment-IsReady doc o c (ap (λ (x : Assessment). x.candidate) e ∙ given)).1 in
    (publish_requested_iff (some publisher) actor c key
        (record { actor = actor; candidate = c; idempotency_key = key })).1
      (refl, admin, ready.valid, named, refl)
