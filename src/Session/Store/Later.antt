-- ===== src/Session/Store/Later.antt =====
-- A session at a later time, and what the loops of internal/session/memory_store.go keep of it.
use ai_etl_platform.Common.{
  ℕ, ◌≡◌, inl, inr, refl, sym, subst₂, String, str_eq, Option, none, some, List, [], ◌∷◌, Bool,
  true, if◌then◌else◌, leb, length, Dict, get, has, arith, Bool-cases,
}
use ai_etl_platform.Session.Types.{SessionRecord, Creation, revoked}
use ai_etl_platform.Session.Store.{update_first, update_all, evict}

-- The same session at a later time: what is revoked stays so.
pub record IsLater (r : SessionRecord) (q : SessionRecord) : Type 0 where
  pub same_id : q.id ≡ r.id
  pub same_tenant : q.tenant_id ≡ r.tenant_id
  pub same_subject : q.subject_id ≡ r.subject_id
  pub same_login : q.authenticated_at ≡ r.authenticated_at
  pub stays : has r.revoked_at ≡ true → has q.revoked_at ≡ true

abbrev pub Later : Option SessionRecord → Option SessionRecord → Type 0
Later none o = o ≡ none
Later (some r) o = (q : SessionRecord) × (o ≡ some q) × IsLater r q

pub IsLater-refl : (r : SessionRecord) → IsLater r r
IsLater-refl r = record {
  same_id = refl;
  same_tenant = refl;
  same_subject = refl;
  same_login = refl;
  stays = λ h. h;
}

pub Later-refl : (o : Option SessionRecord) → Later o o
Later-refl none = refl
Later-refl (some r) = (r, refl, IsLater-refl r)

Later-trans : (a b c : Option SessionRecord) → Later a b → Later b c → Later a c
Later-trans none none c h k = k
Later-trans none (some q) c h k = absurd (ground (arith, h))
Later-trans (some r) none c (q, e, h) k = absurd (ground (arith, e))
Later-trans (some r) (some p) c (q, e, h) (q', e', k) =
    let same : p ≡ q = ground (arith, e) in
    (
      q',
      e',
      record {
        same_id = ground (arith, h.same_id, k.same_id, same);
        same_tenant = ground (arith, h.same_tenant, k.same_tenant, same);
        same_subject = ground (arith, h.same_subject, k.same_subject, same);
        same_login = ground (arith, h.same_login, k.same_login, same);
        stays = λ x. k.stays (ground (arith, h.stays x, same));
      },
    )

pub revoked-IsLater :
    (at : ℕ) (reason : String) (r : SessionRecord) → IsLater r (revoked at reason r)
revoked-IsLater at reason r = record {
  same_id = refl;
  same_tenant = refl;
  same_subject = refl;
  same_login = refl;
  stays = λ h. refl;
}

pub Later-via :
    {a b : Option SessionRecord} (a' b' : Option SessionRecord)
    → a ≡ a'
    → b ≡ b'
    → Later a' b'
    → Later a b
Later-via a' b' p q h = subst₂ Later (sym p) (sym q) h

module _ (test : SessionRecord → Bool) (change : SessionRecord → SessionRecord)
    (later : (r : SessionRecord) → IsLater r (change r)) where
  pub update_first-Later :
      (m : Dict SessionRecord) (d : String) → Later (get m d) (get (update_first test change m) d)
  unfolding get update_first
  update_first-Later [] d = refl
  update_first-Later ((j, r) ∷ m) d = elim (Bool-cases (test r)) [
    | inl t ↦ elim (Bool-cases (str_eq j d)) [
      | inl e ↦
          Later-via {a = get ((j, r) ∷ m) d} {b = get (update_first test change ((j, r) ∷ m)) d}
            (some r) (some (change r)) (ground (arith, e)) (ground (arith, e, t))
            (change r, refl, later r)
      | inr e ↦
          Later-via {a = get ((j, r) ∷ m) d} {b = get (update_first test change ((j, r) ∷ m)) d}
            (get m d) (get m d) (ground (arith, e)) (ground (arith, e, t)) (Later-refl (get m d))
    ]
    | inr t ↦ elim (Bool-cases (str_eq j d)) [
      | inl e ↦
          Later-via {a = get ((j, r) ∷ m) d} {b = get (update_first test change ((j, r) ∷ m)) d}
            (some r) (some r) (ground (arith, e)) (ground (arith, e, t)) (Later-refl (some r))
      | inr e ↦
          Later-via {a = get ((j, r) ∷ m) d} {b = get (update_first test change ((j, r) ∷ m)) d}
            (get m d) (get (update_first test change m) d) (ground (arith, e))
            (ground (arith, e, t)) (update_first-Later m d)
    ]
  ]

  pub get-update_all :
      (m : Dict SessionRecord) (d : String)
      → get (update_all test change m) d
        ≡ elim (get m d) [ none ↦ none | some r ↦ some (if test r then change r else r) ]
  unfolding get update_all
  get-update_all [] d = refl
  get-update_all ((j, r) ∷ m) d = ground (arith, get-update_all m d)

pub evict-Later :
    (c : Creation) (active : List SessionRecord) (m : Dict SessionRecord) (d : String)
    → Later (get m d) (get (evict c active m) d)
unfolding evict
evict-Later c [] m d = Later-refl (get m d)
evict-Later c (oldest ∷ active) m d =
    let m' =
      update_first (λ r. str_eq r.id oldest.id) (revoked c.at c.value.established_correlation_id)
        m in
    elim (Bool-cases (leb c.max_active_sessions (length (oldest ∷ active)))) [
      | inl e ↦
          Later-via {a = get m d} {b = get (evict c (oldest ∷ active) m) d} (get m d)
            (get (evict c active m') d) refl (ground (arith, e))
            (Later-trans (get m d) (get m' d) (get (evict c active m') d)
              (update_first-Later (λ r. str_eq r.id oldest.id)
                (revoked c.at c.value.established_correlation_id)
                (revoked-IsLater c.at c.value.established_correlation_id) m d)
              (evict-Later c active m' d))
      | inr e ↦
          Later-via {a = get m d} {b = get (evict c (oldest ∷ active) m) d} (get m d) (get m d) refl
            (ground (arith, e)) (Later-refl (get m d))
    ]
