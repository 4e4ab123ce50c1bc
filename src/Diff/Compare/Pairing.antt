-- ===== src/Diff/Compare/Pairing.antt =====
-- What the second loop of `Compare` in internal/versiondiff/diff.go leaves behind.
use ai_etl_platform.Common.{
  ℕ, ◌+◌, ◌≡◌, refl, ◌∙◌, ℤ, pos, Option-cases, List, [], ◌∷◌, ◌==◌, if◌then◌else◌, length, arith,
  inl, inr,
}
use ai_etl_platform.Diff.Compare.{
  Chunk, Kind, added, removed, modified, moved, change_of, Positions, find, Unmatched, modify,
  pair_up, report, kind_rank,
}
use ai_etl_platform.Diff.Compare.Positions.{
  length-delete, InRange, InRange-find, InRange-delete, Found,
}
use ai_etl_platform.Diff.Compare.Alignment.{count, get_elem?-inside, count-snoc}

-- what the second loop leaves behind: each modification took one position from either map
pub record IsPaired (u v : Unmatched) : Type 0 where
  pub previous_left :
      length v.unmatched_previous + count modified v.changes
      ≡ length u.unmatched_previous + count modified u.changes
  pub current_left :
      length v.unmatched_current + count modified v.changes
      ≡ length u.unmatched_current + count modified u.changes
  pub same_added : count added v.changes ≡ count added u.changes
  pub same_removed : count removed v.changes ≡ count removed u.changes
  pub same_moved : count moved v.changes ≡ count moved u.changes

IsPaired-refl : (u : Unmatched) → IsPaired u u
IsPaired-refl u = record {
  previous_left = refl;
  current_left = refl;
  same_added = refl;
  same_removed = refl;
  same_moved = refl;
}

IsPaired-trans : {u v w : Unmatched} → IsPaired u v → IsPaired v w → IsPaired u w
IsPaired-trans p q = record {
  previous_left = q.previous_left ∙ p.previous_left;
  current_left = q.current_left ∙ p.current_left;
  same_added = q.same_added ∙ p.same_added;
  same_removed = q.same_removed ∙ p.same_removed;
  same_moved = q.same_moved ∙ p.same_moved;
}

module _ (n : ℕ) (current : List Chunk) where
  abbrev InRanges : Unmatched → Type 0
  InRanges u = InRange n u.unmatched_previous × InRange (length current) u.unmatched_current

  modify-IsPaired :
      (p : ℤ) (u : Unmatched)
      → InRanges u
      → let v = modify current p u (find u.unmatched_previous p) (find u.unmatched_current p) in
        IsPaired u v × InRanges v
  modify-IsPaired p u r = elim (Option-cases (find u.unmatched_previous p)) [
    | inl e ↦ rw e (IsPaired-refl u, r)
    | inr (i, e) ↦ elim (Option-cases (find u.unmatched_current p)) [
      | inl f ↦ rw (e, f) (IsPaired-refl u, r)
      | inr (j, f) ↦
          let (c, g) =
            get_elem?-inside current j
              (InRange-find (length current) u.unmatched_current p r.1 f) in
          let lp = length-delete u.unmatched_previous p {i = i} e in
          let lc = length-delete u.unmatched_current p {i = j} f in
          let change = change_of modified c p (pos 0) in
          rw (e, f, g)
            (
              record {
                previous_left = omega (arith, count-snoc modified u.changes change, lp);
                current_left = omega (arith, count-snoc modified u.changes change, lc);
                same_added = omega (arith, count-snoc added u.changes change);
                same_removed = omega (arith, count-snoc removed u.changes change);
                same_moved = omega (arith, count-snoc moved u.changes change);
              },
              (
                InRange-delete n u.unmatched_previous p r.0,
                InRange-delete (length current) u.unmatched_current p r.1,
              ),
            )
    ]
  ]

  pub pair_up-IsPaired :
      (ps : List ℤ) (u : Unmatched)
      → InRanges u
      → IsPaired u (pair_up current ps u) × InRanges (pair_up current ps u)
  unfolding pair_up
  pair_up-IsPaired [] u r = (IsPaired-refl u, r)
  pair_up-IsPaired (p ∷ ps) u r =
      let (one, r') = modify-IsPaired p u r in
      let (rest, r'') =
        pair_up-IsPaired ps
          (modify current p u (find u.unmatched_previous p) (find u.unmatched_current p)) r' in
      (IsPaired-trans one rest, r'')

-- the last loops report one change of their kind for each position
pub count-report :
    (k kind : Kind) (chunks : List Chunk) (m : Positions) (ps : List ℤ)
    → Found (length chunks) m ps
    → count k (report kind chunks m ps) ≡ (if kind_rank kind == kind_rank k then length ps else 0)
unfolding report count
count-report k kind chunks m [] h = ground arith
count-report k kind chunks m (p ∷ ps) h =
    let (i, f, l) = h.0 in
    let (c, g) = get_elem?-inside chunks i l in
    rw (f, g) (ground (arith, count-report k kind chunks m ps h.1))
