-- ===== src/Diff/Compare/Single.antt =====
-- No loop of `Compare` reports a block that another change is about.
use ai_etl_platform.Common.{
  ℕ, suc, ◌+◌, ◌≤◌, ◌≡◌, refl, sym, ap, subst, ◌∙◌, ℤ, pos, int_eq, String, Option-cases, List, [],
  ◌∷◌, Bool-cases, length, get_elem?, arith, inl, inr,
}
use ai_etl_platform.Diff.Subsequence.Longest.{IsMatching, done, skip_previous, skip_current, pair}
use ai_etl_platform.Diff.Compare.{
  Chunk, Kind, modified, moved, Change, change_of, Aligned, mark, place, place_at, align, Positions,
  find, Unmatched, modify, pair_up, report,
}
use ai_etl_platform.Diff.Compare.Alignment.{
  Unset, Unset-mark, length-mark, flags-place, get_elem?-inside,
}
use ai_etl_platform.Diff.Compare.Sources.{Points, Points-find}
use ai_etl_platform.Diff.Compare.Once.{
  one_at, current_at, previous_at, tally, tally-snoc, keys, listed, open_blocks, keys-delete,
  open_blocks-mark,
}

module _ (p : ℤ) (previous current : List Chunk) where
  -- the first loop reports a block only where it marks it
  abbrev Fewer : Aligned → Aligned → Type 0
  Fewer a b =
      (tally (previous_at p) b.changes + open_blocks p previous b.aligned_previous
        ≤ tally (previous_at p) a.changes + open_blocks p previous a.aligned_previous)
      × (tally (current_at p) b.changes + open_blocks p current b.aligned_current
          ≤ tally (current_at p) a.changes + open_blocks p current a.aligned_current)

  tally-place :
      (a : Aligned) (old new : Chunk)
      → (tally (previous_at p) (place a old new).changes
          ≤ tally (previous_at p) a.changes + one_at p old.index)
        × (tally (current_at p) (place a old new).changes
            ≤ tally (current_at p) a.changes + one_at p new.index)
  tally-place a old new = elim (Bool-cases (int_eq old.index new.index)) [
    | inl e ↦ rw e (omega arith, omega arith)
    | inr e ↦
        let change = change_of moved new new.index old.index in
        rw e (
          omega (arith, tally-snoc (previous_at p) a.changes change),
          omega (arith, tally-snoc (current_at p) a.changes change),
        )
  ]

  pub align-Fewer :
      {i j : ℕ} {ps cs : List String} {pairs : List (ℕ × ℕ)} (a : Aligned)
      → IsMatching i j ps cs pairs
      → i + length ps ≡ length previous
      → j + length cs ≡ length current
      → length a.aligned_previous ≡ length previous
      → length a.aligned_current ≡ length current
      → Unset i a.aligned_previous
      → Unset j a.aligned_current
      → Fewer a (align previous current pairs a)
  unfolding align
  align-Fewer a done hp hc lp lc up uc = (omega arith, omega arith)
  align-Fewer a (skip_previous m) hp hc lp lc up uc =
      align-Fewer a m (omega (arith, hp)) hc lp lc (λ k l r. up k (omega arith) r) uc
  align-Fewer a (skip_current m) hp hc lp lc up uc =
      align-Fewer a m hp (omega (arith, hc)) lp lc up (λ k l r. uc k (omega arith) r)
  align-Fewer a (pair {i} {j} {pairs} e m) hp hc lp lc up uc =
      let marked : Aligned = record a {
        aligned_previous = mark i a.aligned_previous;
        aligned_current = mark j a.aligned_current;
      } in
      let (old, o) = get_elem?-inside previous i (omega (arith, hp)) in
      let (new, n) = get_elem?-inside current j (omega (arith, hc)) in
      let next = place marked old new in
      let (fp, fc) = flags-place marked old new in
      let ih =
        align-Fewer next m (omega (arith, hp)) (omega (arith, hc))
          (ap length fp ∙ length-mark i a.aligned_previous ∙ lp)
          (ap length fc ∙ length-mark j a.aligned_current ∙ lc)
          (subst (Unset (suc i)) (sym fp) (Unset-mark i a.aligned_previous up))
          (subst (Unset (suc j)) (sym fc) (Unset-mark j a.aligned_current uc)) in
      let one = tally-place marked old new in
      let mp =
        open_blocks-mark p i previous a.aligned_previous {c = old}
          (up i (omega arith) (omega (arith, hp, lp))) o in
      let mc =
        open_blocks-mark p j current a.aligned_current {c = new}
          (uc j (omega arith) (omega (arith, hc, lc))) n in
      let same : place_at marked (get_elem? previous i) (get_elem? current j) ≡ next =
        rw (o, n) refl in
      subst (λ x. Fewer a (align previous current pairs x)) (sym same)
        (
          omega (arith, ih.0, one.0, mp, ap (open_blocks p previous) fp),
          omega (arith, ih.1, one.1, mc, ap (open_blocks p current) fc),
        )

  -- the second loop reports a position only where it takes it from both maps
  abbrev Left : Unmatched → Unmatched → Type 0
  Left u v =
      (tally (previous_at p) v.changes + keys p v.unmatched_previous
        ≤ tally (previous_at p) u.changes + keys p u.unmatched_previous)
      × (tally (current_at p) v.changes + keys p v.unmatched_current
          ≤ tally (current_at p) u.changes + keys p u.unmatched_current)

  modify-Left :
      (q : ℤ) (u : Unmatched)
      → Left u (modify current q u (find u.unmatched_previous q) (find u.unmatched_current q))
  modify-Left q u = elim (Option-cases (find u.unmatched_previous q)) [
    | inl e ↦ rw e (omega arith, omega arith)
    | inr (i, e) ↦ elim (Option-cases (find u.unmatched_current q)) [
      | inl f ↦ rw (e, f) (omega arith, omega arith)
      | inr (j, f) ↦ elim (Option-cases (get_elem? current j)) [
        | inl n ↦ rw (e, f, n) (omega arith, omega arith)
        | inr (c, n) ↦
            let change = change_of modified c q (pos 0) in
            rw (e, f, n)
              (
                omega (
                  arith,
                  tally-snoc (previous_at p) u.changes change,
                  keys-delete p u.unmatched_previous q {i = i} e,
                ),
                omega (
                  arith,
                  tally-snoc (current_at p) u.changes change,
                  keys-delete p u.unmatched_current q {i = j} f,
                ),
              )
      ]
    ]
  ]

  pub pair_up-Left : (ps : List ℤ) (u : Unmatched) → Left u (pair_up current ps u)
  unfolding pair_up
  pair_up-Left [] u = (omega arith, omega arith)
  pair_up-Left (q ∷ qs) u =
      let one = modify-Left q u in
      let rest =
        pair_up-Left qs
          (modify current q u (find u.unmatched_previous q) (find u.unmatched_current q)) in
      (omega (arith, one.0, rest.0), omega (arith, one.1, rest.1))

-- The last loops report a block once for each time its position is listed.
pub tally-report :
    (p : ℤ) (w : Change → ℕ) (kind : Kind) (chunks : List Chunk) (m : Positions) (ps : List ℤ)
    → ((c : Chunk) → w (change_of kind c c.index (pos 0)) ≤ one_at p c.index)
    → Points chunks m
    → tally w (report kind chunks m ps) ≤ listed p ps
unfolding report tally
tally-report p w kind chunks m [] h s = omega arith
tally-report p w kind chunks m (q ∷ qs) h s =
    let rest = tally-report p w kind chunks m qs h s in
    elim (Option-cases (find m q)) [
      | inl e ↦ rw e (omega (arith, rest))
      | inr (i, e) ↦
          let (c, n, at) = Points-find chunks m q s e in
          let same : one_at p c.index ≡ one_at p q = ap (one_at p) at in
          rw (e, n) (omega (arith, rest, h c, same))
    ]

pub tally-report_other :
    (w : Change → ℕ) (kind : Kind) (chunks : List Chunk) (m : Positions) (ps : List ℤ)
    → ((c : Chunk) → w (change_of kind c c.index (pos 0)) ≡ 0)
    → tally w (report kind chunks m ps) ≡ 0
unfolding report tally
tally-report_other w kind chunks m [] h = refl
tally-report_other w kind chunks m (q ∷ qs) h =
    let rest = tally-report_other w kind chunks m qs h in
    elim (Option-cases (find m q)) [
      | inl e ↦ rw e rest
      | inr (i, e) ↦ elim (Option-cases (get_elem? chunks i)) [
        | inl n ↦ rw (e, n) rest
        | inr (c, n) ↦ rw (e, n) (omega (arith, rest, h c))
      ]
    ]
