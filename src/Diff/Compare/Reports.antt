-- ===== src/Diff/Compare/Reports.antt =====
-- What `Compare` reports is true, and it reports no block twice.
use ai_etl_platform.Common.{
  ℕ, zero, suc, ◌+◌, ◌≤◌, ◌≡◌, refl, ap, List, [], ◌∷◌, ◌++◌, ℤ, map, length, All, All-append,
  arith,
}
use ai_etl_platform.Diff.Subsequence.{lcs_pairs}
use ai_etl_platform.Diff.Subsequence.Longest.{done, lcs_pairs-longest}
use ai_etl_platform.Diff.Compare.{
  Chunk, added, removed, Change, Result, hash, none_aligned, Aligned, align, positions_by_index,
  sorted_positions, Unmatched, pair_up, report, sort_changes, compare_sorted,
}
use ai_etl_platform.Diff.Compare.Positions.{IsDistinct}
use ai_etl_platform.Diff.Compare.Alignment.{Unset}
use ai_etl_platform.Diff.Compare.Sources.{
  IsTrue, From-start, IsMatching-Agree, positions_from-Points, align-IsTrue, IsSound,
  pair_up-IsSound, removed-IsTrue, added-IsTrue, All-sort_changes,
}
use ai_etl_platform.Diff.Compare.Once.{
  previous_at, current_at, tally, tally-append, tally-sort_changes, keys-positions_from,
  listed-sorted_positions, one_block,
}
use ai_etl_platform.Diff.Compare.Single.{
  align-Fewer, pair_up-Left, tally-report, tally-report_other,
}

-- at most one change is about the block that either version has at a position
abbrev pub IsSingle : Result → Type 0
IsSingle r = (p : ℤ) → (tally (previous_at p) r.changes ≤ 1) × (tally (current_at p) r.changes ≤ 1)

pub length-hashes : (cs : List Chunk) → length (map hash cs) ≡ length cs
length-hashes [] = refl
length-hashes (c ∷ cs) = ap suc (length-hashes cs)

pub length-none_aligned : (cs : List Chunk) → length (none_aligned cs) ≡ length cs
length-none_aligned [] = refl
length-none_aligned (c ∷ cs) = ap suc (length-none_aligned cs)

pub Unset-none_aligned : (cs : List Chunk) → Unset 0 (none_aligned cs)
Unset-none_aligned [] k l r = absurd (omega (arith, r))
Unset-none_aligned (c ∷ cs) zero l r = refl
Unset-none_aligned (c ∷ cs) (suc k) l r = Unset-none_aligned cs k (omega arith) (omega (arith, r))

module _ (previous current : List Chunk) (dp : IsDistinct previous) (dc : IsDistinct current) where
  abbrev pub start : Aligned
  start = record {
    aligned_previous = none_aligned previous;
    aligned_current = none_aligned current;
    unchanged = 0;
    changes = [];
  }

  -- the variables of the second loop when it starts
  abbrev unpaired : Unmatched
  unpaired =
      let a = align previous current (lcs_pairs (map hash previous) (map hash current)) start in
      record {
        unmatched_previous = positions_by_index previous a.aligned_previous;
        unmatched_current = positions_by_index current a.aligned_current;
        changes = a.changes;
      }

  unpaired-IsSound :
      IsSound previous current
        (pair_up current (sorted_positions unpaired.unmatched_current) unpaired)
  unfolding positions_by_index
  unpaired-IsSound =
      let ps = map hash previous in
      let cs = map hash current in
      let a = align previous current (lcs_pairs ps cs) start in
      pair_up-IsSound previous current (sorted_positions unpaired.unmatched_current) unpaired (
        positions_from-Points previous 0 previous a.aligned_previous [] (From-start previous) tt,
        positions_from-Points current 0 current a.aligned_current [] (From-start current) tt,
        align-IsTrue previous current (lcs_pairs ps cs) start
            (IsMatching-Agree ps cs (lcs_pairs-longest ps cs [] done).0 (From-start ps)
              (From-start cs))
            tt,
      )

  pub compare_sorted-IsTrue :
      All (IsTrue previous current) (compare_sorted previous current).changes
  unfolding compare_sorted
  compare_sorted-IsTrue =
      let v = pair_up current (sorted_positions unpaired.unmatched_current) unpaired in
      let gone =
        report removed previous v.unmatched_previous (sorted_positions v.unmatched_previous) in
      let new = report added current v.unmatched_current (sorted_positions v.unmatched_current) in
      All-sort_changes (IsTrue previous current) ((v.changes ++ gone) ++ new) (
        All-append (IsTrue previous current) (v.changes ++ gone) new
          (All-append (IsTrue previous current) v.changes gone unpaired-IsSound.2 (
            removed-IsTrue previous current v.unmatched_previous
              (sorted_positions v.unmatched_previous)))
          (added-IsTrue previous current v.unmatched_current
            (sorted_positions v.unmatched_current)))

  pub compare_sorted-IsSingle : IsSingle (compare_sorted previous current)
  unfolding compare_sorted positions_by_index tally
  compare_sorted-IsSingle p =
      let ps = map hash previous in
      let cs = map hash current in
      let a = align previous current (lcs_pairs ps cs) start in
      let u = unpaired in
      let fewer =
        align-Fewer p previous current {i = 0} {j = 0} start (lcs_pairs-longest ps cs [] done).0
          (omega (arith, length-hashes previous)) (omega (arith, length-hashes current))
          (length-none_aligned previous) (length-none_aligned current) (Unset-none_aligned previous)
          (Unset-none_aligned current) in
      let (gone_points, new_points, _) = unpaired-IsSound in
      let left = pair_up-Left p previous current (sorted_positions u.unmatched_current) u in
      let v = pair_up current (sorted_positions u.unmatched_current) u in
      let gone_at = sorted_positions v.unmatched_previous in
      let new_at = sorted_positions v.unmatched_current in
      let gone = report removed previous v.unmatched_previous gone_at in
      let new = report added current v.unmatched_current new_at in
      let total : (w : Change → ℕ)
          → tally w (sort_changes ((v.changes ++ gone) ++ new))
            ≡ tally w v.changes + tally w gone + tally w new =
        λ w. omega (
          arith,
          tally-sort_changes w ((v.changes ++ gone) ++ new),
          tally-append w (v.changes ++ gone) new,
          tally-append w v.changes gone,
        ) in
      (
        omega (
          arith,
          total (previous_at p),
          tally-report p (previous_at p) removed previous v.unmatched_previous gone_at
              (λ c. omega arith) gone_points,
          tally-report_other (previous_at p) added current v.unmatched_current new_at (λ c. refl),
          listed-sorted_positions p v.unmatched_previous,
          left.0,
          keys-positions_from p 0 previous a.aligned_previous [],
          fewer.0,
          one_block p previous dp,
        ),
        omega (
          arith,
          total (current_at p),
          tally-report p (current_at p) added current v.unmatched_current new_at (λ c. omega arith)
              new_points,
          tally-report_other (current_at p) removed previous v.unmatched_previous gone_at
              (λ c. refl),
          listed-sorted_positions p v.unmatched_current,
          left.1,
          keys-positions_from p 0 current a.aligned_current [],
          fewer.1,
          one_block p current dc,
        ),
      )
