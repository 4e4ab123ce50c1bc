-- ===== src/Diff/Compare/Accounting.antt =====
-- The changes of a result are true of the versions, and every block has at most one; with the
-- unchanged blocks they add up to the lengths.
use ai_etl_platform.Common.{
  ℕ, ◌+◌, ◌*◌, ◌≤◌, ◌≡◌, refl, subst, subst₂, ◌↔◌, ◌∙◌, none, List, [], ◌∷◌, ◌++◌, map, ◌==◌,
  if◌then◌else◌, length, All, arith, ok,
}
use ai_etl_platform.Diff.Subsequence.{lcs_pairs}
use ai_etl_platform.Diff.Subsequence.Longest.{done, lcs_pairs-longest}
use ai_etl_platform.Diff.Compare.{
  Chunk, Kind, added, removed, modified, moved, Result, hash, none_aligned, align, find,
  positions_by_index, sorted_positions, Unmatched, pair_up, report, kind_rank, sort_changes,
  compare_sorted, compare_versions, sorted_by_index, max_alignment_area,
}
use ai_etl_platform.Diff.Compare.Positions.{
  IsDistinct, validate_iff, AllComplete, sorted_by_index-IsDistinct, length-sorted_by_index, falses,
  positions_from_lem, sorted_positions_lem,
}
use ai_etl_platform.Diff.Compare.Alignment.{
  count, count-append, count-sort_changes, align-IsAligned,
}
use ai_etl_platform.Diff.Compare.Sources.{IsTrue, IsTrue-sorted_by_index}
use ai_etl_platform.Diff.Compare.Pairing.{pair_up-IsPaired, count-report}
use ai_etl_platform.Diff.Compare.Reports.{
  IsSingle, length-hashes, length-none_aligned, Unset-none_aligned, start, compare_sorted-IsTrue,
  compare_sorted-IsSingle,
}

-- what the changes and the unchanged blocks of a result add up to
pub record IsBalanced (n m : ℕ) (r : Result) : Type 0 where
  pub previous_total :
      r.unchanged + count moved r.changes + count modified r.changes + count removed r.changes ≡ n
  pub current_total :
      r.unchanged + count moved r.changes + count modified r.changes + count added r.changes ≡ m

falses-none_aligned : (cs : List Chunk) → falses (none_aligned cs) ≡ length cs
falses-none_aligned [] = refl
falses-none_aligned (c ∷ cs) = omega (arith, falses-none_aligned cs)

Absent-empty : (cs : List Chunk) → All (λ c. find [] c.index ≡ none) cs
unfolding find
Absent-empty [] = tt
Absent-empty (c ∷ cs) = (refl, Absent-empty cs)

module _ (previous current : List Chunk) (dp : IsDistinct previous) (dc : IsDistinct current) where
  compare_sorted-IsBalanced :
      IsBalanced (length previous) (length current) (compare_sorted previous current)
  unfolding compare_sorted positions_by_index count
  compare_sorted-IsBalanced =
      let begin = start previous current dp dc in
      let ps = map hash previous in
      let cs = map hash current in
      let a = align previous current (lcs_pairs ps cs) begin in
      let al =
        align-IsAligned previous current {i = 0} {j = 0} begin (lcs_pairs-longest ps cs [] done).0
          (omega (arith, length-hashes previous)) (omega (arith, length-hashes current))
          (length-none_aligned previous) (length-none_aligned current) (Unset-none_aligned previous)
          (Unset-none_aligned current) in
      let (sp, rp) =
        positions_from_lem (length previous) 0 previous a.aligned_previous [] dp
          (Absent-empty previous) (al.size_previous ∙ length-none_aligned previous) (omega arith)
          tt in
      let (sc, rc) =
        positions_from_lem (length current) 0 current a.aligned_current [] dc (Absent-empty current)
          (al.size_current ∙ length-none_aligned current) (omega arith) tt in
      let u : Unmatched = record {
        unmatched_previous = positions_by_index previous a.aligned_previous;
        unmatched_current = positions_by_index current a.aligned_current;
        changes = a.changes;
      } in
      let (paired, (vp, vc)) =
        pair_up-IsPaired (length previous) current (sorted_positions u.unmatched_current) u
          (rp, rc) in
      let v = pair_up current (sorted_positions u.unmatched_current) u in
      let (np, fp) = sorted_positions_lem (length previous) v.unmatched_previous vp in
      let (nc, fc) = sorted_positions_lem (length current) v.unmatched_current vc in
      let gone =
        report removed previous v.unmatched_previous (sorted_positions v.unmatched_previous) in
      let new = report added current v.unmatched_current (sorted_positions v.unmatched_current) in
      let total : (k : Kind)
          → count k (sort_changes ((v.changes ++ gone) ++ new))
            ≡ count k v.changes + count k gone + count k new =
        λ k. omega (
          arith,
          count-sort_changes k ((v.changes ++ gone) ++ new),
          count-append k (v.changes ++ gone) new,
          count-append k v.changes gone,
        ) in
      let gone_of : (k : Kind)
          → count k gone ≡ (
              if kind_rank removed == kind_rank k
              then length (sorted_positions v.unmatched_previous)
              else 0) =
        λ k.
          count-report k removed previous v.unmatched_previous
            (sorted_positions v.unmatched_previous) fp in
      let new_of : (k : Kind)
          → count k new ≡ (
              if kind_rank added == kind_rank k
              then length (sorted_positions v.unmatched_current)
              else 0) =
        λ k.
          count-report k added current v.unmatched_current (sorted_positions v.unmatched_current)
            fc in
      let m = al.placed in
      let unaligned = falses-none_aligned previous in
      let unaligned' = falses-none_aligned current in
      record {
        previous_total = omega (
          arith,
          total moved,
          total modified,
          total removed,
          gone_of moved,
          gone_of modified,
          gone_of removed,
          new_of moved,
          new_of modified,
          new_of removed,
          np,
          paired.previous_left,
          paired.same_moved,
          paired.same_removed,
          sp,
          m.kept,
          m.same_removed,
          m.same_modified,
          al.fewer_previous,
          unaligned,
        );
        current_total = omega (
          arith,
          total moved,
          total modified,
          total added,
          gone_of moved,
          gone_of modified,
          gone_of added,
          new_of moved,
          new_of modified,
          new_of added,
          nc,
          paired.current_left,
          paired.same_moved,
          paired.same_added,
          sc,
          m.kept,
          m.same_added,
          m.same_modified,
          al.fewer_current,
          unaligned',
        );
      }

-- `Compare` succeeds exactly for two versions whose blocks are complete and stand at distinct
-- positions that are not negative, if the product of their lengths is at most four million.
pub compare_versions-ok_iff :
    (previous current : List Chunk)
    → ((r : Result) × (compare_versions previous current ≡ ok r)) ↔ (
        (AllComplete previous × IsDistinct previous)
        × (AllComplete current × IsDistinct current)
        × (length previous * length current ≤ max_alignment_area))
unfolding compare_versions
compare_versions-ok_iff previous current =
    let p = validate_iff "previous" previous in
    let c = validate_iff "current" current in
    (
      λ (r, h). (p.0 (ground (arith, h)), c.0 (ground (arith, h)), ground (arith, h)),
      λ (hp, hc, small).
          let vp = p.1 hp in
          let vc = c.1 hc in
          (
            compare_sorted (sorted_by_index previous) (sorted_by_index current),
            ground (arith, vp, vc, small),
          ),
    )

-- A result accounts for the blocks of both versions. Its changes are true of them: each names a block
-- by its identity, content and position, a removed one in the older version and any other in the
-- newer one; a modified one stands where the older version has a block, a moved one elsewhere than a
-- block of the same content in the older version. No two changes are about one block of the older
-- version (moved from its position, modified there or removed), nor about one of the newer version
-- (moved to its position, modified there or added). And the number of unchanged blocks makes up the
-- rest: with the moved, modified and removed ones it is the length of the older version, with the
-- moved, modified and added ones that of the newer one.
pub compare_versions-IsBalanced :
    (previous current : List Chunk) {r : Result}
    → compare_versions previous current ≡ ok r
    → All (IsTrue previous current) r.changes
      × IsSingle r
      × IsBalanced (length previous) (length current) r
compare_versions-IsBalanced previous current {r} h =
    let sp = sorted_by_index previous in
    let sc = sorted_by_index current in
    let q = (compare_versions-ok_iff previous current).0 (r, h) in
    let dp = sorted_by_index-IsDistinct previous q.0.1 in
    let dc = sorted_by_index-IsDistinct current q.1.1 in
    let same : compare_sorted sp sc ≡ r = unfold compare_versions in ground (arith, h) in
    (
      IsTrue-sorted_by_index previous current r.changes
          (subst (λ s. All (IsTrue sp sc) s.changes) same (compare_sorted-IsTrue sp sc dp dc)),
      subst IsSingle same (compare_sorted-IsSingle sp sc dp dc),
      subst₂ (λ n m. IsBalanced n m r) (length-sorted_by_index previous)
          (length-sorted_by_index current)
          (subst (IsBalanced (length sp) (length sc)) same (compare_sorted-IsBalanced sp sc dp dc)),
    )
