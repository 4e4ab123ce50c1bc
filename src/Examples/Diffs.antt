-- ===== src/Examples/Diffs.antt =====
-- Two versions of a document.
use ai_etl_platform.Common.{ℕ, ◌≡◌, ◌≤◌, refl, String, List, [], ◌∷◌, pos, length, arith, ok}
use ai_etl_platform.Diff.Subsequence.{lcs_pairs}
use ai_etl_platform.Diff.Subsequence.Longest.{IsMatching, lcs_pairs-longest}
use ai_etl_platform.Diff.Compare.{
  Chunk, Kind, moved, modified, removed, Change, Result, compare_versions,
}
use ai_etl_platform.Diff.Compare.Sources.{IsTrue}
use ai_etl_platform.Diff.Compare.Reports.{IsSingle}
use ai_etl_platform.Common.{All}
use ai_etl_platform.Diff.Compare.Accounting.{
  IsBalanced, compare_versions-ok_iff, compare_versions-IsBalanced,
}

abbrev before : List String
before = "a" ∷ "b" ∷ "c" ∷ []

abbrev after : List String
after = "b" ∷ "x" ∷ "c" ∷ []

lcs_pairs_run : lcs_pairs before after ≡ (1, 0) ∷ (2, 2) ∷ []
unfolding lcs_pairs ai_etl_platform.Diff.Subsequence.walk ai_etl_platform.Diff.Subsequence.lengths
lcs_pairs_run = refl

lcs_pairs-longest_example :
    IsMatching 0 0 before after (lcs_pairs before after) × (1 ≤ length (lcs_pairs before after))
lcs_pairs-longest_example =
    lcs_pairs-longest before after ((1, 0) ∷ [])
      (IsMatching.skip_previous (IsMatching.pair refl IsMatching.done))

abbrev block : String → ℕ → String → Chunk
block id position hash = record { chunk_id = id; index = pos position; content_hash = hash }

-- the first block is dropped, the second moves up, and one is changed
abbrev old_version : List Chunk
old_version = block "p3" 2 "c" ∷ block "p1" 0 "a" ∷ block "p2" 1 "b" ∷ []

abbrev new_version : List Chunk
new_version = block "c1" 0 "b" ∷ block "c2" 2 "d" ∷ []

abbrev result : Result
result = record {
  previous_chunks = 3;
  current_chunks = 2;
  unchanged = 0;
  changes =
      record {
        kind = moved;
        chunk_id = "c1";
        content_hash = "b";
        index = pos 0;
        previous_index = pos 1;
      }
      ∷ record {
        kind = removed;
        chunk_id = "p1";
        content_hash = "a";
        index = pos 0;
        previous_index = pos 0;
      }
      ∷ record {
        kind = modified;
        chunk_id = "c2";
        content_hash = "d";
        index = pos 2;
        previous_index = pos 0;
      }
      ∷ [];
}

compare_versions_run : compare_versions old_version new_version ≡ ok result
unfolding compare_versions ai_etl_platform.Diff.Compare.compare_sorted
    ai_etl_platform.Diff.Compare.sorted_by_index lcs_pairs ai_etl_platform.Diff.Subsequence.walk
    ai_etl_platform.Diff.Subsequence.lengths ai_etl_platform.Diff.Compare.delete
compare_versions_run = refl

compare_versions_example : (r : Result) × (compare_versions old_version new_version ≡ ok r)
compare_versions_example = (compare_versions-ok_iff old_version new_version).1 (
  ((refl, (refl, (refl, tt))), (refl, (refl, (refl, tt)))),
  ((refl, (refl, tt)), (refl, (refl, tt))),
  omega arith,
)

compare_versions-IsBalanced_example :
    All (IsTrue old_version new_version) compare_versions_example.0.changes
    × IsSingle compare_versions_example.0
    × IsBalanced 3 2 compare_versions_example.0
compare_versions-IsBalanced_example =
    compare_versions-IsBalanced old_version new_version {r = compare_versions_example.0}
      compare_versions_example.1
