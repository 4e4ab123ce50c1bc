-- ===== src/Diff/Subsequence.antt =====
-- internal/versiondiff/diff.go: `lcsPairs`, the alignment of two versions on content hashes.
pub mod Longest
use ai_etl_platform.Common.{
  ℕ, zero, suc, ◌+◌, String, str_eq, List, [], ◌∷◌, Bool, true, false, leb, if◌then◌else◌, length,
}

-- `row[j]`; the source never reads past the end
abbrev pub at : List ℕ → ℕ → ℕ
at [] j = 0
at (n ∷ ns) zero = n
at (n ∷ ns) (suc j) = at ns j

abbrev pub tail : List ℕ → List ℕ
tail [] = []
tail (n ∷ ns) = ns

abbrev pub first_row : List (List ℕ) → List ℕ
first_row [] = []
first_row (row ∷ rows) = row

abbrev pub zeros : List String → List ℕ
zeros [] = 0 ∷ []
zeros (c ∷ cs) = 0 ∷ zeros cs

-- the inner loop, from the last column to the first: a row from the row below it
unfoldable pub fill_row : String → List String → List ℕ → List ℕ
fill_row p [] below = 0 ∷ []
fill_row p (c ∷ cs) below =
    let row = fill_row p cs (tail below) in
    (if str_eq p c
      then at below 1 + 1
      else if leb (at row 0) (at below 0)
      then at below 0
      else at row 0)
    ∷ row

-- the outer loop, from the last row to the first
unfoldable pub lengths : List String → List String → List (List ℕ)
unfolding fill_row
lengths [] cs = zeros cs ∷ []
lengths (p ∷ ps) cs = let below = lengths ps cs in fill_row p cs (first_row below) ∷ below

-- how the walk goes on
pub data Move : Type 0 where
  both previous current : Move

abbrev pub next_move : Bool → ℕ → ℕ → Move
next_move same skip_previous skip_current =
    if same then both else if leb skip_current skip_previous then previous else current

-- the walk from (i, j), where `ps`, `cs` and the rows are what is left from there; it takes at most
-- one step for each block of the two versions
unfoldable pub walk : ℕ → ℕ → List String → List (List ℕ) → ℕ → List String → List (ℕ × ℕ)
walk (suc n) i (p ∷ ps) (row ∷ below) j (c ∷ cs) =
    elim (next_move (str_eq p c) (at (first_row below) j) (at row (suc j))) [
      | both ↦ (i, j) ∷ walk n (suc i) ps below (suc j) cs
      | previous ↦ walk n (suc i) ps below j (c ∷ cs)
      | current ↦ walk n i (p ∷ ps) (row ∷ below) (suc j) cs
    ]
walk _ i _ _ j _ = []

unfoldable pub lcs_pairs : List String → List String → List (ℕ × ℕ)
lcs_pairs ps cs = walk (length ps + length cs) 0 ps (lengths ps cs) 0 cs
