-- ===== src/Diff/Subsequence/Longest.antt =====
-- The pairs are a common subsequence, and no common subsequence is longer.
use ai_etl_platform.Common.{
  ℕ, zero, suc, ◌+◌, ◌≤◌, ◌≡◌, refl, sym, ap, subst, ◌∙◌, String, str_eq, eq_iff, List, [], ◌∷◌,
  true, false, leb, if◌then◌else◌, length, arith, inl, inr, Bool-cases,
}
use ai_etl_platform.Diff.Subsequence.{
  at, tail, first_row, zeros, fill_row, lengths, walk, lcs_pairs,
}

-- Pairs of offsets, from `i` and `j` on and increasing on both sides, at which the hashes agree.
pub data IsMatching : ℕ → ℕ → List String → List String → List (ℕ × ℕ) → Type 0 where
  done : {i j : ℕ} {ps cs : List String} → IsMatching i j ps cs []
  skip_previous :
      {i j : ℕ} {p : String} {ps cs : List String} {pairs : List (ℕ × ℕ)}
      → IsMatching (suc i) j ps cs pairs
      → IsMatching i j (p ∷ ps) cs pairs
  skip_current :
      {i j : ℕ} {c : String} {ps cs : List String} {pairs : List (ℕ × ℕ)}
      → IsMatching i (suc j) ps cs pairs
      → IsMatching i j ps (c ∷ cs) pairs
  pair :
      {i j : ℕ} {p c : String} {ps cs : List String} {pairs : List (ℕ × ℕ)}
      → p ≡ c
      → IsMatching (suc i) (suc j) ps cs pairs
      → IsMatching i j (p ∷ ps) (c ∷ cs) ((i, j) ∷ pairs)

-- the length of a longest common subsequence, by recursion
unfoldable pub lcs : List String → List String → ℕ
lcs [] cs = 0
lcs (p ∷ ps) [] = 0
lcs (p ∷ ps) (c ∷ cs) =
    if str_eq p c
    then lcs ps cs + 1
    else if leb (lcs (p ∷ ps) cs) (lcs ps (c ∷ cs))
    then lcs ps (c ∷ cs)
    else lcs (p ∷ ps) cs

lcs-nil : (ps : List String) → lcs ps [] ≡ 0
unfolding lcs
lcs-nil [] = refl
lcs-nil (p ∷ ps) = refl

-- one more element on a side adds at most one to the length, and never takes one away
lcs_bounds :
    (ps cs : List String) (s : String)
    → (lcs ps cs ≤ lcs (s ∷ ps) cs)
      × (lcs (s ∷ ps) cs ≤ lcs ps cs + 1)
      × (lcs ps cs ≤ lcs ps (s ∷ cs))
      × (lcs ps (s ∷ cs) ≤ lcs ps cs + 1)
unfolding lcs
lcs_bounds [] [] s = ground arith
lcs_bounds [] (c ∷ cs) s = let q = lcs_bounds [] cs s in ground (arith, q)
lcs_bounds (p ∷ ps) [] s = let q = lcs_bounds ps [] s in ground (arith, q, lcs-nil ps)
lcs_bounds (p ∷ ps) (c ∷ cs) s =
    let a = lcs_bounds (p ∷ ps) cs s in
    let a' = lcs_bounds (p ∷ ps) cs c in
    let b = lcs_bounds ps (c ∷ cs) s in
    let b' = lcs_bounds ps (c ∷ cs) p in ground (arith, a, a', b, b')

-- no matching has more pairs than `lcs`
length-matching :
    {i j : ℕ} {ps cs : List String} {pairs : List (ℕ × ℕ)}
    → IsMatching i j ps cs pairs
    → length pairs ≤ lcs ps cs
unfolding lcs
length-matching done = omega arith
length-matching (skip_previous {p} {ps} {cs} m) =
    omega (arith, length-matching m, (lcs_bounds ps cs p).0)
length-matching (skip_current {c} {ps} {cs} m) =
    omega (arith, length-matching m, (lcs_bounds ps cs c).2)
length-matching (pair {p} {c} {ps} {cs} e m) = ground (arith, eq_iff p c, length-matching m, e)

-- what is left from an offset on
abbrev drop : ℕ → List String → List String
drop zero cs = cs
drop (suc k) [] = []
drop (suc k) (c ∷ cs) = drop k cs

at-tail : (row : List ℕ) (k : ℕ) → at (tail row) k ≡ at row (suc k)
at-tail [] k = refl
at-tail (n ∷ ns) k = refl

at-zeros : (cs : List String) (k : ℕ) → at (zeros cs) k ≡ 0
at-zeros [] zero = refl
at-zeros [] (suc k) = refl
at-zeros (c ∷ cs) zero = refl
at-zeros (c ∷ cs) (suc k) = at-zeros cs k

-- a row that holds the lengths from its offsets on
abbrev Holds : List ℕ → List String → List String → Type 0
Holds row ps cs = (k : ℕ) → at row k ≡ lcs ps (drop k cs)

fill_row-Holds :
    (p : String) (ps cs : List String) (below : List ℕ)
    → Holds below ps cs
    → Holds (fill_row p cs below) (p ∷ ps) cs
unfolding fill_row lcs
fill_row-Holds p ps [] below h zero = refl
fill_row-Holds p ps [] below h (suc k) = refl
fill_row-Holds p ps (c ∷ cs) below h k =
    let ih = fill_row-Holds p ps cs (tail below) (λ k. at-tail below k ∙ h (suc k)) in cell k ih
  where
    cell :
        (k : ℕ)
        → Holds (fill_row p cs (tail below)) (p ∷ ps) cs
        → at (fill_row p (c ∷ cs) below) k ≡ lcs (p ∷ ps) (drop k (c ∷ cs))
    cell zero ih = ground (arith, h 0, h 1, ih 0)
    cell (suc k) ih = ih k

lengths-Holds : (ps cs : List String) → Holds (first_row (lengths ps cs)) ps cs
unfolding lengths lcs
lengths-Holds [] cs k = at-zeros cs k
lengths-Holds (p ∷ ps) cs k =
    fill_row-Holds p ps cs (first_row (lengths ps cs)) (lengths-Holds ps cs) k

drop_next :
    (j : ℕ) (cs : List String) {c : String} {rest : List String}
    → drop j cs ≡ c ∷ rest
    → drop (suc j) cs ≡ rest
drop_next zero [] h = absurd (cc h)
drop_next zero (x ∷ cs) h = ground (arith, h)
drop_next (suc j) [] h = absurd (cc h)
drop_next (suc j) (x ∷ cs) h = drop_next j cs h

-- one step of the walk
module _ (n i : ℕ) (p : String) (ps : List String) (row : List ℕ) (below : List (List ℕ)) (j : ℕ)
    (c : String) (cs : List String) where
  abbrev step : List (ℕ × ℕ)
  step = walk (suc n) i (p ∷ ps) (row ∷ below) j (c ∷ cs)

  walk-both : str_eq p c ≡ true → step ≡ (i, j) ∷ walk n (suc i) ps below (suc j) cs
  unfolding walk
  walk-both q = ground (arith, q)

  walk-previous :
      str_eq p c ≡ false
      → leb (at row (suc j)) (at (first_row below) j) ≡ true
      → step ≡ walk n (suc i) ps below j (c ∷ cs)
  unfolding walk
  walk-previous q t = ground (arith, q, t)

  walk-current :
      str_eq p c ≡ false
      → leb (at row (suc j)) (at (first_row below) j) ≡ false
      → step ≡ walk n i (p ∷ ps) (row ∷ below) (suc j) cs
  unfolding walk
  walk-current q t = ground (arith, q, t)

-- a walk gives a matching as long as `lcs`
abbrev IsLongest : ℕ → ℕ → List String → List String → List (ℕ × ℕ) → Type 0
IsLongest i j ps cs pairs = IsMatching i j ps cs pairs × (length pairs ≡ lcs ps cs)

walk-IsLongest :
    (n i : ℕ) (ps : List String) (j : ℕ) (all cs : List String)
    → drop j all ≡ cs
    → length ps + length cs ≤ n
    → IsLongest i j ps cs (walk n i ps (lengths ps all) j cs)
unfolding walk lengths lcs
walk-IsLongest zero i [] j all cs e h = (done, refl)
walk-IsLongest zero i (p ∷ ps) j all cs e h = absurd (omega (arith, h))
walk-IsLongest (suc n) i [] j all cs e h = (done, refl)
walk-IsLongest (suc n) i (p ∷ ps) j all [] e h = (done, refl)
walk-IsLongest (suc n) i (p ∷ ps) j all (c ∷ cs) e h =
    let x : at (first_row (lengths ps all)) j ≡ lcs ps (c ∷ cs) =
      lengths-Holds ps all j ∙ ap (lcs ps) e in
    let y : at (first_row (lengths (p ∷ ps) all)) (suc j) ≡ lcs (p ∷ ps) cs =
      lengths-Holds (p ∷ ps) all (suc j) ∙ ap (lcs (p ∷ ps)) (drop_next j all e) in
    let below = lengths ps all in
    let row = fill_row p all (first_row below) in
    elim (Bool-cases (str_eq p c)) [
      | inl q ↦
          let (m, l) =
            walk-IsLongest n (suc i) ps (suc j) all cs (drop_next j all e) (omega (arith, h)) in
          subst (IsLongest i j (p ∷ ps) (c ∷ cs)) (sym (walk-both n i p ps row below j c cs q))
            (pair ((eq_iff p c).0 q) m, ground (arith, l, q))
      | inr q ↦ elim (Bool-cases (leb (at row (suc j)) (at (first_row below) j))) [
        | inl t ↦
            let (m, l) = walk-IsLongest n (suc i) ps j all (c ∷ cs) e (omega (arith, h)) in
            subst (IsLongest i j (p ∷ ps) (c ∷ cs))
              (sym (walk-previous n i p ps row below j c cs q t))
              (skip_previous m, ground (arith, l, q, t, x, y))
        | inr t ↦
            let (m, l) =
              walk-IsLongest n i (p ∷ ps) (suc j) all cs (drop_next j all e) (omega (arith, h)) in
            subst (IsLongest i j (p ∷ ps) (c ∷ cs))
              (sym (walk-current n i p ps row below j c cs q t))
              (skip_current m, ground (arith, l, q, t, x, y))
      ]
    ]

-- The pairs are offsets of equal hashes, increasing on both sides, and no other such list of pairs
-- is longer.
pub lcs_pairs-longest :
    (ps cs : List String) (others : List (ℕ × ℕ))
    → IsMatching 0 0 ps cs others
    → IsMatching 0 0 ps cs (lcs_pairs ps cs) × (length others ≤ length (lcs_pairs ps cs))
unfolding lcs_pairs
lcs_pairs-longest ps cs others m =
    let (found, l) = walk-IsLongest (length ps + length cs) 0 ps 0 cs cs refl (omega arith) in
    (found, omega (arith, l, length-matching m))
