-- ===== src/Diff/Compare/Alignment.antt =====
-- What the first loop of `Compare` in internal/versiondiff/diff.go leaves behind.
use ai_etl_platform.Common.{
  ℕ, zero, suc, ◌+◌, ◌≤◌, ◌<◌, ◌≡◌, refl, sym, ap, subst, ◌∙◌, int_eq, String, some, List, [], ◌∷◌,
  ◌++◌, Bool, false, ◌==◌, if◌then◌else◌, length, get_elem?, arith, inl, inr, Bool-cases,
}
use ai_etl_platform.Diff.Subsequence.Longest.{IsMatching, done, skip_previous, skip_current, pair}
use ai_etl_platform.Diff.Compare.{
  Chunk, Kind, added, removed, modified, moved, Change, change_of, mark, Aligned, place, align,
  kind_rank, insert_change, sort_changes,
}
use ai_etl_platform.Diff.Compare.Positions.{falses}

-- how many changes are of a kind
unfoldable pub count : Kind → List Change → ℕ
count k [] = 0
count k (c ∷ cs) = (if kind_rank c.kind == kind_rank k then 1 else 0) + count k cs

pub count-append : (k : Kind) (xs ys : List Change) → count k (xs ++ ys) ≡ count k xs + count k ys
unfolding count
count-append k [] ys = omega arith
count-append k (x ∷ xs) ys = omega (arith, count-append k xs ys)

count-insert_change :
    (k : Kind) (c : Change) (cs : List Change) → count k (insert_change c cs) ≡ count k (c ∷ cs)
unfolding count insert_change
count-insert_change k c [] = refl
count-insert_change k c (d ∷ ds) = ground (arith, count-insert_change k c ds)

pub count-sort_changes : (k : Kind) (cs : List Change) → count k (sort_changes cs) ≡ count k cs
unfolding count sort_changes
count-sort_changes k [] = refl
count-sort_changes k (c ∷ cs) =
    omega (arith, count-insert_change k c (sort_changes cs), count-sort_changes k cs)

-- the flags from `i` on are still unset
abbrev pub Unset : ℕ → List Bool → Type 0
Unset i bs = (k : ℕ) → i ≤ k → k < length bs → get_elem? bs k ≡ some false

pub length-mark : (i : ℕ) (bs : List Bool) → length (mark i bs) ≡ length bs
length-mark i [] = refl
length-mark zero (b ∷ bs) = refl
length-mark (suc i) (b ∷ bs) = ap suc (length-mark i bs)

falses-mark :
    (i : ℕ) (bs : List Bool) → get_elem? bs i ≡ some false → suc (falses (mark i bs)) ≡ falses bs
falses-mark i [] h = absurd (cc h)
falses-mark zero (b ∷ bs) h = ground (arith, h)
falses-mark (suc i) (b ∷ bs) h = omega (arith, falses-mark i bs h)

get_elem?-mark : (i k : ℕ) (bs : List Bool) → i < k → get_elem? (mark i bs) k ≡ get_elem? bs k
get_elem?-mark i k [] l = refl
get_elem?-mark zero zero (b ∷ bs) l = absurd (omega arith)
get_elem?-mark zero (suc k) (b ∷ bs) l = refl
get_elem?-mark (suc i) zero (b ∷ bs) l = absurd (omega arith)
get_elem?-mark (suc i) (suc k) (b ∷ bs) l = get_elem?-mark i k bs (omega arith)

pub Unset-mark : (i : ℕ) (bs : List Bool) → Unset i bs → Unset (suc i) (mark i bs)
Unset-mark i bs h k l r =
    get_elem?-mark i k bs (omega arith) ∙ h k (omega arith) (omega (arith, length-mark i bs))

pub get_elem?-inside :
    {A : Type 0} (xs : List A) (i : ℕ) → i < length xs → (x : A) × (get_elem? xs i ≡ some x)
get_elem?-inside [] i h = absurd (omega arith)
get_elem?-inside (x ∷ xs) zero h = (x, refl)
get_elem?-inside (x ∷ xs) (suc i) h = get_elem?-inside xs i (omega arith)

-- what a placed pair adds
pub record Placed (a b : Aligned) (n : ℕ) : Type 0 where
  pub kept : b.unchanged + count moved b.changes ≡ a.unchanged + count moved a.changes + n
  pub same_added : count added b.changes ≡ count added a.changes
  pub same_removed : count removed b.changes ≡ count removed a.changes
  pub same_modified : count modified b.changes ≡ count modified a.changes

pub count-snoc :
    (k : Kind) (cs : List Change) (c : Change)
    → count k (cs ++ c ∷ []) ≡ count k cs + (if kind_rank c.kind == kind_rank k then 1 else 0)
unfolding count
count-snoc k cs c = omega (arith, count-append k cs (c ∷ []))

place-Placed : (a : Aligned) (old new : Chunk) → Placed a (place a old new) 1
place-Placed a old new = elim (Bool-cases (int_eq old.index new.index)) [
  | inl e ↦
      rw e (record {
        kept = omega arith;
        same_added = refl;
        same_removed = refl;
        same_modified = refl;
      })
  | inr e ↦ rw e (record {
    kept = omega (arith, count-snoc moved a.changes change);
    same_added = omega (arith, count-snoc added a.changes change);
    same_removed = omega (arith, count-snoc removed a.changes change);
    same_modified = omega (arith, count-snoc modified a.changes change);
  })
]
  where
    change : Change
    change = change_of moved new new.index old.index

pub flags-place :
    (a : Aligned) (old new : Chunk)
    → ((place a old new).aligned_previous ≡ a.aligned_previous)
      × ((place a old new).aligned_current ≡ a.aligned_current)
flags-place a old new = ground arith

-- what the first loop leaves behind
pub record IsAligned (a b : Aligned) (n : ℕ) : Type 0 where
  pub placed : Placed a b n
  pub fewer_previous : falses b.aligned_previous + n ≡ falses a.aligned_previous
  pub fewer_current : falses b.aligned_current + n ≡ falses a.aligned_current
  pub size_previous : length b.aligned_previous ≡ length a.aligned_previous
  pub size_current : length b.aligned_current ≡ length a.aligned_current

module _ (previous current : List Chunk) where
  pub align-IsAligned :
      {i j : ℕ} {ps cs : List String} {pairs : List (ℕ × ℕ)} (a : Aligned)
      → IsMatching i j ps cs pairs
      → i + length ps ≡ length previous
      → j + length cs ≡ length current
      → length a.aligned_previous ≡ length previous
      → length a.aligned_current ≡ length current
      → Unset i a.aligned_previous
      → Unset j a.aligned_current
      → IsAligned a (align previous current pairs a) (length pairs)
  unfolding align
  align-IsAligned a done p c lp lc up uc = record {
    placed = record {
      kept = omega arith;
      same_added = refl;
      same_removed = refl;
      same_modified = refl;
    };
    fewer_previous = omega arith;
    fewer_current = omega arith;
    size_previous = refl;
    size_current = refl;
  }
  align-IsAligned a (skip_previous m) p c lp lc up uc =
      align-IsAligned a m (omega (arith, p)) c lp lc (λ k l r. up k (omega arith) r) uc
  align-IsAligned a (skip_current m) p c lp lc up uc =
      align-IsAligned a m p (omega (arith, c)) lp lc up (λ k l r. uc k (omega arith) r)
  align-IsAligned a (pair {i} {j} {pairs} e m) p c lp lc up uc =
      let marked : Aligned = record a {
        aligned_previous = mark i a.aligned_previous;
        aligned_current = mark j a.aligned_current;
      } in
      let (old, o) = get_elem?-inside previous i (omega (arith, p)) in
      let (new, n) = get_elem?-inside current j (omega (arith, c)) in
      let next = place marked old new in
      let (fp, fc) = flags-place marked old new in
      let ih =
        align-IsAligned next m (omega (arith, p)) (omega (arith, c))
          (ap length fp ∙ length-mark i a.aligned_previous ∙ lp)
          (ap length fc ∙ length-mark j a.aligned_current ∙ lc)
          (subst (Unset (suc i)) (sym fp) (Unset-mark i a.aligned_previous up))
          (subst (Unset (suc j)) (sym fc) (Unset-mark j a.aligned_current uc)) in
      let one = place-Placed marked old new in
      let mp = falses-mark i a.aligned_previous (up i (omega arith) (omega (arith, p, lp))) in
      let mc = falses-mark j a.aligned_current (uc j (omega arith) (omega (arith, c, lc))) in
      rw (o, n)
        (record {
          placed = record {
            kept = omega (arith, ih.placed.kept, one.kept);
            same_added = ih.placed.same_added ∙ one.same_added;
            same_removed = ih.placed.same_removed ∙ one.same_removed;
            same_modified = ih.placed.same_modified ∙ one.same_modified;
          };
          fewer_previous = omega (arith, ih.fewer_previous, ap falses fp, mp);
          fewer_current = omega (arith, ih.fewer_current, ap falses fc, mc);
          size_previous = ih.size_previous ∙ ap length fp ∙ length-mark i a.aligned_previous;
          size_current = ih.size_current ∙ ap length fc ∙ length-mark j a.aligned_current;
        })
