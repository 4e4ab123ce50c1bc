-- ===== src/Diff/Compare/Positions.antt =====
-- The maps from positions to offsets hold one entry for each block that was not aligned.
use ai_etl_platform.Common.{
  ℕ, suc, ◌+◌, ◌≤◌, ◌<◌, ◌≡◌, refl, ℤ, int_eq, int_lt, int_eq_iff, String, none, some, List, [],
  ◌∷◌, Bool, true, false, ◌||◌, if◌then◌else◌, length, All, ◌⊎◌, arith, inl, inr, Bool-cases, ◌↔◌,
}
use ai_etl_platform.Diff.Compare.{
  Chunk, contains, is_incomplete, validate_from, validate, insert_chunk, sorted_by_index, Positions,
  find, put_at, delete, positions_from, insert_position, sorted_positions,
}

abbrev pub stands : List Chunk → ℤ → Bool
stands [] p = false
stands (c ∷ cs) p = int_eq p c.index || stands cs p

-- No two blocks stand at one position.
abbrev pub IsDistinct : List Chunk → Type 0
IsDistinct [] = Unit
IsDistinct (c ∷ cs) = (stands cs c.index ≡ false) × IsDistinct cs

abbrev Unseen : List ℤ → List Chunk → Type 0
Unseen seen = All (λ c. contains seen c.index ≡ false)

Unseen-stands :
    (p : ℤ) (seen : List ℤ) (cs : List Chunk)
    → Unseen (p ∷ seen) cs
    → (stands cs p ≡ false) × Unseen seen cs
Unseen-stands p seen [] h = (refl, tt)
Unseen-stands p seen (c ∷ cs) h =
    let q = Unseen-stands p seen cs h.1 in (ground (arith, h.0, q), (ground (arith, h.0), q.1))

stands-Unseen :
    (p : ℤ) (seen : List ℤ) (cs : List Chunk)
    → stands cs p ≡ false
    → Unseen seen cs
    → Unseen (p ∷ seen) cs
stands-Unseen p seen [] n h = tt
stands-Unseen p seen (c ∷ cs) n h =
    (ground (arith, n, h.0), stands-Unseen p seen cs (ground (arith, n)) h.1)

-- Each block names itself and its content, and stands at a position that is not negative.
abbrev pub AllComplete : List Chunk → Type 0
AllComplete = All (λ c. is_incomplete c ≡ false)

validate_from_iff :
    (side : String) (seen : List ℤ) (cs : List Chunk)
    → (validate_from side seen cs ≡ none) ↔ (AllComplete cs × IsDistinct cs × Unseen seen cs)
unfolding validate_from
validate_from_iff side seen [] = (λ h. (tt, tt, tt), λ h. refl)
validate_from_iff side seen (c ∷ cs) =
    let ih = validate_from_iff side (c.index ∷ seen) cs in
    (
      λ h.
          let q = ih.0 (ground (arith, h)) in
          let u = Unseen-stands c.index seen cs q.2 in
          ((ground (arith, h), q.0), (u.0, q.1), (ground (arith, h), u.1)),
      λ (complete, distinct, unseen).
          let rest =
            ih.1 (complete.1, distinct.1, stands-Unseen c.index seen cs distinct.0 unseen.1) in
          ground (arith, rest, complete.0, unseen.0),
    )

Unseen-nil : (cs : List Chunk) → Unseen [] cs
Unseen-nil [] = tt
Unseen-nil (c ∷ cs) = (refl, Unseen-nil cs)

-- a version passes validation when its blocks are complete and stand at distinct positions
pub validate_iff :
    (side : String) (cs : List Chunk) → (validate side cs ≡ none) ↔ (AllComplete cs × IsDistinct cs)
unfolding validate
validate_iff side cs =
    let q = validate_from_iff side [] cs in
    (λ h. ((q.0 h).0, (q.0 h).1), λ h. q.1 (h.0, h.1, Unseen-nil cs))

int_eq-sym : (a b : ℤ) → int_eq a b ≡ false → int_eq b a ≡ false
int_eq-sym a b h = ground (arith, int_eq_iff a b, int_eq_iff b a)

stands-insert_chunk :
    (c : Chunk) (cs : List Chunk) (p : ℤ)
    → stands (insert_chunk c cs) p ≡ (int_eq p c.index || stands cs p)
unfolding insert_chunk
stands-insert_chunk c [] p = refl
stands-insert_chunk c (d ∷ ds) p = ground (arith, stands-insert_chunk c ds p)

insert_chunk-IsDistinct :
    (c : Chunk) (cs : List Chunk)
    → stands cs c.index ≡ false
    → IsDistinct cs
    → IsDistinct (insert_chunk c cs)
unfolding insert_chunk
insert_chunk-IsDistinct c [] n h = (refl, tt)
insert_chunk-IsDistinct c (d ∷ ds) n h = elim (Bool-cases (int_lt d.index c.index)) [
  | inl e ↦ rw e (
    ground (arith, stands-insert_chunk c ds d.index, n, h.0, int_eq-sym c.index d.index),
    insert_chunk-IsDistinct c ds (ground (arith, n)) h.1,
  )
  | inr e ↦ rw e (n, h)
]

stands-sorted_by_index : (cs : List Chunk) (p : ℤ) → stands (sorted_by_index cs) p ≡ stands cs p
unfolding sorted_by_index
stands-sorted_by_index [] p = refl
stands-sorted_by_index (c ∷ cs) p =
    ground (arith, stands-insert_chunk c (sorted_by_index cs) p, stands-sorted_by_index cs p)

pub sorted_by_index-IsDistinct : (cs : List Chunk) → IsDistinct cs → IsDistinct (sorted_by_index cs)
unfolding sorted_by_index
sorted_by_index-IsDistinct [] h = tt
sorted_by_index-IsDistinct (c ∷ cs) h =
    insert_chunk-IsDistinct c (sorted_by_index cs)
      (ground (arith, stands-sorted_by_index cs c.index, h.0)) (sorted_by_index-IsDistinct cs h.1)

length-insert_chunk : (c : Chunk) (cs : List Chunk) → length (insert_chunk c cs) ≡ suc (length cs)
unfolding insert_chunk
length-insert_chunk c [] = refl
length-insert_chunk c (d ∷ ds) = ground (arith, length-insert_chunk c ds)

pub length-sorted_by_index : (cs : List Chunk) → length (sorted_by_index cs) ≡ length cs
unfolding sorted_by_index
length-sorted_by_index [] = refl
length-sorted_by_index (c ∷ cs) =
    omega (arith, length-insert_chunk c (sorted_by_index cs), length-sorted_by_index cs)

pub find-put_at :
    (m : Positions) (p q : ℤ) (i : ℕ)
    → find (put_at m p i) q ≡ (if int_eq p q then some i else find m q)
unfolding find put_at
find-put_at [] p q i = refl
find-put_at ((r, k) ∷ m) p q i =
    ground (arith, find-put_at m p q i, int_eq_iff r p, int_eq_iff p q, int_eq_iff r q)

length-put_at :
    (m : Positions) (p : ℤ) (i : ℕ) → find m p ≡ none → length (put_at m p i) ≡ suc (length m)
unfolding find put_at
length-put_at [] p i h = refl
length-put_at ((r, k) ∷ m) p i h = ground (arith, h, length-put_at m p i)

pub length-delete :
    (m : Positions) (p : ℤ) {i : ℕ} → find m p ≡ some i → suc (length (delete m p)) ≡ length m
unfolding find delete
length-delete [] p h = absurd (cc h)
length-delete ((r, k) ∷ m) p {i} h = elim (Bool-cases (int_eq r p)) [
  | inl e ↦ ground (arith, e)
  | inr e ↦ ground (arith, e, length-delete m p {i = i} (ground (arith, e, h)))
]

-- every offset of the map is below `n`
abbrev pub InRange : ℕ → Positions → Type 0
InRange n = All (λ (e : ℤ × ℕ). e.1 < n)

pub InRange-find : (n : ℕ) (m : Positions) (p : ℤ) {i : ℕ} → InRange n m → find m p ≡ some i → i < n
unfolding find
InRange-find n [] p h e = absurd (cc e)
InRange-find n ((r, k) ∷ m) p h e = elim (Bool-cases (int_eq r p)) [
  | inl q ↦ ground (arith, q, e, h.0)
  | inr q ↦ InRange-find n m p h.1 (ground (arith, q, e))
]

pub InRange-delete : (n : ℕ) (m : Positions) (p : ℤ) → InRange n m → InRange n (delete m p)
unfolding delete
InRange-delete n [] p h = tt
InRange-delete n ((r, k) ∷ m) p h = elim (Bool-cases (int_eq r p)) [
  | inl q ↦ rw q h.1
  | inr q ↦ rw q (h.0, InRange-delete n m p h.1)
]

InRange-put_at :
    (n : ℕ) (m : Positions) (p : ℤ) (i : ℕ) → InRange n m → i < n → InRange n (put_at m p i)
unfolding put_at
InRange-put_at n [] p i h l = (l, tt)
InRange-put_at n ((r, k) ∷ m) p i h l = elim (Bool-cases (int_eq r p)) [
  | inl q ↦ rw q (l, h.1)
  | inr q ↦ rw q (h.0, InRange-put_at n m p i h.1 l)
]

-- the blocks that are not aligned
abbrev pub falses : List Bool → ℕ
falses [] = 0
falses (b ∷ bs) = (if b then 0 else 1) + falses bs

abbrev Absent : Positions → List Chunk → Type 0
Absent m = All (λ c. find m c.index ≡ none)

Absent-put_at :
    (m : Positions) (p : ℤ) (i : ℕ) (cs : List Chunk)
    → stands cs p ≡ false
    → Absent m cs
    → Absent (put_at m p i) cs
Absent-put_at m p i [] n h = tt
Absent-put_at m p i (c ∷ cs) n h = (
  ground (arith, find-put_at m p c.index i, n, h.0),
  Absent-put_at m p i cs (ground (arith, n)) h.1,
)

pub positions_from_lem :
    (n i : ℕ) (cs : List Chunk) (bs : List Bool) (m : Positions)
    → IsDistinct cs
    → Absent m cs
    → length bs ≡ length cs
    → i + length cs ≤ n
    → InRange n m
    → (length (positions_from i cs bs m) ≡ length m + falses bs)
      × InRange n (positions_from i cs bs m)
unfolding positions_from
positions_from_lem n i [] [] m d a l r v = (omega arith, v)
positions_from_lem n i [] (b ∷ bs) m d a l r v = absurd (omega (arith, l))
positions_from_lem n i (c ∷ cs) [] m d a l r v = absurd (omega (arith, l))
positions_from_lem n i (c ∷ cs) (true ∷ bs) m d a l r v =
    let q = positions_from_lem n (suc i) cs bs m d.1 a.1 (omega (arith, l)) (omega (arith, r)) v in
    (omega (arith, q.0), q.1)
positions_from_lem n i (c ∷ cs) (false ∷ bs) m d a l r v =
    let q =
      positions_from_lem n (suc i) cs bs (put_at m c.index i) d.1
        (Absent-put_at m c.index i cs d.0 a.1) (omega (arith, l)) (omega (arith, r))
        (InRange-put_at n m c.index i v (omega (arith, r))) in
    (omega (arith, q.0, length-put_at m c.index i a.0), q.1)

-- each position in the list is found, with an offset in range
abbrev pub Found : ℕ → Positions → List ℤ → Type 0
Found n m = All (λ p. (i : ℕ) × (find m p ≡ some i) × (i < n))

Found-insert_position :
    (n : ℕ) (m : Positions) (p : ℤ) (ps : List ℤ)
    → ((i : ℕ) × (find m p ≡ some i) × (i < n))
    → Found n m ps
    → Found n m (insert_position p ps)
unfolding insert_position
Found-insert_position n m p [] f h = (f, tt)
Found-insert_position n m p (q ∷ qs) f h = elim (Bool-cases (int_lt q p)) [
  | inl e ↦ rw e (h.0, Found-insert_position n m p qs f h.1)
  | inr e ↦ rw e (f, h)
]

Found-cons :
    (n : ℕ) (q : ℤ) (k : ℕ) (m : Positions) (ps : List ℤ)
    → k < n
    → Found n m ps
    → Found n ((q, k) ∷ m) ps
unfolding find
Found-cons n q k m [] l h = tt
Found-cons n q k m (p ∷ ps) l h = (at (Bool-cases (int_eq q p)), Found-cons n q k m ps l h.1)
  where
    at :
        (int_eq q p ≡ true) ⊎ (int_eq q p ≡ false)
        → (i : ℕ) × (find ((q, k) ∷ m) p ≡ some i) × (i < n)
    at (inl e) = (k, ground (arith, e), l)
    at (inr e) = (h.0.0, ground (arith, e, h.0.1), h.0.2)

length-insert_position : (p : ℤ) (ps : List ℤ) → length (insert_position p ps) ≡ suc (length ps)
unfolding insert_position
length-insert_position p [] = refl
length-insert_position p (q ∷ qs) = ground (arith, length-insert_position p qs)

pub sorted_positions_lem :
    (n : ℕ) (m : Positions)
    → InRange n m
    → (length (sorted_positions m) ≡ length m) × Found n m (sorted_positions m)
unfolding sorted_positions
sorted_positions_lem n [] h = (refl, tt)
sorted_positions_lem n ((p, i) ∷ m) h =
    let q = sorted_positions_lem n m h.1 in
    (
      omega (arith, q.0, length-insert_position p (sorted_positions m)),
      Found-insert_position n ((p, i) ∷ m) p (sorted_positions m)
          (i, unfold find in ground (arith, int_eq_iff p p), h.0)
          (Found-cons n p i m (sorted_positions m) h.0 q.1),
    )
