-- ===== src/Diff/Compare/Sources.antt =====
-- The changes of a result are about blocks of the versions.
use ai_etl_platform.Common.{
  ℕ, zero, suc, ◌+◌, ◌≡◌, ◌≢◌, refl, sym, ap, ◌∙◌, ℤ, pos, int_eq, int_lt, int_eq_iff,
  if◌then◌else◌, ◌⊎◌, String, Option-cases, some, List, [], ◌∷◌, map, Bool, true, false, Bool-cases,
  get_elem?, All, All-append, Among, arith, inl, inr,
}
use ai_etl_platform.Diff.Subsequence.Longest.{IsMatching, done, skip_previous, skip_current, pair}
use ai_etl_platform.Diff.Compare.{
  Chunk, Kind, added, removed, modified, moved, Change, hash, change_of, Aligned, mark, place_at,
  align, Positions, find, put_at, delete, positions_from, Unmatched, modify, pair_up, report,
  precedes, insert_change, sort_changes, insert_chunk, sorted_by_index,
}

-- a block of the list with the change's identity, content and position
abbrev pub Names : List Chunk → Change → Type 0
Names cs x =
    (c : Chunk) × Among c cs
    × (x.chunk_id ≡ c.chunk_id)
    × (x.content_hash ≡ c.content_hash)
    × (x.index ≡ c.index)

-- What a change says, by its kind: a block of the newer version is new, stands where the older one
-- has a block, or stands elsewhere than a block of the same content of the older one; or a block of
-- the older version is gone.
abbrev pub Says : List Chunk → List Chunk → Change → Kind → Type 0
Says previous current x added = Names current x
Says previous current x removed = Names previous x
Says previous current x modified =
    Names current x × ((c : Chunk) × Among c previous × (c.index ≡ x.index))
Says previous current x moved =
    Names current x
    × ((c : Chunk) × Among c previous
        × (c.index ≡ x.previous_index)
        × (c.content_hash ≡ x.content_hash))
    × (x.previous_index ≢ x.index)

abbrev pub IsTrue : List Chunk → List Chunk → Change → Type 0
IsTrue previous current x = Says previous current x x.kind

Among-get_elem? : {A : Type 0} (xs : List A) (i : ℕ) {x : A} → get_elem? xs i ≡ some x → Among x xs
Among-get_elem? [] i h = absurd (cc h)
Among-get_elem? (y ∷ xs) zero h = inl (cc h)
Among-get_elem? (y ∷ xs) (suc i) h = inr (Among-get_elem? xs i h)

get_elem?-map :
    (xs : List Chunk) (i : ℕ) {x : Chunk}
    → get_elem? xs i ≡ some x
    → get_elem? (map hash xs) i ≡ some x.content_hash
get_elem?-map [] i h = absurd (cc h)
get_elem?-map (y ∷ xs) zero h = cc h
get_elem?-map (y ∷ xs) (suc i) h = get_elem?-map xs i h

-- the hashes at the offsets of a pair are equal
abbrev pub Agree : List String → List String → List (ℕ × ℕ) → Type 0
Agree ps cs = All (λ (e : ℕ × ℕ). get_elem? ps e.0 ≡ get_elem? cs e.1)

-- `xs` are the elements of `all` from `i` on
abbrev From : {A : Type 0} → ℕ → List A → List A → Type 0
From i xs all = (k : ℕ) → get_elem? xs k ≡ get_elem? all (i + k)

pub From-start : {A : Type 0} (xs : List A) → From 0 xs xs
From-start xs k = ap (get_elem? xs) (omega arith)

From-tail :
    {A : Type 0} (i : ℕ) (x : A) (xs all : List A) → From i (x ∷ xs) all → From (suc i) xs all
From-tail i x xs all h k = h (suc k) ∙ ap (get_elem? all) (omega arith)

pub IsMatching-Agree :
    {i j : ℕ} {ps cs : List String} {pairs : List (ℕ × ℕ)} (previous current : List String)
    → IsMatching i j ps cs pairs
    → From i ps previous
    → From j cs current
    → Agree previous current pairs
IsMatching-Agree previous current done p c = tt
IsMatching-Agree previous current (skip_previous {i} {p = x} {ps} m) p c =
    IsMatching-Agree previous current m (From-tail i x ps previous p) c
IsMatching-Agree previous current (skip_current {j = j} {c = x} {cs = cs} m) p c =
    IsMatching-Agree previous current m p (From-tail j x cs current c)
IsMatching-Agree previous current (pair {i} {j} {p = x} {c = y} {ps} {cs} e m) p c = (
  ap (get_elem? previous) (omega arith)
      ∙ sym (p 0)
      ∙ ap some e
      ∙ c 0
      ∙ ap (get_elem? current) (omega arith),
  IsMatching-Agree previous current m (From-tail i x ps previous p) (From-tail j y cs current c),
)

-- each position leads to the block that stands there
abbrev pub Points : List Chunk → Positions → Type 0
Points cs = All (λ (e : ℤ × ℕ). (c : Chunk) × (get_elem? cs e.1 ≡ some c) × (c.index ≡ e.0))

pub Points-find :
    (cs : List Chunk) (m : Positions) (p : ℤ) {i : ℕ}
    → Points cs m
    → find m p ≡ some i
    → (c : Chunk) × (get_elem? cs i ≡ some c) × (c.index ≡ p)
unfolding find
Points-find cs [] p h e = absurd (cc e)
Points-find cs ((q, k) ∷ m) p {i} h e = elim (Bool-cases (int_eq q p)) [
  | inl same ↦
      let k≡i : k ≡ i = ground (arith, same, e) in
      (h.0.0, ap (get_elem? cs) (sym k≡i) ∙ h.0.1, h.0.2 ∙ (int_eq_iff q p).0 same)
  | inr other ↦ Points-find cs m p h.1 (ground (arith, other, e))
]

Points-delete : (cs : List Chunk) (m : Positions) (p : ℤ) → Points cs m → Points cs (delete m p)
unfolding delete
Points-delete cs [] p h = tt
Points-delete cs ((q, k) ∷ m) p h = elim (Bool-cases (int_eq q p)) [
  | inl e ↦ rw e h.1
  | inr e ↦ rw e (h.0, Points-delete cs m p h.1)
]

Points-put_at :
    (cs : List Chunk) (m : Positions) (c : Chunk) (i : ℕ)
    → Points cs m
    → get_elem? cs i ≡ some c
    → Points cs (put_at m c.index i)
unfolding put_at
Points-put_at cs [] c i h e = ((c, e, refl), tt)
Points-put_at cs ((q, k) ∷ m) c i h e = elim (Bool-cases (int_eq q c.index)) [
  | inl s ↦ rw s ((c, e, refl), h.1)
  | inr s ↦ rw s (h.0, Points-put_at cs m c i h.1 e)
]

pub positions_from-Points :
    (all : List Chunk) (i : ℕ) (cs : List Chunk) (bs : List Bool) (m : Positions)
    → From i cs all
    → Points all m
    → Points all (positions_from i cs bs m)
unfolding positions_from
positions_from-Points all i [] bs m f h = h
positions_from-Points all i (c ∷ cs) [] m f h = h
positions_from-Points all i (c ∷ cs) (true ∷ bs) m f h =
    positions_from-Points all (suc i) cs bs m (From-tail i c cs all f) h
positions_from-Points all i (c ∷ cs) (false ∷ bs) m f h =
    positions_from-Points all (suc i) cs bs (put_at m c.index i) (From-tail i c cs all f)
      (Points-put_at all m c i h (ap (get_elem? all) (omega arith) ∙ sym (f 0)))

module _ (previous current : List Chunk) where
  place_at-IsTrue :
      (a : Aligned) (i j : ℕ)
      → get_elem? (map hash previous) i ≡ get_elem? (map hash current) j
      → All (IsTrue previous current) a.changes
      → All
          (IsTrue previous current)
          (place_at a (get_elem? previous i) (get_elem? current j)).changes
  place_at-IsTrue a i j e h = elim (Option-cases (get_elem? previous i)) [
    | inl n ↦ rw n h
    | inr (old, o) ↦ elim (Option-cases (get_elem? current j)) [
      | inl n ↦ rw (o, n) h
      | inr (new, n) ↦ elim (Bool-cases (int_eq old.index new.index)) [
        | inl same ↦ rw (o, n, same) h
        | inr other ↦
            let hashes : some old.content_hash ≡ some new.content_hash =
              sym (get_elem?-map previous i o) ∙ e ∙ get_elem?-map current j n in
            rw (o, n, other)
              (All-append (IsTrue previous current) a.changes
                (change_of moved new new.index old.index ∷ []) h
                (
                  (
                    (new, Among-get_elem? current j n, refl, refl, refl),
                    (old, Among-get_elem? previous i o, refl, cc hashes),
                    λ q. absurd (ground (arith, other, (int_eq_iff old.index new.index).1 q)),
                  ),
                  tt,
                ))
      ]
    ]
  ]

  pub align-IsTrue :
      (pairs : List (ℕ × ℕ)) (a : Aligned)
      → Agree (map hash previous) (map hash current) pairs
      → All (IsTrue previous current) a.changes
      → All (IsTrue previous current) (align previous current pairs a).changes
  unfolding align
  align-IsTrue [] a e h = h
  align-IsTrue ((i, j) ∷ pairs) a (e, es) h =
      let marked : Aligned = record a {
        aligned_previous = mark i a.aligned_previous;
        aligned_current = mark j a.aligned_current;
      } in
      align-IsTrue pairs (place_at marked (get_elem? previous i) (get_elem? current j)) es
        (place_at-IsTrue marked i j e h)

  -- what the second loop keeps
  abbrev pub IsSound : Unmatched → Type 0
  IsSound u =
      Points previous u.unmatched_previous
      × Points current u.unmatched_current
      × All (IsTrue previous current) u.changes

  modify-IsSound :
      (p : ℤ) (u : Unmatched)
      → IsSound u
      → IsSound (modify current p u (find u.unmatched_previous p) (find u.unmatched_current p))
  modify-IsSound p u (sp, sc, h) = elim (Option-cases (find u.unmatched_previous p)) [
    | inl e ↦ rw e (sp, sc, h)
    | inr (i, e) ↦ elim (Option-cases (find u.unmatched_current p)) [
      | inl f ↦ rw (e, f) (sp, sc, h)
      | inr (j, f) ↦
          let (old, o, at) = Points-find previous u.unmatched_previous p sp e in
          let (new, n, here) = Points-find current u.unmatched_current p sc f in
          rw (e, f, n)
            (
              Points-delete previous u.unmatched_previous p sp,
              Points-delete current u.unmatched_current p sc,
              All-append (IsTrue previous current) u.changes (change_of modified new p (pos 0) ∷ [])
                  h
                  (
                    (
                      (new, Among-get_elem? current j n, refl, refl, sym here),
                      (old, Among-get_elem? previous i o, at),
                    ),
                    tt,
                  ),
            )
    ]
  ]

  pub pair_up-IsSound : (ps : List ℤ) (u : Unmatched) → IsSound u → IsSound (pair_up current ps u)
  unfolding pair_up
  pair_up-IsSound [] u s = s
  pair_up-IsSound (p ∷ ps) u s =
      pair_up-IsSound ps
        (modify current p u (find u.unmatched_previous p) (find u.unmatched_current p))
        (modify-IsSound p u s)

  report-IsTrue :
      (kind : Kind) (chunks : List Chunk) (m : Positions) (ps : List ℤ)
      → ((c : Chunk) → Among c chunks → IsTrue previous current (change_of kind c c.index (pos 0)))
      → All (IsTrue previous current) (report kind chunks m ps)
  unfolding report
  report-IsTrue kind chunks m [] h = tt
  report-IsTrue kind chunks m (p ∷ ps) h =
      let rest = report-IsTrue kind chunks m ps h in
      elim (Option-cases (find m p)) [
        | inl e ↦ rw e rest
        | inr (i, e) ↦ elim (Option-cases (get_elem? chunks i)) [
          | inl n ↦ rw (e, n) rest
          | inr (c, n) ↦ rw (e, n) (h c (Among-get_elem? chunks i n), rest)
        ]
      ]

  pub removed-IsTrue :
      (m : Positions) (ps : List ℤ) → All (IsTrue previous current) (report removed previous m ps)
  removed-IsTrue m ps = report-IsTrue removed previous m ps (λ c a. (c, a, refl, refl, refl))

  pub added-IsTrue :
      (m : Positions) (ps : List ℤ) → All (IsTrue previous current) (report added current m ps)
  added-IsTrue m ps = report-IsTrue added current m ps (λ c a. (c, a, refl, refl, refl))

All-insert_change :
    (P : Change → Type 0) (c : Change) (cs : List Change)
    → P c
    → All P cs
    → All P (insert_change c cs)
unfolding insert_change
All-insert_change P c [] p h = (p, tt)
All-insert_change P c (d ∷ ds) p h = elim (Bool-cases (precedes d c)) [
  | inl e ↦ rw e (h.0, All-insert_change P c ds p h.1)
  | inr e ↦ rw e (p, h)
]

pub All-sort_changes : (P : Change → Type 0) (cs : List Change) → All P cs → All P (sort_changes cs)
unfolding sort_changes
All-sort_changes P [] h = tt
All-sort_changes P (c ∷ cs) h =
    All-insert_change P c (sort_changes cs) h.0 (All-sort_changes P cs h.1)

Among-if :
    (a : Chunk) (b : Bool) (xs ys : List Chunk)
    → Among a (if b then xs else ys)
    → Among a xs ⊎ Among a ys
Among-if a true xs ys h = inl h
Among-if a false xs ys h = inr h

Among-insert_chunk :
    (a c : Chunk) (cs : List Chunk) → Among a (insert_chunk c cs) → (a ≡ c) ⊎ Among a cs
unfolding insert_chunk
Among-insert_chunk a c [] h = h
Among-insert_chunk a c (d ∷ ds) h =
    elim (Among-if a (int_lt d.index c.index) (d ∷ insert_chunk c ds) (c ∷ d ∷ ds) h) [
      | inl (inl q) ↦ inr (inl q)
      | inl (inr t) ↦ elim (Among-insert_chunk a c ds t) [ inl q ↦ inl q | inr r ↦ inr (inr r) ]
      | inr t ↦ t
    ]

Among-sorted_by_index : (a : Chunk) (cs : List Chunk) → Among a (sorted_by_index cs) → Among a cs
unfolding sorted_by_index
Among-sorted_by_index a [] h = h
Among-sorted_by_index a (c ∷ cs) h = elim (Among-insert_chunk a c (sorted_by_index cs) h) [
  | inl q ↦ inl q
  | inr t ↦ inr (Among-sorted_by_index a cs t)
]

Says-sorted_by_index :
    (previous current : List Chunk) (x : Change) (k : Kind)
    → Says (sorted_by_index previous) (sorted_by_index current) x k
    → Says previous current x k
Says-sorted_by_index previous current x added (c, a, i, s, t) =
    (c, Among-sorted_by_index c current a, i, s, t)
Says-sorted_by_index previous current x removed (c, a, i, s, t) =
    (c, Among-sorted_by_index c previous a, i, s, t)
Says-sorted_by_index previous current x modified ((c, a, i, s, t), (d, b, v)) =
    ((c, Among-sorted_by_index c current a, i, s, t), (d, Among-sorted_by_index d previous b, v))
Says-sorted_by_index previous current x moved ((c, a, i, s, t), (d, b, v, w), u) = (
  (c, Among-sorted_by_index c current a, i, s, t),
  (d, Among-sorted_by_index d previous b, v, w),
  u,
)

pub IsTrue-sorted_by_index :
    (previous current : List Chunk) (xs : List Change)
    → All (IsTrue (sorted_by_index previous) (sorted_by_index current)) xs
    → All (IsTrue previous current) xs
IsTrue-sorted_by_index previous current [] h = tt
IsTrue-sorted_by_index previous current (x ∷ xs) h = (
  Says-sorted_by_index previous current x x.kind h.0,
  IsTrue-sorted_by_index previous current xs h.1,
)
