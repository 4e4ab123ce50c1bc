-- ===== src/Diff/Compare/Once.antt =====
-- No block is reported twice: changes, flags and maps counted at one position.
use ai_etl_platform.Common.{
  ℕ, zero, suc, ◌+◌, ◌≤◌, ◌≡◌, refl, sym, ap, ◌∙◌, ℤ, int_eq, int_lt, int_eq_iff, some, List, [],
  ◌∷◌, ◌++◌, Bool, true, false, Bool-cases, if◌then◌else◌, get_elem?, arith, inl, inr,
}
use ai_etl_platform.Diff.Compare.{
  Chunk, added, removed, moved, Change, none_aligned, mark, Positions, find, put_at, delete,
  positions_from, insert_position, sorted_positions, insert_change, sort_changes,
}
use ai_etl_platform.Diff.Compare.Positions.{stands, IsDistinct}

abbrev pub one_at : ℤ → ℤ → ℕ
one_at p q = if int_eq q p then 1 else 0

-- whether a change is about the block at a position of the newer version, and of the older one
abbrev pub current_at : ℤ → Change → ℕ
current_at p x = elim x.kind [ removed ↦ 0 | _ ↦ one_at p x.index ]

abbrev pub previous_at : ℤ → Change → ℕ
previous_at p x = elim x.kind [
  | added ↦ 0
  | moved ↦ one_at p x.previous_index
  | _ ↦ one_at p x.index
]

unfoldable pub tally : (Change → ℕ) → List Change → ℕ
tally w [] = 0
tally w (x ∷ xs) = w x + tally w xs

pub tally-append :
    (w : Change → ℕ) (xs ys : List Change) → tally w (xs ++ ys) ≡ tally w xs + tally w ys
unfolding tally
tally-append w [] ys = omega arith
tally-append w (x ∷ xs) ys = omega (arith, tally-append w xs ys)

pub tally-snoc :
    (w : Change → ℕ) (xs : List Change) (x : Change) → tally w (xs ++ x ∷ []) ≡ tally w xs + w x
unfolding tally
tally-snoc w xs x = omega (arith, tally-append w xs (x ∷ []))

tally-insert_change :
    (w : Change → ℕ) (c : Change) (cs : List Change)
    → tally w (insert_change c cs) ≡ w c + tally w cs
unfolding tally insert_change
tally-insert_change w c [] = refl
tally-insert_change w c (d ∷ ds) = ground (arith, tally-insert_change w c ds)

pub tally-sort_changes :
    (w : Change → ℕ) (cs : List Change) → tally w (sort_changes cs) ≡ tally w cs
unfolding tally sort_changes
tally-sort_changes w [] = refl
tally-sort_changes w (c ∷ cs) =
    omega (arith, tally-insert_change w c (sort_changes cs), tally-sort_changes w cs)

module _ (p : ℤ) where
  -- the keys of a map, the positions of a list and the blocks not aligned that are at `p`
  abbrev pub keys : Positions → ℕ
  keys [] = 0
  keys ((q, i) ∷ m) = one_at p q + keys m

  abbrev pub listed : List ℤ → ℕ
  listed [] = 0
  listed (q ∷ qs) = one_at p q + listed qs

  abbrev pub open_blocks : List Chunk → List Bool → ℕ
  open_blocks (c ∷ cs) (b ∷ bs) = (if b then 0 else one_at p c.index) + open_blocks cs bs
  open_blocks _ _ = 0

  keys-put_at : (m : Positions) (q : ℤ) (i : ℕ) → keys (put_at m q i) ≤ keys m + one_at p q
  unfolding put_at
  keys-put_at [] q i = omega arith
  keys-put_at ((r, k) ∷ m) q i = elim (Bool-cases (int_eq r q)) [
    | inl e ↦ rw e (omega arith)
    | inr e ↦ rw e (omega (arith, keys-put_at m q i))
  ]

  pub keys-positions_from :
      (i : ℕ) (cs : List Chunk) (bs : List Bool) (m : Positions)
      → keys (positions_from i cs bs m) ≤ keys m + open_blocks cs bs
  unfolding positions_from
  keys-positions_from i [] bs m = omega arith
  keys-positions_from i (c ∷ cs) [] m = omega arith
  keys-positions_from i (c ∷ cs) (true ∷ bs) m = omega (arith, keys-positions_from (suc i) cs bs m)
  keys-positions_from i (c ∷ cs) (false ∷ bs) m =
      omega (arith, keys-positions_from (suc i) cs bs (put_at m c.index i), keys-put_at m c.index i)

  pub keys-delete :
      (m : Positions) (q : ℤ) {i : ℕ} → find m q ≡ some i → keys (delete m q) + one_at p q ≡ keys m
  unfolding find delete
  keys-delete [] q h = absurd (cc h)
  keys-delete ((r, k) ∷ m) q {i} h = elim (Bool-cases (int_eq r q)) [
    | inl e ↦ rw e (rw ((int_eq_iff r q).0 e) (omega arith))
    | inr e ↦ rw e (omega (arith, keys-delete m q {i = i} (ground (arith, e, h))))
  ]

  listed-insert_position :
      (q : ℤ) (qs : List ℤ) → listed (insert_position q qs) ≡ one_at p q + listed qs
  unfolding insert_position
  listed-insert_position q [] = refl
  listed-insert_position q (r ∷ qs) = elim (Bool-cases (int_lt r q)) [
    | inl e ↦ rw e (omega (arith, listed-insert_position q qs))
    | inr e ↦ rw e refl
  ]

  pub listed-sorted_positions : (m : Positions) → listed (sorted_positions m) ≡ keys m
  unfolding sorted_positions
  listed-sorted_positions [] = refl
  listed-sorted_positions ((q, i) ∷ m) =
      omega (arith, listed-insert_position q (sorted_positions m), listed-sorted_positions m)

  pub open_blocks-mark :
      (i : ℕ) (cs : List Chunk) (bs : List Bool) {c : Chunk}
      → get_elem? bs i ≡ some false
      → get_elem? cs i ≡ some c
      → open_blocks cs (mark i bs) + one_at p c.index ≡ open_blocks cs bs
  open_blocks-mark i [] bs e f = absurd (cc f)
  open_blocks-mark i (d ∷ cs) [] e f = absurd (cc e)
  open_blocks-mark zero (d ∷ cs) (true ∷ bs) e f = absurd (ground (arith, e))
  open_blocks-mark zero (d ∷ cs) (false ∷ bs) {c} e f =
      let same : d ≡ c = cc f in
      let at : one_at p d.index ≡ one_at p c.index = ap (λ x. one_at p x.index) same in
      omega (arith, at)
  open_blocks-mark (suc i) (d ∷ cs) (b ∷ bs) {c} e f =
      omega (arith, open_blocks-mark i cs bs {c = c} e f)

  none_at : (cs : List Chunk) → stands cs p ≡ false → open_blocks cs (none_aligned cs) ≡ 0
  none_at [] h = refl
  none_at (c ∷ cs) h = ground (arith, h, none_at cs)

  pub one_block : (cs : List Chunk) → IsDistinct cs → open_blocks cs (none_aligned cs) ≤ 1
  one_block [] d = omega arith
  one_block (c ∷ cs) d = elim (Bool-cases (int_eq c.index p)) [
    | inl e ↦
        let none_left = none_at cs (ap (stands cs) (sym ((int_eq_iff c.index p).0 e)) ∙ d.0) in
        rw e (omega (arith, none_left))
    | inr e ↦ rw e (omega (arith, one_block cs d.1))
  ]
