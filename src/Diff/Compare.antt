-- ===== src/Diff/Compare.antt =====
-- internal/versiondiff/diff.go: `Compare` and its helpers.
pub mod Positions
pub mod Alignment
pub mod Pairing
pub mod Sources
pub mod Once
pub mod Single
pub mod Reports
pub mod Accounting
use ai_etl_platform.Common.{
  ℕ, zero, suc, ◌+◌, ◌*◌, ◌==◌, ltb, ℤ, pos, int_lt, int_eq, String, str_eq, Option, none, some,
  List, [], ◌∷◌, ◌++◌, map, Bool, true, false, not, ◌||◌, if◌then◌else◌, length, get_elem?, has,
  Outcome, ok, err,
}
use ai_etl_platform.Diff.Subsequence.{lcs_pairs}

pub record Chunk : Type 0 where
  pub chunk_id : String
  pub index : ℤ
  pub content_hash : String

pub data Kind : Type 0 where
  added removed modified moved : Kind

pub record Change : Type 0 where
  pub kind : Kind
  pub chunk_id : String
  pub content_hash : String
  pub index : ℤ
  pub previous_index : ℤ

pub record Result : Type 0 where
  pub previous_chunks : ℕ
  pub current_chunks : ℕ
  pub unchanged : ℕ
  pub changes : List Change

pub data DiffFault : Type 0 where
  invalid_chunk : String → String → ℤ → DiffFault
  duplicate_index : String → ℤ → DiffFault
  too_large : ℕ → ℕ → DiffFault

abbrev pub max_alignment_area : ℕ
max_alignment_area = 4_000_000

abbrev pub contains : List ℤ → ℤ → Bool
contains [] i = false
contains (j ∷ js) i = int_eq j i || contains js i

abbrev pub is_incomplete : Chunk → Bool
is_incomplete c = str_eq c.chunk_id "" || str_eq c.content_hash "" || int_lt c.index (pos 0)

-- the loop, with the positions seen so far
unfoldable pub validate_from : String → List ℤ → List Chunk → Option DiffFault
validate_from side seen [] = none
validate_from side seen (c ∷ cs) =
    let rest = validate_from side (c.index ∷ seen) cs in
    if is_incomplete c
    then some (invalid_chunk side c.chunk_id c.index)
    else if contains seen c.index
    then some (duplicate_index side c.index)
    else rest

unfoldable pub validate : String → List Chunk → Option DiffFault
unfolding validate_from
validate side chunks = validate_from side [] chunks

unfoldable pub insert_chunk : Chunk → List Chunk → List Chunk
insert_chunk c [] = c ∷ []
insert_chunk c (d ∷ ds) =
    let rest = insert_chunk c ds in if int_lt d.index c.index then d ∷ rest else c ∷ d ∷ ds

-- positions are distinct here, so every sort gives the same list
unfoldable pub sorted_by_index : List Chunk → List Chunk
unfolding insert_chunk
sorted_by_index [] = []
sorted_by_index (c ∷ cs) = insert_chunk c (sorted_by_index cs)

abbrev pub hash : Chunk → String
hash c = c.content_hash

-- `make([]bool, n)`, and `flags[i] = true`
abbrev pub none_aligned : {A : Type 0} → List A → List Bool
none_aligned [] = []
none_aligned (x ∷ xs) = false ∷ none_aligned xs

abbrev pub mark : ℕ → List Bool → List Bool
mark i [] = []
mark zero (b ∷ bs) = true ∷ bs
mark (suc i) (b ∷ bs) = b ∷ mark i bs

-- the variables of the first loop
pub record Aligned : Type 0 where
  pub aligned_previous : List Bool
  pub aligned_current : List Bool
  pub unchanged : ℕ
  pub changes : List Change

abbrev pub change_of : Kind → Chunk → ℤ → ℤ → Change
change_of kind c index previous_index = record {
  kind = kind;
  chunk_id = c.chunk_id;
  content_hash = c.content_hash;
  index = index;
  previous_index = previous_index;
}

-- two blocks of one hash: unchanged at the same position, moved otherwise
abbrev pub place : Aligned → Chunk → Chunk → Aligned
place a old new =
    if int_eq old.index new.index
    then record a { unchanged = a.unchanged + 1 }
    else record a { changes = a.changes ++ change_of moved new new.index old.index ∷ [] }

-- an offset past the end would panic; those of `lcsPairs` are in range
abbrev pub place_at : Aligned → Option Chunk → Option Chunk → Aligned
place_at a (some old) (some new) = place a old new
place_at a _ _ = a

unfoldable pub align : List Chunk → List Chunk → List (ℕ × ℕ) → Aligned → Aligned
align previous current [] a = a
align previous current ((i, j) ∷ pairs) a =
    let marked : Aligned = record a {
      aligned_previous = mark i a.aligned_previous;
      aligned_current = mark j a.aligned_current;
    } in
    align previous current pairs (place_at marked (get_elem? previous i) (get_elem? current j))

-- a Go map from positions to offsets
abbrev pub Positions : Type 0
Positions = List (ℤ × ℕ)

unfoldable pub find : Positions → ℤ → Option ℕ
find [] p = none
find ((q, i) ∷ m) p = if int_eq q p then some i else find m p

unfoldable pub put_at : Positions → ℤ → ℕ → Positions
put_at [] p i = (p, i) ∷ []
put_at ((q, k) ∷ m) p i = if int_eq q p then (p, i) ∷ m else (q, k) ∷ put_at m p i

unfoldable pub delete : Positions → ℤ → Positions
delete [] p = []
delete ((q, k) ∷ m) p = if int_eq q p then m else (q, k) ∷ delete m p

unfoldable pub positions_from : ℕ → List Chunk → List Bool → Positions → Positions
unfolding put_at
positions_from i (c ∷ cs) (b ∷ bs) m =
    positions_from (suc i) cs bs (if b then m else put_at m c.index i)
positions_from i _ _ m = m

unfoldable pub positions_by_index : List Chunk → List Bool → Positions
unfolding positions_from
positions_by_index chunks aligned = positions_from 0 chunks aligned []

unfoldable pub insert_position : ℤ → List ℤ → List ℤ
insert_position p [] = p ∷ []
insert_position p (q ∷ qs) =
    let rest = insert_position p qs in if int_lt q p then q ∷ rest else p ∷ q ∷ qs

unfoldable pub sorted_positions : Positions → List ℤ
unfolding insert_position
sorted_positions [] = []
sorted_positions ((p, i) ∷ m) = insert_position p (sorted_positions m)

-- the variables of the second loop
pub record Unmatched : Type 0 where
  pub unmatched_previous : Positions
  pub unmatched_current : Positions
  pub changes : List Change

abbrev pub modify_to : ℤ → Unmatched → Option Chunk → Unmatched
modify_to p u none = u
modify_to p u (some c) = record {
  unmatched_previous = delete u.unmatched_previous p;
  unmatched_current = delete u.unmatched_current p;
  changes = u.changes ++ change_of modified c p (pos 0) ∷ [];
}

-- a position that only one side has is left for the last loops
abbrev pub modify : List Chunk → ℤ → Unmatched → Option ℕ → Option ℕ → Unmatched
modify current p u (some old) (some new) = modify_to p u (get_elem? current new)
modify current p u _ _ = u

unfoldable pub pair_up : List Chunk → List ℤ → Unmatched → Unmatched
pair_up current [] u = u
pair_up current (p ∷ ps) u =
    pair_up current ps
      (modify current p u (find u.unmatched_previous p) (find u.unmatched_current p))

-- the last two loops: a change for each position that is left
abbrev pub left_over : Kind → Option Chunk → List Change
left_over kind none = []
left_over kind (some c) = change_of kind c c.index (pos 0) ∷ []

abbrev pub chunk_at : List Chunk → Option ℕ → Option Chunk
chunk_at chunks none = none
chunk_at chunks (some i) = get_elem? chunks i

unfoldable pub report : Kind → List Chunk → Positions → List ℤ → List Change
unfolding find
report kind chunks m [] = []
report kind chunks m (p ∷ ps) =
    left_over kind (chunk_at chunks (find m p)) ++ report kind chunks m ps

-- the kinds in the order of their names
abbrev pub kind_rank : Kind → ℕ
kind_rank added = 0
kind_rank modified = 1
kind_rank moved = 2
kind_rank removed = 3

unfoldable pub precedes : Change → Change → Bool
precedes a b =
    if not (int_eq a.index b.index)
    then int_lt a.index b.index
    else ltb (kind_rank a.kind) (kind_rank b.kind)

unfoldable pub insert_change : Change → List Change → List Change
unfolding precedes
insert_change a [] = a ∷ []
insert_change a (b ∷ bs) =
    let rest = insert_change a bs in if precedes b a then b ∷ rest else a ∷ b ∷ bs

unfoldable pub sort_changes : List Change → List Change
unfolding insert_change
sort_changes [] = []
sort_changes (c ∷ cs) = insert_change c (sort_changes cs)

-- `Compare` on two versions that are valid, small enough and in order
unfoldable pub compare_sorted : List Chunk → List Chunk → Result
unfolding align positions_by_index sorted_positions pair_up report sort_changes
compare_sorted previous current =
    let a = align previous current (lcs_pairs (map hash previous) (map hash current)) (record {
      aligned_previous = none_aligned previous;
      aligned_current = none_aligned current;
      unchanged = 0;
      changes = [];
    }) in
    let unmatched_current = positions_by_index current a.aligned_current in
    let u = pair_up current (sorted_positions unmatched_current) (record {
      unmatched_previous = positions_by_index previous a.aligned_previous;
      unmatched_current = unmatched_current;
      changes = a.changes;
    }) in
    record {
      previous_chunks = length previous;
      current_chunks = length current;
      unchanged = a.unchanged;
      changes = sort_changes (
          (u.changes
            ++ report removed previous u.unmatched_previous (sorted_positions u.unmatched_previous))
          ++ report added current u.unmatched_current (sorted_positions u.unmatched_current));
    }

unfoldable pub compare_versions : List Chunk → List Chunk → Outcome DiffFault Result
unfolding validate
compare_versions previous current = elim (validate "previous" previous) [
  | some e ↦ err e
  | none ↦ elim (validate "current" current) [
    | some e ↦ err e
    | none ↦
        if ltb max_alignment_area (length previous * length current)
        then err (too_large (length previous) (length current))
        else ok (compare_sorted (sorted_by_index previous) (sorted_by_index current))
  ]
]
