-- ===== src/Store/Valid/Ranks.antt =====
-- The boards: a hash on a board is the hash of an eligible row, and a board lists at most the limit.
use Prim.Native.String.{String}
use text.Mathlib.Text.{◌==◌ as str_eq}
use text.Mathlib.TextEquality.{eq_iff}
use ro_beats_calculator_engi.Common.{
  ℕ, zero, suc, ◌+◌, ◌≤◌, ◌≡◌, refl, Bool, true, false, ◌||◌, List, [], ◌∷◌, map, ◌⊎◌, inl, inr,
  length, take, length-take-le, arith, if◌then◌else◌, Bool-cases,
}
use ro_beats_calculator_engi.Common.Dict.{contains, Distinct}
use ro_beats_calculator_engi.Store.Records.{Loadout}
use ro_beats_calculator_engi.Store.Boards.{
  Row, candidates, insert_by, sorted_by, hashes, board, loadouts_per_song_limit,
}

abbrev pub In : Row → List Row → Type 0
In x [] = ⊥
In x (y ∷ ys) = (x ≡ y) ⊎ In x ys

abbrev pub row_hashes : List Row → List String
row_hashes = map (λ r. r.loadout.loadout_hash)

contains-In :
    (r : Row) (rows : List Row)
    → In r rows
    → contains r.loadout.loadout_hash (row_hashes rows) ≡ true
unfolding contains
contains-In r [] h = absurd h
contains-In r (y ∷ ys) (inl e) =
    ground (arith, e, eq_iff r.loadout.loadout_hash y.loadout.loadout_hash)
contains-In r (y ∷ ys) (inr h) = ground (arith, contains-In r ys h)

contains-candidates :
    (h : String) (eligible : Loadout → Bool) (rows : List Row)
    → contains h (hashes (candidates eligible rows)) ≡ true
    → contains h (row_hashes rows) ≡ true
unfolding contains candidates
contains-candidates h eligible [] e = e
contains-candidates h eligible (r ∷ rs) e = ground (arith, contains-candidates h eligible rs)

contains-insert_by :
    (h : String) (before : Loadout → Loadout → Bool) (x : Loadout) (xs : List Loadout)
    → contains h (hashes (insert_by before x xs))
      ≡ (str_eq x.loadout_hash h || contains h (hashes xs))
unfolding contains insert_by
contains-insert_by h before x [] = refl
contains-insert_by h before x (y ∷ ys) = ground (arith, contains-insert_by h before x ys)

contains-sorted_by :
    (h : String) (before : Loadout → Loadout → Bool) (xs : List Loadout)
    → contains h (hashes (sorted_by before xs)) ≡ contains h (hashes xs)
unfolding contains sorted_by
contains-sorted_by h before [] = refl
contains-sorted_by h before (x ∷ xs) =
    ground
      (arith, contains-insert_by h before x (sorted_by before xs), contains-sorted_by h before xs)

contains-take :
    (h : String) (n : ℕ) (xs : List Loadout)
    → contains h (hashes (take n xs)) ≡ true
    → contains h (hashes xs) ≡ true
unfolding contains
contains-take h zero xs e = absurd (ground arith)
contains-take h (suc n) [] e = e
contains-take h (suc n) (x ∷ xs) e = ground (arith, contains-take h n xs)

eligible_of_contains :
    (eligible : Loadout → Bool) (rows : List Row) (r : Row)
    → Distinct (row_hashes rows)
    → In r rows
    → contains r.loadout.loadout_hash (hashes (candidates eligible rows)) ≡ true
    → eligible r.loadout ≡ true
unfolding contains candidates
eligible_of_contains eligible [] r d h e = absurd h
eligible_of_contains eligible (y ∷ ys) r d (inl same) e = elim (Bool-cases (eligible y.loadout)) [
  | inl t ↦ rw same t
  | inr f ↦
      absurd (ground (arith, d.0, contains-candidates r.loadout.loadout_hash eligible ys, same))
]
eligible_of_contains eligible (y ∷ ys) r d (inr h) e = ground (
  arith,
  d.0,
  d.1,
  contains-In r ys h,
  eq_iff y.loadout.loadout_hash r.loadout.loadout_hash,
  eligible_of_contains eligible ys r d.1 h,
)

-- Every row whose hash is on a board is eligible for it.
pub board_eligible :
    (eligible : Loadout → Bool) (before : Loadout → Loadout → Bool) (rows : List Row) (r : Row)
    → Distinct (row_hashes rows)
    → In r rows
    → contains r.loadout.loadout_hash (board eligible before rows) ≡ true
    → eligible r.loadout ≡ true
unfolding board
board_eligible eligible before rows r d h e = eligible_of_contains eligible rows r d h (
    ground (
      arith,
      contains-take r.loadout.loadout_hash loadouts_per_song_limit
          (sorted_by before (candidates eligible rows)) e,
      contains-sorted_by r.loadout.loadout_hash before (candidates eligible rows),
    ))

length-hashes : (xs : List Loadout) → length (hashes xs) ≡ length xs
length-hashes [] = refl
length-hashes (x ∷ xs) = omega (arith, length-hashes xs)

pub length-board-le :
    (eligible : Loadout → Bool) (before : Loadout → Loadout → Bool) (rows : List Row)
    → length (board eligible before rows) ≤ loadouts_per_song_limit
unfolding board
length-board-le eligible before rows = omega (
  arith,
  length-hashes (take loadouts_per_song_limit (sorted_by before (candidates eligible rows))),
  length-take-le loadouts_per_song_limit (sorted_by before (candidates eligible rows)),
)

-- How many rows satisfy a test.
unfoldable pub count_rows : (Row → Bool) → List Row → ℕ
count_rows p [] = 0
count_rows p (r ∷ rs) = (if p r then 1 else 0) + count_rows p rs

count_absent :
    (h : String) (rows : List Row)
    → contains h (row_hashes rows) ≡ false
    → count_rows (λ r. str_eq h r.loadout.loadout_hash) rows ≡ 0
unfolding contains count_rows
count_absent h [] e = refl
count_absent h (r ∷ rs) e =
    ground
      (arith, eq_iff r.loadout.loadout_hash h, eq_iff h r.loadout.loadout_hash, count_absent h rs)

count_one :
    (h : String) (rows : List Row)
    → Distinct (row_hashes rows)
    → count_rows (λ r. str_eq h r.loadout.loadout_hash) rows ≤ 1
unfolding count_rows
count_one h [] d = omega arith
count_one h (r ∷ rs) d = elim (Bool-cases (str_eq h r.loadout.loadout_hash)) [
  | inl t ↦
      let e = (eq_iff h r.loadout.loadout_hash).0 t in
      let absent : contains h (row_hashes rs) ≡ false = ground (arith, d.0, e) in
      rw t (omega (arith, count_absent h rs absent))
  | inr f ↦ rw f (omega (arith, count_one h rs d.1))
]

count_or :
    (p q : Row → Bool) (rows : List Row)
    → count_rows (λ r. p r || q r) rows ≤ count_rows p rows + count_rows q rows
unfolding count_rows
count_or p q [] = omega arith
count_or p q (r ∷ rs) = ground (arith, count_or p q rs)

count_none : (rows : List Row) → count_rows (λ r. false) rows ≡ 0
unfolding count_rows
count_none [] = refl
count_none (r ∷ rs) = omega (arith, count_none rs)

-- Rows with distinct hashes meet a list of hashes at most as often as it is long.
pub count-contains-le :
    (hs : List String) (rows : List Row)
    → Distinct (row_hashes rows)
    → count_rows (λ r. contains r.loadout.loadout_hash hs) rows ≤ length hs
unfolding contains
count-contains-le [] rows d = omega (arith, count_none rows)
count-contains-le (h ∷ hs) rows d = omega (
  arith,
  count_or (λ r. str_eq h r.loadout.loadout_hash) (λ r. contains r.loadout.loadout_hash hs) rows,
  count_one h rows d,
  count-contains-le hs rows d,
)
