-- ===== src/Skyline/Points.antt =====
-- The skyline keeps exactly the points that no other beats.
use ro_beats_calculator_engi.Common.{
  ◌≡◌, refl, true, false, ◌||◌, List, [], ◌∷◌, ◌++◌, All, arith, Bool-cases, inl, inr,
}
use ro_beats_calculator_engi.Skyline.{
  Point, dominates, dominated, compact_out, packet_points_append, skyline_from,
  packet_points_skyline,
}

dominated_trans :
    (points : List Point) (c x : Point)
    → dominated points c ≡ true
    → dominates c x ≡ true
    → dominated points x ≡ true
unfolding dominated
dominated_trans [] c x h k = cc
dominated_trans (p ∷ points) c x h k = ground (arith, h, k, dominated_trans points c x)

-- Compacting out what the candidate dominates loses nothing beside it.
dominated-compact_out :
    (points : List Point) (c x : Point)
    → dominated (compact_out c points ++ c ∷ []) x ≡ (dominated points x || dominates c x)
unfolding dominated compact_out
dominated-compact_out [] c x = ground arith
dominated-compact_out (p ∷ points) c x = ground (arith, dominated-compact_out points c x)

dominated-append :
    (points : List Point) (c x : Point)
    → dominated (packet_points_append points c) x ≡ (dominated points x || dominates c x)
unfolding packet_points_append
dominated-append points c x =
    ground (arith, dominated_trans points c x, dominated-compact_out points c x)

-- No point dominates another.
abbrev pub Antichain : List Point → Type 0
Antichain [] = Unit
Antichain (p ∷ points) =
    (dominated points p ≡ false) × All (λ r. dominates p r ≡ false) points × Antichain points

-- What a point, or none, does not dominate stays so when points go.
dominated-kept :
    (points : List Point) (c x : Point)
    → dominated points x ≡ false
    → dominates c x ≡ false
    → dominated (compact_out c points ++ c ∷ []) x ≡ false
dominated-kept points c x h k = ground (arith, dominated-compact_out points c x, h, k)

All-compact_out :
    (p c : Point) (points : List Point)
    → All (λ r. dominates p r ≡ false) points
    → dominates p c ≡ false
    → All (λ r. dominates p r ≡ false) (compact_out c points ++ c ∷ [])
unfolding compact_out
All-compact_out p c [] h k = (k, tt)
All-compact_out p c (r ∷ points) h k = elim (Bool-cases (dominates c r)) [
  | inl t ↦ rw t (All-compact_out p c points h.1 k)
  | inr t ↦ rw t (h.0, All-compact_out p c points h.1 k)
]

Antichain-compact_out :
    (c : Point) (points : List Point)
    → Antichain points
    → dominated points c ≡ false
    → Antichain (compact_out c points ++ c ∷ [])
unfolding compact_out dominated
Antichain-compact_out c [] h n = (refl, tt, tt)
Antichain-compact_out c (p ∷ points) h n =
    let first : dominates p c ≡ false = ground (arith, n) in
    let later : dominated points c ≡ false = ground (arith, n) in
    let rest = Antichain-compact_out c points h.2 later in
    elim (Bool-cases (dominates c p)) [
      | inl t ↦ rw t rest
      | inr t ↦ rw t (dominated-kept points c p h.0 t, All-compact_out p c points h.1 first, rest)
    ]

Antichain-append :
    (points : List Point) (c : Point) → Antichain points → Antichain (packet_points_append points c)
unfolding packet_points_append
Antichain-append points c h = elim (Bool-cases (dominated points c)) [
  | inl t ↦ rw t h
  | inr t ↦ rw t (Antichain-compact_out c points h t)
]

skyline_from-dominated :
    (kept points : List Point) (x : Point)
    → dominated (skyline_from kept points) x ≡ (dominated kept x || dominated points x)
unfolding skyline_from dominated
skyline_from-dominated kept [] x = ground arith
skyline_from-dominated kept (c ∷ points) x = ground (
  arith,
  skyline_from-dominated (packet_points_append kept c) points x,
  dominated-append kept c x,
)

skyline_from-Antichain :
    (kept points : List Point) → Antichain kept → Antichain (skyline_from kept points)
unfolding skyline_from
skyline_from-Antichain kept [] h = h
skyline_from-Antichain kept (c ∷ points) h =
    skyline_from-Antichain (packet_points_append kept c) points (Antichain-append kept c h)

-- The skyline of any points loses nothing and keeps nothing in vain: it dominates exactly the
-- points that the given ones dominate, and none of its points dominates another.
pub packet_points_skyline-Antichain :
    (points : List Point)
    → ((x : Point) → dominated (packet_points_skyline points) x ≡ dominated points x)
      × Antichain (packet_points_skyline points)
unfolding dominated
packet_points_skyline-Antichain points =
    (λ x. skyline_from-dominated [] points x, skyline_from-Antichain [] points tt)
