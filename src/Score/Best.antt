-- ===== src/Score/Best.antt =====
-- The best surface of a timing cell, against the notes that its surfaces play.
use ro_beats_calculator_engi.Common.{
  ℕ, zero, suc, ◌+◌, ◌-◌, ◌≤◌, ◌<◌, ◌≡◌, ◌↔◌, refl, ap, sym, false, inl, inr, arith, List, [], ◌∷◌,
  map, some, get_elem?, All, Result, ok, err, value_error, ◌>>=◌, Bool-cases, ok-injective,
}
use ro_beats_calculator_engi.Score.{
  Double, Factors, TimelineSurface, head_notes, timeline_score, best_timeline_score, any_mismatch,
  fg_surface_score,
}
use ro_beats_calculator_engi.Score.Greats.{
  play_score, no_great_surface, play_score-timeline_score, fg_surface_score-play_score,
}

-- `(best, at)` is the first greatest entry of `xs`.
pub record IsFirstMax (xs : List ℕ) (best at : ℕ) : Type 0 where
  pub found : get_elem? xs at ≡ some best
  pub greatest : (j x : ℕ) → get_elem? xs j ≡ some x → x ≤ best
  pub first : (j x : ℕ) → get_elem? xs j ≡ some x → j < at → x < best

-- What numpy says of `np.argmax`: the index of the first greatest entry, and ValueError with no entry.
pub record IsArgmax (argmax : List ℕ → Result ℕ) : Type 0 where
  pub empty : argmax [] ≡ err value_error
  pub first_max :
      (x : ℕ) (xs : List ℕ)
      → (at : ℕ) × (argmax (x ∷ xs) ≡ ok at) × ((best : ℕ) × IsFirstMax (x ∷ xs) best at)

-- A list has one first greatest entry.
one_first_max :
    (xs : List ℕ) (best at best' at' : ℕ)
    → IsFirstMax xs best at
    → IsFirstMax xs best' at'
    → (best ≡ best') × (at ≡ at')
one_first_max xs best at best' at' a b =
    let le = b.greatest at best a.found in
    let ge = a.greatest at' best' b.found in
    let fst = a.first at' best' b.found in
    let snd = b.first at best a.found in (omega (arith, le, ge), ground (arith, le, ge, fst, snd))

no_mismatch :
    (body_total : ℕ) (cell : List TimelineSurface)
    → any_mismatch body_total cell ≡ false
    → All (λ s. s.body_fever + s.body_normal ≡ body_total) cell
unfolding any_mismatch
no_mismatch body_total [] h = tt
no_mismatch body_total (s ∷ cell) h = (ground arith, no_mismatch body_total cell (ground arith))

mismatch_none :
    (body_total : ℕ) (cell : List TimelineSurface)
    → All (λ s. s.body_fever + s.body_normal ≡ body_total) cell
    → any_mismatch body_total cell ≡ false
unfolding any_mismatch
mismatch_none body_total [] h = refl
mismatch_none body_total (s ∷ cell) h = ground (arith, h.0, mismatch_none body_total cell h.1)

module _ (D : Double) (f : Factors D) (argmax : List ℕ → Result ℕ) (law : IsArgmax argmax) where
  -- The fit of a surface to the song.
  abbrev Fits : ℕ → List TimelineSurface → Type 0
  Fits total_notes = All (λ s. s.body_fever + s.body_normal ≡ total_notes - head_notes)

  abbrev played : ℕ → List TimelineSurface → List ℕ
  played total_notes = map (λ s. play_score D f (no_great_surface D f s) total_notes)

  played-timeline_score :
      (cell : List TimelineSurface) (total_notes : ℕ)
      → Fits total_notes cell
      → map (timeline_score D f total_notes) cell ≡ played total_notes cell
  played-timeline_score [] total_notes h = refl
  played-timeline_score (s ∷ cell) total_notes h =
      let here = play_score-timeline_score D f s total_notes h.0 in
      let rest = played-timeline_score cell total_notes h.1 in λ i. sym here i ∷ rest i

  -- A cell that has a best surface and fits gets it.
  best_of :
      (cell : List TimelineSurface) (total_notes : ℕ) (xs : List ℕ)
      → any_mismatch (total_notes - head_notes) cell ≡ false
      → map (timeline_score D f total_notes) cell ≡ xs
      → (best at : ℕ) → IsFirstMax xs best at
      → best_timeline_score D f argmax cell total_notes ≡ ok (best, at)
  unfolding best_timeline_score
  best_of cell total_notes [] fits is best at v = absurd (ground (arith, v.found))
  best_of cell total_notes (x ∷ xs) fits is best at v =
      let (at', answer, (best', v')) = law.first_max x xs in
      let (same_best, same_at) = one_first_max (x ∷ xs) best at best' at' v v' in
      rw (best_timeline_score, fits, is, answer, v'.found, same_best, same_at) refl

  -- What a cell that fits gets is its best surface.
  best_at :
      (cell : List TimelineSurface) (total_notes : ℕ) (xs : List ℕ)
      → any_mismatch (total_notes - head_notes) cell ≡ false
      → map (timeline_score D f total_notes) cell ≡ xs
      → (best at : ℕ) → best_timeline_score D f argmax cell total_notes ≡ ok (best, at)
      → IsFirstMax xs best at
  unfolding best_timeline_score
  best_at cell total_notes [] fits is best at =
      rw (best_timeline_score, fits, is, law.empty) (λ h. absurd (ground (arith, h)))
  best_at cell total_notes (x ∷ xs) fits is best at =
      let (at', answer, (best', v')) = law.first_max x xs in
      rw (best_timeline_score, fits, is, answer, v'.found)
        (λ h.
          let e = ok-injective (best', at') (best, at) h in
          rw (← ap (λ (r : ℕ × ℕ). r.0) e, ← ap (λ (r : ℕ × ℕ). r.1) e) v')

  -- `best_timeline_score` returns a score and an index just if every surface of the cell fits the song's body notes,
  -- the score is the greatest that a surface of the cell has, as the sum of the values of the notes that it plays,
  -- and the index is the first surface that has it; so it raises on an empty cell and on a surface that does
  -- not fit. `np.argmax` is any function that finds the first greatest entry and raises where there is none.
  pub best_timeline_score-IsFirstMax :
      (cell : List TimelineSurface) (total_notes best at : ℕ)
      → (best_timeline_score D f argmax cell total_notes ≡ ok (best, at)) ↔ (
          All (λ s. s.body_fever + s.body_normal ≡ total_notes - head_notes) cell
          × IsFirstMax
              (map (λ s. play_score D f (no_great_surface D f s) total_notes) cell)
              best
              at)
  unfolding best_timeline_score
  best_timeline_score-IsFirstMax cell total_notes best at = (returned, returns)
    where
      returned :
          best_timeline_score D f argmax cell total_notes ≡ ok (best, at)
          → Fits total_notes cell × IsFirstMax (played total_notes cell) best at
      returned h = elim (Bool-cases (any_mismatch (total_notes - head_notes) cell)) [
        | inl t ↦ absurd (ground (arith, h, t))
        | inr t ↦
            let fits = no_mismatch (total_notes - head_notes) cell t in
            (
              fits,
              best_at cell total_notes (played total_notes cell) t
                  (played-timeline_score cell total_notes fits) best at h,
            )
      ]

      returns :
          Fits total_notes cell × IsFirstMax (played total_notes cell) best at
          → best_timeline_score D f argmax cell total_notes ≡ ok (best, at)
      returns (fits, v) =
          best_of cell total_notes (played total_notes cell)
            (mismatch_none (total_notes - head_notes) cell fits)
            (played-timeline_score cell total_notes fits) best at v

  -- A play without Greats scores the same on both paths, if its counts fit the song: the Force Great score of
  -- a surface with no Greats is the timing score of the same fever notes.
  pub fg_surface_score-best_timeline_score :
      (s : TimelineSurface) (total_notes : ℕ)
      → s.body_fever + s.body_normal ≡ total_notes - head_notes
      → fg_surface_score D f (no_great_surface D f s) total_notes
        ≡ (best_timeline_score D f argmax (s ∷ []) total_notes >>= λ r. ok r.0)
  fg_surface_score-best_timeline_score s total_notes h =
      let played_alone : IsFirstMax (played total_notes (s ∷ []))
          (play_score D f (no_great_surface D f s) total_notes) 0 =
        record {
          found = refl;
          greatest = λ j x g. alone (play_score D f (no_great_surface D f s) total_notes) j x g;
          first = λ j x g l. absurd (omega (arith, l));
        } in
      rw
        (
          fg_surface_score-play_score D f (no_great_surface D f s) total_notes
              (record { in_fever = omega arith; in_great = omega arith; in_body = omega arith }),
          (best_timeline_score-IsFirstMax (s ∷ []) total_notes
                (play_score D f (no_great_surface D f s) total_notes) 0).1
              ((h, tt), played_alone),
        )
        refl
    where
      alone : (y j x : ℕ) → get_elem? (y ∷ []) j ≡ some x → x ≤ y
      alone y zero x g = ground (arith, g)
      alone y (suc j) x g = absurd (ground (arith, g))
