-- ===== src/Timeline/Play.antt =====
-- The section loop plays the notes one by one.
use ro_beats_calculator_engi.Common.{
  ℕ, zero, suc, ◌+◌, ◌-◌, ◌≤◌, ◌<◌, ◌≡◌, refl, sym, ap, ◌∙◌, min, Bool, true, false, ◌&&◌, ◌||◌,
  some, leb, ltb, ◌==◌, if◌then◌else◌, arith, inl, inr, ltb-cases,
}
use ro_beats_calculator_engi.Timeline.{Sections, no_section, notes_to_fill, open_fever, sections}

-- The fever bar before a note: the notes that filled it, or where the fever ends.
pub data Bar : Type 0 where
  filling : ℕ → Bar
  fever_until : ℕ → Bar

pub record Played : Type 0 where
  pub bar : Bar
  pub activations : ℕ
  pub last_end : ℕ

-- A note fills the bar by one, and the one that fills it up is in fever. The note where a fever ends
-- is out of it and adds nothing.
abbrev pub in_fever : ℕ → Bar → ℕ → Bool
in_fever fill (filling count) i = suc count == fill
in_fever fill (fever_until end) i = ltb i end

abbrev pub play_note : ℕ → (ℕ → ℕ) → Played → Bar → ℕ → Played
play_note fill window_end p (filling count) i =
    if suc count == fill
    then record {
      bar = fever_until (window_end i);
      activations = suc p.activations;
      last_end = window_end i;
    }
    else record p { bar = filling (suc count) }
play_note fill window_end p (fever_until end) i =
    if ltb i end then p else record p { bar = filling 0 }

module _ (fill : ℕ) (window_end : ℕ → ℕ) where
  -- The state before note i.
  unfoldable pub play : ℕ → Played
  play zero = record { bar = filling 0; activations = 0; last_end = 0 }
  play (suc i) = play_note fill window_end (play i) (play i).bar i

  -- Whether note i is in fever.
  abbrev pub fever_at : ℕ → Bool
  fever_at i = in_fever fill (play i).bar i

-- Every fever has its first note, and ends in the chart.
abbrev pub AreWindows : ℕ → (ℕ → ℕ) → Type 0
AreWindows total window_end = (i : ℕ) → i < total → (i < window_end i) × (window_end i ≤ total)

-- The bar where a section starts, and after j more of its notes that do not fill it.
abbrev start_bar : Sections → Bar
start_bar s = if s.fever_section == 0 then filling 0 else fever_until s.current_note_idx

abbrev filled : Sections → ℕ → Bar
filled s j = filling (if s.fever_section == 0 then suc j else j)

abbrev at_bar : Sections → Bar → Played
at_bar s bar = record {
  bar = bar;
  activations = s.fever_activations;
  last_end = s.last_fever_end_idx;
}

record Follows (fill : ℕ) (window_end : ℕ → ℕ) (s : Sections) : Type 0 where
  played : play fill window_end s.current_note_idx ≡ at_bar s (start_bar s)
  mask : (i : ℕ) → s.is_fever i ≡ (ltb i s.current_note_idx && fever_at fill window_end i)

module _ (fill : ℕ) (window_end : ℕ → ℕ) where
  -- The notes of a section before the one that fills the bar.
  filling_notes :
      (s : Sections) (j : ℕ)
      → 2 ≤ fill
      → play fill window_end s.current_note_idx ≡ at_bar s (start_bar s)
      → j < notes_to_fill fill s.fever_section
      → (fever_at fill window_end (s.current_note_idx + j) ≡ false)
        × (play fill window_end (suc (s.current_note_idx + j)) ≡ at_bar s (filled s j))
  unfolding play
  filling_notes s zero f h lt =
      let e : s.current_note_idx + 0 ≡ s.current_note_idx = omega arith in rw (e, h) (ground arith)
  filling_notes s (suc j) f h lt =
      let e : s.current_note_idx + suc j ≡ suc (s.current_note_idx + j) = omega arith in
      let before = filling_notes s j f h (omega (arith, lt)) in rw (e, before.1) (ground arith)

  filled_up :
      (s : Sections)
      → 2 ≤ fill
      → play fill window_end s.current_note_idx ≡ at_bar s (start_bar s)
      → play fill window_end (s.current_note_idx + notes_to_fill fill s.fever_section)
        ≡ at_bar s (filling (fill - 1))
  filled_up s f h =
      let need = notes_to_fill fill s.fever_section in
      let before = filling_notes s (need - 1) f h (ground arith) in
      let e : s.current_note_idx + need ≡ suc (s.current_note_idx + (need - 1)) = ground arith in
      let last : filled s (need - 1) ≡ filling (fill - 1) = ground arith in
      rw (e, before.1) (ap (at_bar s) last)

  -- The notes of a fever.
  fever_notes :
      (s : Sections) (at j : ℕ)
      → 2 ≤ fill
      → play fill window_end at ≡ at_bar s (filling (fill - 1))
      → at + j < window_end at
      → (fever_at fill window_end (at + j) ≡ true)
        × (play fill window_end (suc (at + j)) ≡ record {
          bar = fever_until (window_end at);
          activations = suc s.fever_activations;
          last_end = window_end at;
        })
  unfolding play
  fever_notes s at zero f h lt = let e : at + 0 ≡ at = omega arith in rw (e, h) (ground arith)
  fever_notes s at (suc j) f h lt =
      let e : at + suc j ≡ suc (at + j) = omega arith in
      let before = fever_notes s at j f h (omega (arith, lt)) in rw (e, before.1) (ground arith)

  -- No note of the section before that one is in fever.
  out_of_fever :
      (s : Sections) (i : ℕ)
      → 2 ≤ fill
      → play fill window_end s.current_note_idx ≡ at_bar s (start_bar s)
      → s.current_note_idx ≤ i
      → i < s.current_note_idx + notes_to_fill fill s.fever_section
      → fever_at fill window_end i ≡ false
  out_of_fever s i f h lo hi =
      let j = i - s.current_note_idx in
      let e : s.current_note_idx + j ≡ i = omega (arith, lo) in
      let before = filling_notes s j f h (omega (arith, lo, hi)) in
      ap (λ (i : ℕ). fever_at fill window_end i) (sym e) ∙ before.0

  in_window :
      (s : Sections) (at i : ℕ)
      → 2 ≤ fill
      → play fill window_end at ≡ at_bar s (filling (fill - 1))
      → at ≤ i
      → i < window_end at
      → fever_at fill window_end i ≡ true
  in_window s at i f h lo hi =
      let e : at + (i - at) ≡ i = omega (arith, lo) in
      let notes = fever_notes s at (i - at) f h (omega (arith, lo, hi)) in
      ap (λ (i : ℕ). fever_at fill window_end i) (sym e) ∙ notes.0

  open_fever-Follows :
      (s : Sections) (total at : ℕ)
      → 2 ≤ fill
      → AreWindows total window_end
      → Follows fill window_end s
      → at ≡ s.current_note_idx + notes_to_fill fill s.fever_section
      → at < total
      → Follows fill window_end (open_fever window_end s at)
  unfolding open_fever
  open_fever-Follows s total at f w v e lt =
      let up : play fill window_end at ≡ at_bar s (filling (fill - 1)) =
        ap (play fill window_end) e ∙ filled_up s f v.played in
      let end = window_end at in
      let j = end - 1 - at in
      let k : at + j < end = omega (arith, w at lt) in
      let back : suc (at + j) ≡ end = omega (arith, w at lt) in
      let later : (suc s.fever_section == 0) ≡ false = ground arith in
      record {
        played =
            ap (play fill window_end) (sym back) ∙ (fever_notes s at j f up k).1 ∙ rw later refl;
        mask = λ i. elim (ltb-cases i at) [
          | inl before ↦ elim (ltb-cases i s.current_note_idx) [
            | inl old ↦ ground (arith, before, old, v.mask i, w at lt)
            | inr new ↦ ground (
              arith,
              before,
              new,
              v.mask i,
              out_of_fever s i f v.played new.1 (omega (arith, before.1, e)),
            )
          ]
          | inr after ↦ elim (ltb-cases i end) [
            | inl inside ↦ ground (arith, after, inside, in_window s at i f up after.1 inside.1)
            | inr outside ↦ ground (arith, after, outside, v.mask i, e)
          ]
        ];
      }

  -- What the loop leaves: the fevers of all notes.
  unfoldable pub IsPlayed : ℕ → Sections → Type 0
  IsPlayed total s =
      ((i : ℕ) → i < total → s.is_fever i ≡ fever_at fill window_end i)
      × ((play fill window_end total).activations ≡ s.fever_activations)
      × ((play fill window_end total).last_end ≡ s.last_fever_end_idx)

  -- The chart ends before the bar fills.
  chart_end :
      (s : Sections) (total : ℕ)
      → 2 ≤ fill
      → Follows fill window_end s
      → s.current_note_idx < total
      → total ≤ s.current_note_idx + notes_to_fill fill s.fever_section
      → IsPlayed total s
  unfolding IsPlayed
  chart_end s total f v lt le =
      let j = total - 1 - s.current_note_idx in
      let e : suc (s.current_note_idx + j) ≡ total = omega (arith, lt) in
      let end : play fill window_end total ≡ at_bar s (filled s j) =
        ap (play fill window_end) (sym e)
        ∙ (filling_notes s j f v.played (omega (arith, lt, le))).1 in
      (
        λ i h. elim (ltb-cases i s.current_note_idx) [
          | inl old ↦ ground (arith, old, v.mask i)
          | inr new ↦
              ground
                (arith, new, v.mask i, out_of_fever s i f v.played new.1 (omega (arith, h, le)))
        ],
        rw end refl,
        rw end refl,
      )

  end-IsPlayed :
      (s : Sections) (total : ℕ)
      → Follows fill window_end s
      → s.current_note_idx ≡ total
      → IsPlayed total s
  unfolding IsPlayed
  end-IsPlayed s total v e =
      let end : play fill window_end total ≡ at_bar s (start_bar s) =
        ap (play fill window_end) (sym e) ∙ v.played in
      (λ i h. ground (arith, v.mask i, e, h), rw end refl, rw end refl)

  sections-open_fever :
      (fuel total : ℕ) (s : Sections)
      → 2 ≤ fill
      → s.current_note_idx + notes_to_fill fill s.fever_section < total
      → sections (suc fuel) total fill window_end s
        ≡ sections fuel total fill window_end
            (open_fever window_end s (s.current_note_idx + notes_to_fill fill s.fever_section))
  unfolding sections
  sections-open_fever fuel total s f lt =
      let full = s.current_note_idx + notes_to_fill fill s.fever_section in
      let at : min full total ≡ full = omega (arith, lt) in
      let more : ltb s.current_note_idx total ≡ true = ground (arith, lt) in
      let opens : (leb total full || full == 0) ≡ false = ground (arith, lt) in
      rw (at, more, opens) refl

  -- Each round opens a fever further on, so there are at most as many as there are notes.
  sections-IsPlayed :
      (fuel total : ℕ) (s : Sections)
      → 2 ≤ fill
      → AreWindows total window_end
      → Follows fill window_end s
      → s.current_note_idx ≤ total
      → total ≤ fuel + s.current_note_idx
      → (s' : Sections) × (sections fuel total fill window_end s ≡ some s') × IsPlayed total s'
  unfolding sections open_fever
  sections-IsPlayed zero total s f w v le enough =
      (s, ground (arith, enough), end-IsPlayed s total v (omega (arith, le, enough)))
  sections-IsPlayed (suc fuel) total s f w v le enough =
      let full = s.current_note_idx + notes_to_fill fill s.fever_section in
      elim (ltb-cases s.current_note_idx total) [
        | inr done ↦ (s, rw done.0 refl, end-IsPlayed s total v (omega (arith, le, done.1)))
        | inl more ↦ elim (ltb-cases full total) [
          | inr end ↦ (s, ground (arith, more, end), chart_end s total f v more.1 end.1)
          | inl fills ↦
              let opened = open_fever-Follows s total full f w v refl fills.1 in
              let end = w full fills.1 in
              let (s', made, played) =
                sections-IsPlayed fuel total (open_fever window_end s full) f w opened end.1
                  (omega (arith, end, enough)) in
              (s', sections-open_fever fuel total s f fills.1 ∙ made, played)
        ]
      ]

  -- For a bar of two notes at least and fevers that hold their first note and end in the chart, the
  -- section loop ends within one round per note. Its mask is the fever of each note, its
  -- activations and its last end are those of the whole play, note by note.
  pub sections_total :
      (total : ℕ)
      → 2 ≤ fill
      → AreWindows total window_end
      → (s : Sections) × (sections total total fill window_end no_section ≡ some s)
        × IsPlayed total s
  unfolding play
  sections_total total f w =
      let v : Follows fill window_end no_section = record {
        played = refl;
        mask = λ i. ground arith;
      } in
      sections-IsPlayed total total no_section f w v (omega arith) (omega arith)
