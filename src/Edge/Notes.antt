-- ===== src/Edge/Notes.antt =====
-- What a packed edge says of the chart's notes: which head notes are in fever and which are Greats, and
-- how many of the body.
use ro_beats_calculator_engi.Common.{
  ℕ, suc, ◌+◌, ◌≤◌, ◌<◌, ◌≡◌, ap, ◌∙◌, Bool, true, false, ◌&&◌, ◌||◌, Option, none, some, leb, ltb,
  arith, Bool-cases, ltb-cases, inl, inr,
}
use ro_beats_calculator_engi.Edge.{
  Edge, range_mask, single_head_mask, or_mask, body_count, body_overlap_count, pack_edge,
  pack_edge_eg,
}
use ro_beats_calculator_engi.Edge.Masks.{
  digit, head_note, head_note-range_mask, head_note-single_head_mask, head_note-or_mask,
}
use ro_beats_calculator_engi.Edge.Counts.{
  count_body, in_range, body_count-count_body, body_overlap_count-count_body, count_body-same,
  count_body-or, count_body-single,
}

-- The edge describes the notes of an n-note chart: the head notes by bits, the body notes by counts.
pub record Packs (n : ℕ) (fever great : ℕ → Bool) (e : Edge) : Type 0 where
  pub fever_notes : (k : ℕ) → k < 100 → head_note e.fever k ≡ digit (fever k && ltb k n)
  pub great_notes : (k : ℕ) → k < 100 → head_note e.great k ≡ digit (great k && ltb k n)
  pub body_fever : e.body_fever ≡ count_body n fever
  pub body_great : e.body_great ≡ count_body n great
  pub body_fever_great : e.body_fever_great ≡ count_body n (λ k. fever k && great k)

-- A Great that fills the bar, if there is one.
abbrev pub activates : Option ℕ → ℕ → Bool
activates none k = false
activates (some a) k = in_range a (suc a) k

abbrev pub great_in_edge : ℕ → ℕ → Option ℕ → ℕ → Bool
great_in_edge great_start great_end activation k =
    in_range great_start great_end k || activates activation k

-- It is a note of the fever.
abbrev pub IsInFever : ℕ → ℕ → Option ℕ → Type 0
IsInFever fever_start fever_end none = Unit
IsInFever fever_start fever_end (some a) = (fever_start ≤ a) × (a < fever_end)

range_notes :
    (start end n k : ℕ)
    → k < 100
    → head_note (range_mask start end n) k ≡ digit (in_range start end k && ltb k n)
range_notes start end n k h = ground (arith, head_note-range_mask start end n k h)

module _ (n fs fe gs ge : ℕ) where
  no_activation : Packs n (in_range fs fe) (great_in_edge gs ge none) (pack_edge n fs fe gs ge none)
  unfolding pack_edge
  no_activation = record {
    fever_notes = range_notes fs fe n;
    great_notes = λ k h. ground (arith, range_notes gs ge n k h);
    body_fever = body_count-count_body fs fe n;
    body_great =
        body_count-count_body gs ge n
        ∙ count_body-same n (in_range gs ge) (great_in_edge gs ge none) (λ k. ground arith);
    body_fever_great =
        body_overlap_count-count_body fs fe gs ge n
        ∙ count_body-same n (λ k. in_range fs fe k && in_range gs ge k)
            (λ k. in_range fs fe k && great_in_edge gs ge none k) (λ k. ground arith);
  }

  -- Outside the run the activation is one more Great, of the fever.
  activation_outside :
      (a : ℕ)
      → fs ≤ a
      → a < fe
      → in_range gs ge a ≡ false
      → (count_body n (great_in_edge gs ge (some a))
          ≡ count_body n (in_range gs ge) + digit (leb 100 a && ltb a n))
        × (count_body n (λ k. in_range fs fe k && great_in_edge gs ge (some a) k)
            ≡ count_body n (λ k. in_range fs fe k && in_range gs ge k)
              + digit (leb 100 a && ltb a n))
  activation_outside a l m out =
      let one = count_body-single n a in
      let more = count_body-or n (in_range gs ge) (in_range a (suc a)) (λ k. ground (arith, out)) in
      let split =
        count_body-same n (λ k. in_range fs fe k && great_in_edge gs ge (some a) k)
          (λ k. (in_range fs fe k && in_range gs ge k) || in_range a (suc a) k)
          (λ k. ground (arith, l, m)) in
      let both =
        count_body-or n (λ k. in_range fs fe k && in_range gs ge k) (in_range a (suc a))
          (λ k. ground (arith, out)) in
      (
        more ∙ ap (λ (t : ℕ). count_body n (in_range gs ge) + t) one,
        split
            ∙ both
            ∙ ap (λ (t : ℕ). count_body n (λ k. in_range fs fe k && in_range gs ge k) + t) one,
      )

  -- Inside it, it is one of the run's.
  activation_inside :
      (a : ℕ)
      → in_range gs ge a ≡ true
      → (count_body n (great_in_edge gs ge (some a)) ≡ count_body n (in_range gs ge))
        × (count_body n (λ k. in_range fs fe k && great_in_edge gs ge (some a) k)
            ≡ count_body n (λ k. in_range fs fe k && in_range gs ge k))
  activation_inside a h = (
    count_body-same n (great_in_edge gs ge (some a)) (in_range gs ge) (λ k. ground (arith, h)),
    count_body-same n (λ k. in_range fs fe k && great_in_edge gs ge (some a) k)
        (λ k. in_range fs fe k && in_range gs ge k) (λ k. ground (arith, h)),
  )

  great_notes_or :
      (a k : ℕ)
      → k < 100
      → head_note (or_mask (range_mask gs ge n) (single_head_mask a n)) k
        ≡ digit (great_in_edge gs ge (some a) k && ltb k n)
  great_notes_or a k h = ground (
    arith,
    head_note-or_mask (range_mask gs ge n) (single_head_mask a n) k,
    range_notes gs ge n k h,
    head_note-single_head_mask a n k h,
  )

  -- An edge without or with an activation Great, of its fever, describes exactly the notes of the
  -- section: in fever are those of the fever range, Greats those of the Great run and the
  -- activation, counted once wherever it falls.
  pack_edge-Packs :
      (activation : Option ℕ)
      → IsInFever fs fe activation
      → Packs n
          (in_range fs fe)
          (great_in_edge gs ge activation)
          (pack_edge n fs fe gs ge activation)
  unfolding pack_edge
  pack_edge-Packs none h = no_activation
  pack_edge-Packs (some a) h = elim (Bool-cases (in_range gs ge a)) [
    | inl t ↦
        let (g, f) = activation_inside a t in
        record {
          fever_notes = range_notes fs fe n;
          great_notes = great_notes_or a;
          body_fever = body_count-count_body fs fe n;
          body_great = ground (arith, t, g, body_count-count_body gs ge n);
          body_fever_great = ground (arith, t, f, body_overlap_count-count_body fs fe gs ge n);
        }
    | inr t ↦
        let (g, f) = activation_outside a h.0 h.1 t in
        record {
          fever_notes = range_notes fs fe n;
          great_notes = great_notes_or a;
          body_fever = body_count-count_body fs fe n;
          body_great = ground (arith, t, g, h.0, h.1, body_count-count_body gs ge n);
          body_fever_great =
              ground (arith, t, f, h.0, h.1, body_overlap_count-count_body fs fe gs ge n);
        }
  ]

-- Adding Greats at the end of the fever, none of which is a Great already.
early_greats :
    (n fs fe es ee : ℕ) (great : ℕ → Bool) (e : Edge)
    → ((k : ℕ) → (great k && in_range es ee k) ≡ false)
    → fs ≤ es
    → ee ≤ fe
    → Packs n (in_range fs fe) great e
    → Packs n
        (in_range fs fe)
        (λ k. great k || in_range es ee k)
        (record e {
          great = or_mask e.great (range_mask es ee n);
          body_great = e.body_great + body_count es ee n;
          body_fever_great = e.body_fever_great + body_overlap_count fs fe es ee n;
        })
early_greats n fs fe es ee great e apart l m p =
    let more = count_body-or n great (in_range es ee) apart in
    let split =
      count_body-same n (λ k. in_range fs fe k && (great k || in_range es ee k))
        (λ k. (in_range fs fe k && great k) || (in_range fs fe k && in_range es ee k))
        (λ k. ground arith) in
    let both =
      count_body-or n (λ k. in_range fs fe k && great k) (λ k. in_range fs fe k && in_range es ee k)
        (λ k. ground (arith, apart k)) in
    record {
      fever_notes = p.fever_notes;
      great_notes = λ k h. ground (
        arith,
        head_note-or_mask e.great (range_mask es ee n) k,
        p.great_notes k h,
        range_notes es ee n k h,
      );
      body_fever = p.body_fever;
      body_great = omega (arith, more, p.body_great, body_count-count_body es ee n);
      body_fever_great =
          omega
            (arith, split, both, p.body_fever_great, body_overlap_count-count_body fs fe es ee n);
    }

-- An edge with early Greats describes the section with those notes as Greats too, where they
-- follow the Great run and the activation and lie in the fever; an empty range of them adds none.
pub pack_edge_eg-Packs :
    (n fs fe gs ge es ee : ℕ) (activation : Option ℕ)
    → IsInFever fs fe activation
    → ge ≤ es
    → IsInFever fs es activation
    → fs ≤ es
    → ee ≤ fe
    → Packs n
        (in_range fs fe)
        (λ k. great_in_edge gs ge activation k || in_range es ee k)
        (pack_edge_eg n fs fe gs ge activation es ee)
unfolding pack_edge_eg
pack_edge_eg-Packs n fs fe gs ge es ee activation h l before m r =
    let p = pack_edge-Packs n fs fe gs ge activation h in
    elim (ltb-cases es ee) [
      | inl (t, u) ↦ rw t (
          early_greats n fs fe es ee (great_in_edge gs ge activation)
            (pack_edge n fs fe gs ge activation) (apart activation l before) m r p)
      | inr (t, u) ↦ rw t (same_greats activation u p)
    ]
  where
    apart :
        (activation : Option ℕ)
        → ge ≤ es
        → IsInFever fs es activation
        → (k : ℕ) → (great_in_edge gs ge activation k && in_range es ee k) ≡ false
    apart none l before k = ground (arith, l)
    apart (some a) l before k = ground (arith, l, before.1)

    same_greats :
        (activation : Option ℕ)
        → ee ≤ es
        → Packs n
            (in_range fs fe)
            (great_in_edge gs ge activation)
            (pack_edge n fs fe gs ge activation)
        → Packs n
            (in_range fs fe)
            (λ k. great_in_edge gs ge activation k || in_range es ee k)
            (pack_edge n fs fe gs ge activation)
    same_greats activation u p =
        let g = great_in_edge gs ge activation in
        record {
          fever_notes = p.fever_notes;
          great_notes = λ k b. ground (arith, p.great_notes k b, u);
          body_fever = p.body_fever;
          body_great =
              p.body_great
              ∙ count_body-same n g (λ k. g k || in_range es ee k) (λ k. ground (arith, u));
          body_fever_great =
              p.body_fever_great
              ∙ count_body-same n (λ k. in_range fs fe k && g k)
                  (λ k. in_range fs fe k && (g k || in_range es ee k)) (λ k. ground (arith, u));
        }
