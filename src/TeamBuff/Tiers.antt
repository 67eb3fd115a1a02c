-- ===== src/TeamBuff/Tiers.antt =====
-- Normalized tiers are canonical and distinct, and an effect raises distinct stats.
use Prim.Native.String.{String}
use text.Mathlib.Text.{◌==◌ as str_eq}
use text.Mathlib.TextEquality.{eq_iff}
use ro_beats_calculator_engi.Common.{
  ℕ, zero, suc, ◌<◌, ◌≡◌, refl, true, false, ◌||◌, Option, none, some, List, [], ◌∷◌, ◌++◌, ltb,
  length, subst, All, arith, Bool-cases, Option-cases, inl, inr,
}
use ro_beats_calculator_engi.Common.Dict.{contains, get, Distinct, keys}
use ro_beats_calculator_engi.TeamBuff.{
  team_buff_tier_effects, tiers, team_buff_elements, canonicalize_team_buff, normalize_team_buff,
  append_tiers, or_else, normalize_team_buff_sequence, color_key, team_buff_effect, entry,
  color_entry,
}

abbrev pub IsTier : String → Type 0
IsTier s = contains s tiers ≡ true

-- Distinct canonical tiers.
abbrev pub AreTiers : List String → Type 0
AreTiers xs = Distinct xs × All IsTier xs

-- Keys of a stat row, each once, and positive amounts.
abbrev pub IsEffect : List (String × ℕ) → Type 0
IsEffect effect =
    Distinct (keys effect)
    × All (λ e. (0 < e.1) × (contains e.0 ("Perfect Points" ∷ team_buff_elements) ≡ true)) effect

contains-append :
    (k j : String) (xs : List String) → contains k (xs ++ j ∷ []) ≡ (contains k xs || str_eq j k)
unfolding contains
contains-append k j [] = ground arith
contains-append k j (x ∷ xs) = ground (arith, contains-append k j xs)

AreTiers-append :
    (xs : List String) (t : String)
    → AreTiers xs
    → IsTier t
    → contains t xs ≡ false
    → AreTiers (xs ++ t ∷ [])
unfolding contains
AreTiers-append [] t v h n = ((refl, tt), (h, tt))
AreTiers-append (x ∷ xs) t v h n =
    let rest = AreTiers-append xs t (v.0.1, v.1.1) h (ground (arith, n)) in
    (
      (ground (arith, contains-append x t xs, n, v.0.0, eq_iff t x, eq_iff x t), rest.0),
      (v.1.0, rest.1),
    )

five : IsTier "T5"
unfolding contains
five = refl

module _ (upper strip lower : String → String) where
  canonical :
      (value : String)
      → (str_eq (canonicalize_team_buff upper strip lower value) "") ≡ false
      → IsTier (canonicalize_team_buff upper strip lower value)
  unfolding canonicalize_team_buff
  canonical value h = elim (Bool-cases (str_eq (upper value) "")) [
    | inl t ↦ let no = rw t at h in cc
    | inr t ↦ elim (Bool-cases (contains (upper value) tiers)) [
      | inl c ↦ rw (t, c) c
      | inr c ↦ let no = rw (t, c) at h in cc
    ]
  ]

  -- Whatever the texts, the normalized tier is one of the seven.
  normalize_team_buff-IsTier :
      (value default : String) → IsTier (normalize_team_buff upper strip lower value default)
  unfolding normalize_team_buff
  normalize_team_buff-IsTier value default =
      let s = canonicalize_team_buff upper strip lower value in
      let d = canonicalize_team_buff upper strip lower default in
      elim (Bool-cases (str_eq s "")) [
        | inr t ↦ rw t (canonical value t)
        | inl t ↦ elim (Bool-cases (str_eq d "")) [
          | inr e ↦ rw (t, e) (canonical default e)
          | inl e ↦ rw (t, e) five
        ]
      ]

  append_tiers-AreTiers :
      (out source : List String)
      → AreTiers out
      → AreTiers (append_tiers upper strip lower out source)
  unfolding append_tiers
  append_tiers-AreTiers out [] v = v
  append_tiers-AreTiers out (raw ∷ source) v =
      let tier = canonicalize_team_buff upper strip lower raw in
      elim (Bool-cases (str_eq tier "")) [
        | inl t ↦ rw t (append_tiers-AreTiers out source v)
        | inr t ↦ elim (Bool-cases (contains tier out)) [
          | inl c ↦ rw (t, c) (append_tiers-AreTiers out source v)
          | inr c ↦
              rw (t, c)
                (append_tiers-AreTiers (out ++ tier ∷ []) source
                  (AreTiers-append out tier v (canonical raw t) c))
        ]
      ]

  or_else-AreTiers :
      (xs ys : List String) → AreTiers xs → AreTiers ys → AreTiers (or_else upper strip lower xs ys)
  or_else-AreTiers [] ys v w = w
  or_else-AreTiers (x ∷ xs) ys v w = v

  or_else-nonempty :
      (xs ys : List String)
      → ltb 0 (length ys) ≡ true
      → ltb 0 (length (or_else upper strip lower xs ys)) ≡ true
  or_else-nonempty [] ys h = h
  or_else-nonempty (x ∷ xs) ys h = ground arith

  -- Whatever the texts, a normalized sequence is not empty and holds canonical tiers, each once.
  pub normalize_team_buff_sequence-AreTiers :
      (given default : List String)
      → AreTiers (normalize_team_buff_sequence upper strip lower given default)
        × (ltb 0 (length (normalize_team_buff_sequence upper strip lower given default)) ≡ true)
  unfolding normalize_team_buff_sequence contains
  normalize_team_buff_sequence-AreTiers given default =
      let source = or_else upper strip lower given default in
      let first = append_tiers upper strip lower [] source in
      let fallback = append_tiers upper strip lower [] default in
      let last : List String = "T5" ∷ [] in
      let a = append_tiers-AreTiers [] source (tt, tt) in
      let b = append_tiers-AreTiers [] default (tt, tt) in
      (
        or_else-AreTiers first (or_else upper strip lower fallback last) a
            (or_else-AreTiers fallback last b ((refl, tt), (five, tt))),
        or_else-nonempty first (or_else upper strip lower fallback last)
            (or_else-nonempty fallback last refl),
      )

  color_key-element :
      (color k : String) (ks : List String)
      → color_key upper strip lower color ks ≡ some k
      → contains k ks ≡ true
  unfolding color_key contains
  color_key-element color k [] h = cc
  color_key-element color k (j ∷ js) h = elim (Bool-cases (str_eq (lower j) (lower color))) [
    | inl t ↦ ground (arith, t, h, eq_iff j k)
    | inr t ↦ ground (arith, t, h, color_key-element color k js)
  ]

  not_points :
      (k : String)
      → contains k team_buff_elements ≡ true
      → contains "Perfect Points" (k ∷ []) ≡ false
  unfolding contains
  not_points k h = elim (Bool-cases (str_eq k "Perfect Points")) [
    | inl t ↦
        let no : contains "Perfect Points" team_buff_elements ≡ true =
          subst (λ x. contains x team_buff_elements ≡ true) ((eq_iff k "Perfect Points").0 t) h in
        absurd (ground (arith, no))
    | inr t ↦ ground (arith, t)
  ]

  raised-Distinct :
      (pp elem : ℕ) (key : Option String)
      → ((k : String) → key ≡ some k → contains k team_buff_elements ≡ true)
      → IsEffect
          (entry upper strip lower "Perfect Points" pp ++ color_entry upper strip lower key elem)
  unfolding contains
  raised-Distinct zero zero none h = (tt, tt)
  raised-Distinct zero zero (some k) h = (tt, tt)
  raised-Distinct zero (suc elem) none h = (tt, tt)
  raised-Distinct zero (suc elem) (some k) h =
      ((refl, tt), ((omega arith, ground (arith, h k refl)), tt))
  raised-Distinct (suc pp) zero none h = ((refl, tt), ((omega arith, refl), tt))
  raised-Distinct (suc pp) zero (some k) h = ((refl, tt), ((omega arith, refl), tt))
  raised-Distinct (suc pp) (suc elem) none h = ((refl, tt), ((omega arith, refl), tt))
  raised-Distinct (suc pp) (suc elem) (some k) h = (
    (not_points k (h k refl), (refl, tt)),
    ((omega arith, refl), ((omega arith, ground (arith, h k refl)), tt)),
  )

  -- A buff raises the Perfect Points and one element, each once and by a positive amount.
  team_buff_effect-IsEffect :
      (team_buff team_color : String)
      → IsEffect (team_buff_effect upper strip lower team_buff team_color)
  unfolding team_buff_effect
  team_buff_effect-IsEffect team_buff team_color =
      elim (Option-cases
        (get (canonicalize_team_buff upper strip lower team_buff) team_buff_tier_effects)) [
          | inl e ↦ rw (e, team_buff_effect) (tt, tt)
          | inr (tier, e) ↦
              let key = color_key upper strip lower (strip team_color) team_buff_elements in
              rw (e, team_buff_effect)
                (raised-Distinct tier.pp tier.elem key
                  (λ k f. color_key-element (strip team_color) k team_buff_elements f))
        ]
