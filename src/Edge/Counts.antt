-- ===== src/Edge/Counts.antt =====
-- Counting the notes of the body that pass a test.
use ro_beats_calculator_engi.Common.{
  ℕ, zero, suc, ◌+◌, ◌-◌, min, max, ◌≡◌, refl, sym, ◌∙◌, Bool, false, ◌&&◌, ◌||◌, leb, ltb, arith,
}
use ro_beats_calculator_engi.Edge.{body_count, body_overlap_count}
use ro_beats_calculator_engi.Edge.Masks.{digit}

-- How many notes below n pass the test.
unfoldable pub count_below : ℕ → (ℕ → Bool) → ℕ
count_below zero test = 0
count_below (suc n) test = count_below n test + digit (test n)

-- How many notes after the head pass it.
abbrev pub count_body : ℕ → (ℕ → Bool) → ℕ
count_body n test = count_below n (λ k. leb 100 k && test k)

-- The notes of a range.
abbrev pub in_range : ℕ → ℕ → ℕ → Bool
in_range start end k = leb start k && ltb k end

count_below-range : (n lo hi : ℕ) → count_below n (λ k. leb lo k && ltb k hi) ≡ min hi n - lo
unfolding count_below
count_below-range zero lo hi = ground arith
count_below-range (suc n) lo hi = ground (arith, count_below-range n lo hi)

count_below-same :
    (n : ℕ) (f g : ℕ → Bool) → ((k : ℕ) → f k ≡ g k) → count_below n f ≡ count_below n g
unfolding count_below
count_below-same zero f g h = refl
count_below-same (suc n) f g h = ground (arith, count_below-same n f g h, h n)

pub body_count-count_body :
    (start end n : ℕ) → body_count start end n ≡ count_body n (in_range start end)
unfolding body_count
body_count-count_body start end n =
    let whole = count_below-range n (max start 100) end in
    let same =
      count_below-same n (λ k. leb (max start 100) k && ltb k end)
        (λ k. leb 100 k && in_range start end k) (λ k. ground arith) in
    ground (arith, whole, same)

pub body_overlap_count-count_body :
    (a b c d n : ℕ)
    → body_overlap_count a b c d n ≡ count_body n (λ k. in_range a b k && in_range c d k)
unfolding body_overlap_count
body_overlap_count-count_body a b c d n =
    let whole = count_below-range n (max (max a c) 100) (min b d) in
    let same =
      count_below-same n (λ k. leb (max (max a c) 100) k && ltb k (min b d))
        (λ k. leb 100 k && (in_range a b k && in_range c d k)) (λ k. ground arith) in
    ground (arith, whole, same)

pub count_body-same :
    (n : ℕ) (f g : ℕ → Bool) → ((k : ℕ) → f k ≡ g k) → count_body n f ≡ count_body n g
count_body-same n f g h =
    count_below-same n (λ k. leb 100 k && f k) (λ k. leb 100 k && g k) (λ k. ground (arith, h k))

-- Tests that exclude each other count separately.
pub count_body-or :
    (n : ℕ) (f g : ℕ → Bool)
    → ((k : ℕ) → (f k && g k) ≡ false)
    → count_body n (λ k. f k || g k) ≡ count_body n f + count_body n g
unfolding count_below
count_body-or zero f g h = refl
count_body-or (suc n) f g h = ground (arith, count_body-or n f g h, h n)

-- A single note counts if it is in the body.
pub count_body-single : (n a : ℕ) → count_body n (in_range a (suc a)) ≡ digit (leb 100 a && ltb a n)
unfolding body_count
count_body-single n a = sym (body_count-count_body a (suc a) n) ∙ ground arith
