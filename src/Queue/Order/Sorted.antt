-- ===== src/Queue/Order/Sorted.antt =====
-- The queue's order: what was never stored first, then by when it was last stored.
use Prim.Native.String.{String}
use ro_beats_calculator_engi.Common.{
  ℕ, suc, ◌≡◌, Bool, true, false, ◌&&◌, Option, none, some, List, [], ◌∷◌, leb, if◌then◌else◌,
}
use ro_beats_calculator_engi.Queue.Order.{Texts, Chart, when}

-- Whether the first time may come before the second: none before all.
abbrev pub not_after : Option ℕ → Option ℕ → Bool
not_after none b = true
not_after (some a) none = false
not_after (some a) (some b) = leb a b

unfoldable pub count : (Chart × String → Bool) → List (Chart × String) → ℕ
count test [] = 0
count test (x ∷ xs) = if test x then suc (count test xs) else count test xs

module _ (t : Texts) (last_solved : String → String → Option ℕ) where
  -- No solve comes after one that it should come before.
  abbrev pub first_of : Chart × String → List (Chart × String) → Bool
  first_of x [] = true
  first_of x (y ∷ ys) = not_after (when t last_solved x) (when t last_solved y) && first_of x ys

  abbrev pub IsQueue : List (Chart × String) → Type 0
  IsQueue [] = Unit
  IsQueue (x ∷ xs) = (first_of x xs ≡ true) × IsQueue xs
