-- ===== src/Reducer/Runs.antt =====
-- The runs of action fills are exactly the fills.
use ro_beats_calculator_engi.Common.{
  ℕ, suc, ◌≤◌, ◌<◌, ◌≡◌, refl, Bool, false, ◌&&◌, ◌||◌, Option, none, some, List, [], ◌∷◌, leb,
  arith,
}
use ro_beats_calculator_engi.Common.Members.{has}
use ro_beats_calculator_engi.Reducer.{eligible_fills}

-- Each value is greater than the one before it.
abbrev pub Increasing : ℕ → List ℕ → Type 0
Increasing value [] = Unit
Increasing value (next ∷ values) = (value < next) × Increasing next values

abbrev pub IsIncreasing : List ℕ → Type 0
IsIncreasing [] = Unit
IsIncreasing (value ∷ values) = Increasing value values

-- Whether a fill is in one of the inclusive runs.
unfoldable pub in_runs : List ℕ → List ℕ → ℕ → Bool
in_runs [] ends x = false
in_runs (s ∷ starts) [] x = false
in_runs (s ∷ starts) (e ∷ ends) x = (leb s x && leb x e) || in_runs starts ends x

above : (value x : ℕ) (values : List ℕ) → Increasing value values → x ≤ value → has values x ≡ false
unfolding has
above value x [] h l = refl
above value x (next ∷ values) h l = ground (arith, h.0, l, above next x values h.1)

-- A run that does not touch the next one.
abbrev pub Apart : ℕ → List ℕ → Type 0
Apart e [] = Unit
Apart e (s ∷ starts) = suc e < s

abbrev pub Separated : List ℕ → List ℕ → Type 0
Separated [] [] = Unit
Separated [] (e ∷ ends) = ⊥
Separated (s ∷ starts) [] = ⊥
Separated (s ∷ starts) (e ∷ ends) = (s ≤ e) × Apart e starts × Separated starts ends

-- What `np.unique` promises of integers: the same values, in increasing order.
pub record IsUnique (unique : List ℕ → List ℕ) : Type 0 where
  pub increasing : (values : List ℕ) → IsIncreasing (unique values)
  pub same : (values : List ℕ) (x : ℕ) → has (unique values) x ≡ has values x

-- The fills that the runs are built from.
abbrev pub selected : List ℕ → Option (List Bool) → List ℕ
selected fills none = fills
selected fills (some forced) = eligible_fills fills forced
