-- ===== src/Fill.antt =====
-- gear_optimizer/frontier/fill_crossing.py: the note at which the fever bar is full, in closed
-- form. The bar counts half-units: a Perfect adds 2, a Great 1, and it is full at twice the fill
-- denominator.
--
-- The fill denominator, a Python float, is a fraction `num / den` (every finite float is one), and
-- the closed forms are exact in it: the source's own caveat sets their float boundary cases aside. The walk of
-- Fill/Walk adds rounded floats, and Fill/Exact says where it agrees with an exact bar. A
-- denominator that is not positive is any fraction with `num` zero. Note indices are natural
-- numbers, and `-` stops at 0 only where Fill/Run proves that the source's difference is positive.
pub mod Walk
pub mod Exact
pub mod Units
pub mod Run
pub mod Gates
pub mod Fixed
pub mod Rounding
mod Tests
use ro_beats_calculator_engi.Common.{
  ℕ, zero, suc, ◌+◌, ◌-◌, ◌*◌, ◌≤◌, ◌<◌, min, max, Bool, true, false, not, Option, none, some,
  Result, ok, err, Error, value_error, raise_if, ◌>>=◌, leb, ltb, ◌==◌, if◌then◌else◌, ◌&&◌,
}
use ro_beats_calculator_engi.Common.Ceil.{ceil_div}

pub record Denom : Type 0 where
  pub num : ℕ
  pub den : ℕ

pub record IsPositive (d : Denom) : Type 0 where
  pub num_pos : 0 < d.num
  pub den_pos : 0 < d.den

-- `denom <= 0.0`
abbrev pub not_positive : Denom → Bool
not_positive d = d.num == 0

-- Whether `u` half-units are at least the denominator: `0.5 * u >= denom`.
unfoldable pub reaches : Denom → ℕ → Bool
reaches d u = leb (2 * d.num) (u * d.den)

-- `ceil(denom)`, `ceil(2.0 * (denom - p))` and `ceil(denom - p - 0.5 * k)`.
unfoldable pub ceil_denom : Denom → ℕ
unfolding ceil_div
ceil_denom d = ceil_div d.num d.den

unfoldable pub ceil_twice_less : Denom → ℕ → ℕ
unfolding ceil_div
ceil_twice_less d p = ceil_div (2 * (d.num - p * d.den)) d.den

unfoldable pub ceil_less_half : Denom → ℕ → ℕ → ℕ
unfolding ceil_div
ceil_less_half d p k = ceil_div (2 * (d.num - p * d.den) - k * d.den) (2 * d.den)

-- `(i, great) if i < n else (None, False)`
abbrev pub within : ℕ → ℕ → Bool → Option ℕ × Bool
within n i great = if ltb i n then (some i, great) else (none, false)

-- The three regions after the run is clipped to [g0, g0 + k), with `p` Perfects before it.
unfoldable pub crossing_regions : Denom → ℕ → ℕ → ℕ → ℕ → Option ℕ × Bool
crossing_regions d s g0 k n =
    let p = g0 - s in
    let i1 = s + ceil_denom d - 1 in
    let i2 = g0 + ceil_twice_less d p - 1 in
    let i3 = g0 + k + ceil_less_half d p k - 1 in
    if ltb i1 g0
    then within n i1 false
    else if ltb i2 (g0 + k)
    then within n (if ltb i2 g0 then g0 else i2) true
    else within n i3 false

unfoldable pub server_fill_crossing_run : ℕ → ℕ → ℕ → Denom → ℕ → Result (Option ℕ × Bool)
unfolding crossing_regions
server_fill_crossing_run start great_run_start k d n =
    let run_lo = if ltb start great_run_start then great_run_start else start in
    let run_hi = if ltb (great_run_start + k) n then great_run_start + k else n in
    if not_positive d
    then err value_error
    else if leb run_hi run_lo
    then ok (within n (start + ceil_denom d - 1) false)
    else ok (crossing_regions d start run_lo (run_hi - run_lo) n)

-- `0 if first else 1`: a later section's first note after the fever does not fill.
abbrev pub wasted : Bool → ℕ
wasted first = if first then 0 else 1

-- bar_before < denom and bar_before + 0.5 >= denom, bar_before = 0.5 * prefix + perfects_before
unfoldable pub late_great_prefix_is_legal : ℕ → ℕ → Denom → Bool → Result Bool
late_great_prefix_is_legal fill prefix d first =
    let bar = prefix + 2 * (fill - wasted first - prefix) in
    if not_positive d
    then err value_error
    else if ltb fill (wasted first + prefix)
    then ok false
    else ok (not (reaches d bar) && reaches d (bar + 1))

-- `ceil(denom + 0.5 * k)`, less one on a first section (`max(0, fill - 1)`).
unfoldable pub perfect_fill_crossing_offset : Denom → ℕ → Bool → ℕ
perfect_fill_crossing_offset d k first =
    let fill = ceil_div (2 * d.num + k * d.den) (2 * d.den) in if first then fill - 1 else fill

-- `slots - 0.5 * k < denom`, where `slots` may be -1 (fill 0 on a later section) only for a k that
-- the earlier test refuses.
unfoldable pub perfect_crossing_is_region3 : ℕ → ℕ → Bool → Denom → Result Bool
perfect_crossing_is_region3 fill k first d =
    let slots = fill - wasted first in
    if not_positive d
    then err value_error
    else if k == 0
    then ok true
    else if ltb slots k
    then ok false
    else ok (not (reaches d (2 * slots - k)))

unfoldable pub late_great_activation_prefix : ℕ → ℕ → Bool → Denom → Result (Option ℕ)
unfolding late_great_prefix_is_legal
late_great_activation_prefix fill k first d =
    let prefix = min (k - 1) (fill - wasted first) in
    if k == 0
    then ok none
    else late_great_prefix_is_legal fill prefix d first >>= λ legal.
        ok (if legal then some prefix else none)
