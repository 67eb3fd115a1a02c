-- ===== src/Successors/Tests.antt =====
-- Six indices of which 3 and 4 are removed.
use ro_beats_calculator_engi.Common.{suc, ◌≡◌, refl, some, leb, ltb, ◌&&◌, arith}
use ro_beats_calculator_engi.Successors.{
  Successors, find_root, compress, successor_find, successor_remove,
}
use ro_beats_calculator_engi.Successors.Live.{AreSuccessors}

program : Unit {0}
unfolding find_root compress successor_find successor_remove
program = tt

abbrev arrays : Successors
arrays = record { successor = λ i. suc i; removed = λ i. leb 3 i && ltb i 5 }

arrays-AreSuccessors : AreSuccessors 5 arrays
arrays-AreSuccessors i t = (omega arith, ground (arith, t), λ j lo hi. ground (arith, t, lo, hi))

found : (p : Successors) × (successor_find 6 arrays 3 ≡ some (p, 5)) × (p.successor 3 ≡ 5)
unfolding program
found = (record { successor = _; removed = _ }, refl, refl)
