-- ===== src/Cache/Tests.antt =====
-- A cache of two entries: the third key evicts the one that was used least recently.
use Prim.Native.String.{String}
use ro_beats_calculator_engi.Common.{ℕ, ◌≡◌, refl, true, false, none, some, List, [], ◌∷◌, arith}
use ro_beats_calculator_engi.Cache.{
  Key, same_key, has_prefix, value_of, without_key, evict, lru_get, lru_contains, lru_put, lru_pop,
  lru_pop_prefix,
}
use ro_beats_calculator_engi.Cache.Lru.{IsLru, Call, get, put, run, run-IsLru}

program : Unit {0}
unfolding same_key has_prefix value_of without_key evict lru_get lru_contains lru_put lru_pop
    lru_pop_prefix run
program = tt

abbrev key : String → Key
key song = "surface" ∷ song ∷ []

abbrev calls : List (Call ℕ)
calls =
    put false (key "a") 1
    ∷ put false (key "b") 2
    ∷ get false (key "a")
    ∷ put true (key "d") 4
    ∷ put false (key "c") 3
    ∷ []

abbrev empty : List (Key × ℕ)
empty = []

kept : run 2 empty calls ≡ (key "a", 1) ∷ (key "c", 3) ∷ []
unfolding program
kept = refl

abbrev mixed : List (Key × ℕ)
mixed = (key "a", 1) ∷ ("other" ∷ [], 2) ∷ []

dropped : lru_pop_prefix ("surface" ∷ []) mixed ≡ (("other" ∷ [], 2) ∷ [], 1)
unfolding program
dropped = refl

run-IsLru_example :
    IsLru 2 (run 2 empty calls)
    × ((lru_get false (key "e") (lru_put false 2 (key "e") 5 (run 2 empty calls))).1 ≡ some 5)
    × ((lru_get true (key "e") (run 2 empty calls)).1 ≡ none)
run-IsLru_example =
    run-IsLru 2 empty calls (key "e") 5 (record { distinct = tt; within = omega arith })
      (omega arith)
