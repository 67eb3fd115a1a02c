-- ===== src/Cache/Lru.antt =====
-- The cache within its bound, whatever is called, and what it serves.

use ro_beats_calculator_engi.Common.{
  ℕ, ◌-◌, ◌≤◌, ◌<◌, ◌≡◌, refl, Bool, true, false, none, some, List, [], ◌∷◌, ◌++◌, length,
  length-append, arith, Bool-cases, Option-cases, inl, inr,
}
use ro_beats_calculator_engi.Cache.{
  Key, has_prefix, value_of, without_key, lru_get, lru_put, lru_pop, lru_pop_prefix, lru_clear,
}
use ro_beats_calculator_engi.Cache.Keys.{
  holds-without_key_self, DistinctKeys-without_key, DistinctKeys-append, DistinctKeys-evict,
  length-evict-le, length-without_key-le, length-without_key-lt, holds-lru_pop_prefix,
  value_of-evict, DistinctKeys,
}

module _ {V : Type 0} where
  -- Distinct keys, within the bound.
  pub record IsLru (bound : ℕ) (entries : List (Key × V)) : Type 0 where
    pub distinct : DistinctKeys entries
    pub within : length entries ≤ bound

  lru_get-IsLru :
      (bound : ℕ) (ephemeral : Bool) (key : Key) (entries : List (Key × V))
      → IsLru bound entries
      → IsLru bound (lru_get ephemeral key entries).0
  unfolding lru_get
  lru_get-IsLru bound true key entries v = v
  lru_get-IsLru bound false key entries v = elim (Option-cases (value_of key entries)) [
    | inl e ↦ rw (lru_get, e) v
    | inr (value, e) ↦
        rw (lru_get, e)
          (record {
            distinct =
                DistinctKeys-append key value (without_key key entries)
                  (DistinctKeys-without_key key entries v.distinct)
                  (holds-without_key_self key entries);
            within = omega (
              arith,
              length-append (without_key key entries) ((key, value) ∷ []),
              length-without_key-lt key value entries e,
              v.within,
            );
          })
  ]

  lru_put-IsLru :
      (bound : ℕ) (ephemeral : Bool) (key : Key) (value : V) (entries : List (Key × V))
      → IsLru bound entries
      → IsLru bound (lru_put ephemeral bound key value entries)
  unfolding lru_put
  lru_put-IsLru bound true key value entries v = v
  lru_put-IsLru bound false key value entries v =
      let moved = without_key key entries ++ (key, value) ∷ [] in
      record {
        distinct = DistinctKeys-evict bound moved (
            DistinctKeys-append key value (without_key key entries)
              (DistinctKeys-without_key key entries v.distinct)
              (holds-without_key_self key entries));
        within = length-evict-le bound moved;
      }

  lru_pop_prefix-IsLru :
      (bound : ℕ) (prefix : Key) (entries : List (Key × V))
      → IsLru bound entries
      → IsLru bound (lru_pop_prefix prefix entries).0
  unfolding lru_pop_prefix
  lru_pop_prefix-IsLru bound prefix [] v = v
  lru_pop_prefix-IsLru bound prefix ((k, w) ∷ entries) v =
      let rest =
        lru_pop_prefix-IsLru (bound - 1) prefix entries
          (record { distinct = v.distinct.1; within = omega (arith, v.within) }) in
      elim (Bool-cases (has_prefix prefix k)) [
        | inl t ↦ rw t (record { distinct = rest.distinct; within = omega (arith, rest.within) })
        | inr t ↦ rw t (record {
          distinct = (holds-lru_pop_prefix prefix k entries v.distinct.0, rest.distinct);
          within = omega (arith, rest.within, v.within);
        })
      ]

  lru_pop-IsLru :
      (bound : ℕ) (key : Key) (entries : List (Key × V))
      → IsLru bound entries
      → IsLru bound (lru_pop key entries)
  unfolding lru_pop
  lru_pop-IsLru bound key entries v = record {
    distinct = DistinctKeys-without_key key entries v.distinct;
    within = omega (arith, v.within, length-without_key-le key entries);
  }

-- A call of a method, with the scope that it finds.
pub data Call (V : Type 0) : Type 0 where
  get : Bool → Key → Call V
  put : Bool → Key → V → Call V
  pop : Key → Call V
  pop_prefix : Key → Call V
  clear : Call V

module _ {V : Type 0} where
  abbrev pub step : ℕ → List (Key × V) → Call V → List (Key × V)
  step bound entries (get ephemeral key) = (lru_get ephemeral key entries).0
  step bound entries (put ephemeral key value) = lru_put ephemeral bound key value entries
  step bound entries (pop key) = lru_pop key entries
  step bound entries (pop_prefix prefix) = (lru_pop_prefix prefix entries).0
  step bound entries clear = lru_clear entries

  unfoldable pub run : ℕ → List (Key × V) → List (Call V) → List (Key × V)
  run bound entries [] = entries
  run bound entries (call ∷ calls) = run bound (step bound entries call) calls

  step-IsLru :
      (bound : ℕ) (entries : List (Key × V)) (call : Call V)
      → IsLru bound entries
      → IsLru bound (step bound entries call)
  step-IsLru bound entries (get ephemeral key) v = lru_get-IsLru bound ephemeral key entries v
  step-IsLru bound entries (put ephemeral key value) v =
      lru_put-IsLru bound ephemeral key value entries v
  step-IsLru bound entries (pop key) v = lru_pop-IsLru bound key entries v
  step-IsLru bound entries (pop_prefix prefix) v = lru_pop_prefix-IsLru bound prefix entries v
  step-IsLru bound entries clear v = record { distinct = tt; within = omega arith }

  -- After any calls, in and out of ephemeral scopes, the keys are distinct and the entries within the
  -- bound, if they were so before. A value put outside such a scope is then served outside it, for a
  -- bound above zero, and a scope serves nothing.
  pub run-IsLru :
      (bound : ℕ) (entries : List (Key × V)) (calls : List (Call V)) (key : Key) (value : V)
      → IsLru bound entries
      → 0 < bound
      → IsLru bound (run bound entries calls)
        × ((lru_get false key (lru_put false bound key value (run bound entries calls))).1
            ≡ some value)
        × ((lru_get true key (run bound entries calls)).1 ≡ none)
  unfolding run lru_get lru_put
  run-IsLru bound entries [] key value v pos =
      let served =
        value_of-evict bound key value (without_key key entries) pos
          (holds-without_key_self key entries) in
      (v, rw (lru_get, served) refl, refl)
  run-IsLru bound entries (call ∷ calls) key value v pos =
      run-IsLru bound (step bound entries call) calls key value (step-IsLru bound entries call v)
        pos
