-- ===== src/Cache.antt =====
-- MemoryLru of gear_optimizer/frontier/cache.py: the entries of a process in order of use, least recent
-- first.
--
-- A key is a tuple of texts. `ephemeral` is what frontier_cache_is_ephemeral answers at the call; the
-- lock makes each method one step.
pub mod Keys
pub mod Lru
mod Tests
use Prim.Native.String.{String}
use text.Mathlib.Text.{◌==◌ as str_eq}
use ro_beats_calculator_engi.Common.{
  ℕ, zero, suc, ◌+◌, Bool, true, false, not, ◌&&◌, Option, none, some, List, [], ◌∷◌, ◌++◌, length,
  ltb, if◌then◌else◌,
}

abbrev pub Key : Type 0
Key = List String

unfoldable pub same_key : Key → Key → Bool
same_key [] [] = true
same_key [] (y ∷ ys) = false
same_key (x ∷ xs) [] = false
same_key (x ∷ xs) (y ∷ ys) = str_eq x y && same_key xs ys

-- `key[: len(prefix)] == prefix`
unfoldable pub has_prefix : Key → Key → Bool
has_prefix [] key = true
has_prefix (x ∷ xs) [] = false
has_prefix (x ∷ xs) (y ∷ ys) = str_eq y x && has_prefix xs ys

module _ {V : Type 0} where
  unfoldable pub value_of : Key → List (Key × V) → Option V
  value_of key [] = none
  value_of key ((k, v) ∷ entries) = if same_key k key then some v else value_of key entries

  unfoldable pub without_key : Key → List (Key × V) → List (Key × V)
  without_key key [] = []
  without_key key ((k, v) ∷ entries) =
      let rest = without_key key entries in if same_key k key then rest else (k, v) ∷ rest

  -- `while len(self._entries) > self._max_entries: self._entries.popitem(last=False)`
  unfoldable pub evict : ℕ → List (Key × V) → List (Key × V)
  evict max_entries [] = []
  evict max_entries (e ∷ entries) =
      let rest = evict max_entries entries in
      if ltb max_entries (length (e ∷ entries)) then rest else e ∷ entries

  unfoldable pub lru_get : Bool → Key → List (Key × V) → List (Key × V) × Option V
  lru_get true key entries = (entries, none)
  lru_get false key entries = elim (value_of key entries) [
    | none ↦ (entries, none)
    | some value ↦ (without_key key entries ++ (key, value) ∷ [], some value)
  ]

  unfoldable pub lru_contains : Bool → Key → List (Key × V) → Bool
  lru_contains true key entries = false
  lru_contains false key entries = elim (value_of key entries) [ none ↦ false | some value ↦ true ]

  unfoldable pub lru_put : Bool → ℕ → Key → V → List (Key × V) → List (Key × V)
  lru_put true max_entries key value entries = entries
  lru_put false max_entries key value entries =
      evict max_entries (without_key key entries ++ (key, value) ∷ [])

  unfoldable pub lru_pop : Key → List (Key × V) → List (Key × V)
  lru_pop key entries = without_key key entries

  -- The entries that are left, and how many were dropped.
  unfoldable pub lru_pop_prefix : Key → List (Key × V) → List (Key × V) × ℕ
  lru_pop_prefix prefix [] = ([], 0)
  lru_pop_prefix prefix ((k, v) ∷ entries) =
      let rest = lru_pop_prefix prefix entries in
      if has_prefix prefix k then (rest.0, suc rest.1) else ((k, v) ∷ rest.0, rest.1)

  abbrev pub lru_clear : List (Key × V) → List (Key × V)
  lru_clear entries = []
