-- ===== src/Successors.antt =====
-- The stamped successor arrays of gear_optimizer/frontier/producer_kernels.py: live indices, removed one
-- by one, with the paths that a search follows made short.
--
-- `removed i` is `successor_stamps[i] == successor_epoch`. The while loops are on fuel, and none is its
-- lack.
pub mod Live
mod Tests
use ro_beats_calculator_engi.Common.{
  ℕ, zero, suc, ◌+◌, Bool, true, false, Option, none, some, ◌==◌, if◌then◌else◌,
}
use ro_beats_calculator_engi.Common.Options.{◌>>=◌}

pub record Successors : Type 0 where
  pub successor : ℕ → ℕ
  pub removed : ℕ → Bool

abbrev pub write {ℓ} : {A : Type ℓ} → (ℕ → A) → ℕ → A → ℕ → A
write array at value i = if at == i then value else array i

-- The first loop of `_numba_successor_find`.
unfoldable pub find_root : ℕ → Successors → ℕ → Option ℕ
find_root zero s root = none
find_root (suc fuel) s root =
    let next = find_root fuel s (s.successor root) in if s.removed root then next else some root

-- The second.
unfoldable pub compress : ℕ → Successors → ℕ → ℕ → Option Successors
compress zero s root cursor = none
compress (suc fuel) s root cursor =
    let next =
      compress fuel (record s { successor = write s.successor cursor root }) root
        (s.successor cursor) in
    if s.removed cursor then next else some s

unfoldable pub successor_find : ℕ → Successors → ℕ → Option (Successors × ℕ)
successor_find fuel s index = do
  root ← find_root fuel s index
  compressed ← compress fuel s root index
  some (compressed, root)

unfoldable pub successor_remove : ℕ → Successors → ℕ → Option (Successors × ℕ)
successor_remove fuel s index = do
  found ← successor_find fuel s (suc index)
  some (
    record {
      successor = write found.0.successor index found.1;
      removed = write found.0.removed index true;
    },
    found.1,
  )
