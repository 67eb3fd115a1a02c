-- ===== src/Reducer/Epochs.antt =====
-- Stamp epochs: whatever the kernel calls before it stamped, a call's epochs are fresh.
use ro_beats_calculator_engi.Common.{
  ℕ, zero, suc, ◌+◌, ◌≤◌, ◌<◌, ◌≡◌, List, [], ◌∷◌, ok, ltb, All, arith, subst, Bool-cases, inl, inr,
  if◌then◌else◌,
}
use ro_beats_calculator_engi.Reducer.{
  stamp_epoch_reset_limit, Workspace, zeros, blank_workspace, make_workspace, cleared,
  reserve_successor_epochs, store_epochs,
}

-- The stamps are no later than their epoch, and the epochs below the reset limit.
pub record IsWorkspace (w : Workspace) : Type 0 where
  pub pair : All (λ stamp. stamp ≤ w.pair_epoch) w.pair_stamps
  pub bits : All (λ stamp. stamp ≤ w.bit_epoch) w.bit_stamps
  pub perfect : All (λ stamp. stamp ≤ w.successor_epoch) w.perfect_successor_stamps
  pub late : All (λ stamp. stamp ≤ w.successor_epoch) w.late_successor_stamps
  pub pair_limit : w.pair_epoch ≤ stamp_epoch_reset_limit
  pub bit_limit : w.bit_epoch ≤ stamp_epoch_reset_limit
  pub successor_limit : w.successor_epoch ≤ stamp_epoch_reset_limit

-- What a kernel call leaves: the stamps and its final epochs.
pub record KernelCall : Type 0 where
  pub count : ℕ
  pub pair_stamps : List ℕ
  pub bit_stamps : List ℕ
  pub perfect_successor_stamps : List ℕ
  pub late_successor_stamps : List ℕ
  pub pair_epoch : ℕ
  pub bit_epoch : ℕ

-- The scratch space around one kernel call, as `_first_frontier_results_for_precomputed_range` uses it.
unfoldable pub around_kernel : Workspace → KernelCall → Workspace
around_kernel w call =
    let w' = (reserve_successor_epochs w call.count).1 in
    store_epochs
      (record w' {
        pair_stamps = call.pair_stamps;
        bit_stamps = call.bit_stamps;
        perfect_successor_stamps = call.perfect_successor_stamps;
        late_successor_stamps = call.late_successor_stamps;
      })
      call.pair_epoch call.bit_epoch

-- The kernel stamps with its own epochs only; the stamps it leaves alone are from before.
pub record IsKernelCall (w : Workspace) (call : KernelCall) : Type 0 where
  pub few : call.count ≤ stamp_epoch_reset_limit
  pub pair : All (λ stamp. stamp ≤ call.pair_epoch) call.pair_stamps
  pub bits : All (λ stamp. stamp ≤ call.bit_epoch) call.bit_stamps
  pub perfect :
      All
        (λ stamp. stamp < (reserve_successor_epochs w call.count).0 + call.count)
        call.perfect_successor_stamps
  pub late :
      All
        (λ stamp. stamp < (reserve_successor_epochs w call.count).0 + call.count)
        call.late_successor_stamps

-- The epochs of a call are not among the stamps that it finds, and fit an int32.
pub record IsFresh (w : Workspace) (count : ℕ) : Type 0 where
  pub perfect :
      All
        (λ stamp. stamp < (reserve_successor_epochs w count).0)
        (reserve_successor_epochs w count).1.perfect_successor_stamps
  pub late :
      All
        (λ stamp. stamp < (reserve_successor_epochs w count).0)
        (reserve_successor_epochs w count).1.late_successor_stamps
  pub limit : (reserve_successor_epochs w count).0 + count ≤ suc stamp_epoch_reset_limit

All-weaken :
    (a b : ℕ) (stamps : List ℕ)
    → a ≤ b
    → All (λ stamp. stamp ≤ a) stamps
    → All (λ stamp. stamp ≤ b) stamps
All-weaken a b [] l h = tt
All-weaken a b (s ∷ stamps) l h = (omega (arith, l, h.0), All-weaken a b stamps l h.1)

All-below :
    (a b : ℕ) (stamps : List ℕ)
    → a < b
    → All (λ stamp. stamp ≤ a) stamps
    → All (λ stamp. stamp < b) stamps
All-below a b [] l h = tt
All-below a b (s ∷ stamps) l h = (omega (arith, l, h.0), All-below a b stamps l h.1)

All-at_most :
    (a b : ℕ) (stamps : List ℕ)
    → b ≤ suc a
    → All (λ stamp. stamp < b) stamps
    → All (λ stamp. stamp ≤ a) stamps
All-at_most a b [] l h = tt
All-at_most a b (s ∷ stamps) l h = (omega (arith, l, h.0), All-at_most a b stamps l h.1)

cleared-zero : (b : ℕ) (stamps : List ℕ) → All (λ stamp. stamp ≤ b) (cleared stamps)
cleared-zero b [] = tt
cleared-zero b (s ∷ stamps) = (omega arith, cleared-zero b stamps)

zeros-zero : (b n : ℕ) → All (λ stamp. stamp ≤ b) (zeros n)
unfolding zeros
zeros-zero b zero = tt
zeros-zero b (suc n) = (omega arith, zeros-zero b n)

reserve_lem :
    (w : Workspace) (count : ℕ)
    → IsWorkspace w
    → count ≤ stamp_epoch_reset_limit
    → IsFresh w count
      × ((reserve_successor_epochs w count).1.successor_epoch + 1
          ≡ (reserve_successor_epochs w count).0 + count)
unfolding reserve_successor_epochs
reserve_lem w count v l =
    elim (Bool-cases (ltb stamp_epoch_reset_limit (w.successor_epoch + count))) [
      | inl t ↦
          let p = cleared-zero 0 w.perfect_successor_stamps in
          let q = cleared-zero 0 w.late_successor_stamps in
          (
            record {
              perfect = rw t (All-below 0 1 (cleared w.perfect_successor_stamps) (omega arith) p);
              late = rw t (All-below 0 1 (cleared w.late_successor_stamps) (omega arith) q);
              limit = rw t (omega (arith, l));
            },
            rw t (omega arith),
          )
      | inr t ↦
          let e = w.successor_epoch in
          (
            record {
              perfect =
                  rw t (All-below e (e + 1) w.perfect_successor_stamps (omega arith) v.perfect);
              late = rw t (All-below e (e + 1) w.late_successor_stamps (omega arith) v.late);
              limit = rw t (ground (arith, t));
            },
            rw t (omega arith),
          )
    ]

stored_lem :
    (stamps : List ℕ) (epoch : ℕ)
    → All (λ stamp. stamp ≤ epoch) stamps
    → (All
        (λ stamp. stamp ≤ (if ltb stamp_epoch_reset_limit epoch then 0 else epoch))
        (if ltb stamp_epoch_reset_limit epoch then cleared stamps else stamps))
      × ((if ltb stamp_epoch_reset_limit epoch then 0 else epoch) ≤ stamp_epoch_reset_limit)
stored_lem stamps epoch h = elim (Bool-cases (ltb stamp_epoch_reset_limit epoch)) [
  | inl t ↦ rw t (cleared-zero 0 stamps, omega arith)
  | inr t ↦ rw t (h, ground (arith, t))
]

around_kernel-IsWorkspace :
    (w : Workspace) (call : KernelCall)
    → IsWorkspace w
    → IsKernelCall w call
    → IsWorkspace (around_kernel w call)
unfolding around_kernel store_epochs
around_kernel-IsWorkspace w call v k =
    let (fresh, same) = reserve_lem w call.count v k.few in
    let w' = (reserve_successor_epochs w call.count).1 in
    let first = (reserve_successor_epochs w call.count).0 in
    let (p, pl) = stored_lem call.pair_stamps call.pair_epoch k.pair in
    let (b, bl) = stored_lem call.bit_stamps call.bit_epoch k.bits in
    record {
      pair = p;
      bits = b;
      perfect =
          All-at_most w'.successor_epoch (first + call.count) call.perfect_successor_stamps
            (omega (arith, same)) k.perfect;
      late =
          All-at_most w'.successor_epoch (first + call.count) call.late_successor_stamps
            (omega (arith, same)) k.late;
      pair_limit = pl;
      bit_limit = bl;
      successor_limit = omega (arith, same, fresh.limit);
    }

-- A thread's kernel calls on one workspace.
unfoldable pub after_calls : Workspace → List KernelCall → Workspace
after_calls w [] = w
after_calls w (call ∷ calls) = after_calls (around_kernel w call) calls

abbrev pub AreKernelCalls : Workspace → List KernelCall → Type 0
AreKernelCalls w [] = Unit
AreKernelCalls w (call ∷ calls) = IsKernelCall w call × AreKernelCalls (around_kernel w call) calls

after_calls-IsWorkspace :
    (calls : List KernelCall) (w : Workspace)
    → IsWorkspace w
    → AreKernelCalls w calls
    → IsWorkspace (after_calls w calls)
unfolding after_calls
after_calls-IsWorkspace [] w v k = v
after_calls-IsWorkspace (call ∷ calls) w v k =
    after_calls-IsWorkspace calls (around_kernel w call) (around_kernel-IsWorkspace w call v k.0)
      k.1

made-IsWorkspace :
    (pair_capacity bit_capacity successor_capacity : ℕ) (w : Workspace)
    → make_workspace pair_capacity bit_capacity successor_capacity ≡ ok w
    → IsWorkspace w
unfolding make_workspace
made-IsWorkspace pair_capacity bit_capacity successor_capacity w h =
    elim (Bool-cases (ltb successor_capacity 1)) [
      | inl t ↦ absurd (ground (arith, t, h))
      | inr t ↦
          let e = rw t at h in
          let same : blank_workspace pair_capacity bit_capacity successor_capacity ≡ w =
            ground (arith, e) in
          subst IsWorkspace same (record {
            pair = zeros-zero 0 pair_capacity;
            bits = zeros-zero 0 bit_capacity;
            perfect = zeros-zero 0 successor_capacity;
            late = zeros-zero 0 successor_capacity;
            pair_limit = omega arith;
            bit_limit = omega arith;
            successor_limit = omega arith;
          })
    ]

-- After any kernel calls on a new workspace, each stamping with its own epochs only, the epochs
-- reserved for up to 2 ^ 30 further geometries are later than every stamp in the successor arrays,
-- so no stale cell is taken for a fresh one, and they stay within 2 ^ 30, so the int32 stamps never
-- overflow.
pub after_calls-IsFresh :
    (pair_capacity bit_capacity successor_capacity count : ℕ)
    → (w : Workspace) (calls : List KernelCall)
    → make_workspace pair_capacity bit_capacity successor_capacity ≡ ok w
    → AreKernelCalls w calls
    → count ≤ stamp_epoch_reset_limit
    → IsFresh (after_calls w calls) count
after_calls-IsFresh pair_capacity bit_capacity successor_capacity count w calls h k l =
    let v = made-IsWorkspace pair_capacity bit_capacity successor_capacity w h in
    (reserve_lem (after_calls w calls) count (after_calls-IsWorkspace calls w v k) l).0
