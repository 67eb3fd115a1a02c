-- ===== src/Queue.antt =====
-- gear_optimizer/pipeline/queue.py: the seeds of a run's tasks (`_seeded_tasks`, with GA_SEED set) and
-- the queue's limit.
--
-- `zlib.crc32` of a solve is an argument. The loop that looks for a free seed runs on fuel.
pub mod Seeds
pub mod Order
mod Tests
use Prim.Native.Nat.{bit_and}
use Prim.Native.String.{String}
use ro_beats_calculator_engi.Common.{
  ℕ, zero, suc, ◌+◌, ◌*◌, ◌-◌, ◌%◌, ◌^◌, Bool, true, false, ◌||◌, Option, none, some, List, [], ◌∷◌,
  ◌++◌, ◌==◌, if◌then◌else◌, length, take,
}

-- `(chart, mode)`
pub record Solve : Type 0 where
  pub path : String
  pub name : String
  pub mode : String

pub record SongTask : Type 0 where
  pub path : String
  pub name : String
  pub mode : String
  pub seed : ℕ
  pub repeat : ℕ
  pub repeats : ℕ

abbrev pub mask : ℕ
mask = 2 ^ 32 - 1

-- `seed in used`
unfoldable pub member : ℕ → List ℕ → Bool
member x [] = false
member x (y ∷ ys) = x == y || member x ys

-- `while seed in used: seed = (seed + 1) & 0xFFFFFFFF`
unfoldable pub free_seed : ℕ → List ℕ → ℕ → Option ℕ
free_seed zero used seed = none
free_seed (suc fuel) used seed =
    let rest = free_seed fuel used (bit_and (seed + 1) mask) in
    if member seed used then rest else some seed

-- `((seed_base & 0xFFFFFFFF) + crc + repeat * 0x9E3779B1) & 0xFFFFFFFF`
abbrev pub first_seed : ℕ → ℕ → ℕ → ℕ
first_seed seed_base crc repeat = bit_and (bit_and seed_base mask + crc + repeat * 2654435761) mask

-- One turn of the inner loop; `used` holds the seeds of the tasks before it.
unfoldable pub seeded_task : (Solve → ℕ) → ℕ → ℕ → List ℕ → Solve → ℕ → Option SongTask
seeded_task crc32 seed_base repeats used solve repeat =
    elim (free_seed (suc (length used)) used (first_seed seed_base (crc32 solve) repeat)) [
      | none ↦ none
      | some seed ↦ some (record {
        path = solve.path;
        name = solve.name;
        mode = solve.mode;
        seed = seed;
        repeat = repeat;
        repeats = repeats;
      })
    ]

-- `for chart, mode in solves: for repeat in range(1, run.song_repeats + 1)`, as one sequence
unfoldable pub repeats_of : Solve → ℕ → ℕ → List (Solve × ℕ)
repeats_of solve from zero = []
repeats_of solve from (suc n) = (solve, from) ∷ repeats_of solve (suc from) n

unfoldable pub turns : List Solve → ℕ → List (Solve × ℕ)
turns [] song_repeats = []
turns (s ∷ solves) song_repeats = repeats_of s 1 song_repeats ++ turns solves song_repeats

unfoldable pub tasks_of : (Solve → ℕ) → ℕ → ℕ → List ℕ → List (Solve × ℕ) → Option (List SongTask)
tasks_of crc32 seed_base repeats used [] = some []
tasks_of crc32 seed_base repeats used ((s, n) ∷ rest) =
    elim (seeded_task crc32 seed_base repeats used s n) [
      | none ↦ none
      | some task ↦ elim (tasks_of crc32 seed_base repeats (task.seed ∷ used) rest) [
        | none ↦ none
        | some tasks ↦ some (task ∷ tasks)
      ]
    ]

unfoldable pub seeded_tasks : (Solve → ℕ) → ℕ → ℕ → List Solve → Option (List SongTask)
seeded_tasks crc32 seed_base song_repeats solves =
    tasks_of crc32 seed_base song_repeats [] (turns solves song_repeats)

-- `tasks[: run.song_queue_limit]`, unless the limit is 0
unfoldable pub limit_tasks : ℕ → List SongTask → List SongTask
limit_tasks zero tasks = tasks
limit_tasks (suc limit) tasks = take (suc limit) tasks
