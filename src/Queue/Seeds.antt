-- ===== src/Queue/Seeds.antt =====
-- The search for a free seed ends, and the tasks' seeds are distinct words.
use Prim.Native.Nat.{bit_and}
use ro_beats_calculator_engi.Common.{
  ℕ, zero, suc, ◌+◌, ◌*◌, ◌%◌, ◌^◌, ◌≤◌, ◌<◌, ◌≡◌, refl, ap, true, false, none, some, List, [], ◌∷◌,
  ◌==◌, if◌then◌else◌, length, length-append, arith, Bool-cases, Option-cases, inl, inr,
}
use ro_beats_calculator_engi.Common.Words.{bit_and-mask}
use ro_beats_calculator_engi.Queue.{
  Solve, SongTask, mask, member, free_seed, first_seed, seeded_task, repeats_of, turns, tasks_of,
  seeded_tasks,
}

-- The list without the first occurrence of an element.
abbrev remove : ℕ → List ℕ → List ℕ
remove x [] = []
remove x (y ∷ ys) = let rest = remove x ys in if x == y then ys else y ∷ rest

length-remove : (x : ℕ) (ys : List ℕ) → member x ys ≡ true → suc (length (remove x ys)) ≡ length ys
unfolding member
length-remove x [] h = ground (arith, h)
length-remove x (y ∷ ys) h = ground (arith, h, length-remove x ys)

member-remove :
    (x z : ℕ) (ys : List ℕ) → (x == z) ≡ false → member z ys ≡ true → member z (remove x ys) ≡ true
unfolding member
member-remove x z [] n h = ground (arith, h)
member-remove x z (y ∷ ys) n h = ground (arith, n, h, member-remove x z ys)

shifted_ne : (s i : ℕ) → suc i < 2 ^ 32 → (s % 2 ^ 32 == (suc s + i) % 2 ^ 32) ≡ false
shifted_ne s i l = ground arith

next_used :
    (s i : ℕ) (used : List ℕ)
    → member ((s + suc i) % 2 ^ 32) used ≡ true
    → member ((suc s + i) % 2 ^ 32) used ≡ true
next_used s i used h =
    let e : (s + suc i) % 2 ^ 32 ≡ (suc s + i) % 2 ^ 32 =
      ap (λ (t : ℕ). t % 2 ^ 32) (omega arith) in
    rw e at h

-- Consecutive words that are all used are at most as many as the used ones.
used_run :
    (n s : ℕ) (used : List ℕ)
    → n ≤ 2 ^ 32
    → ((i : ℕ) → i < n → member ((s + i) % 2 ^ 32) used ≡ true)
    → n ≤ length used
used_run zero s used l h = omega arith
used_run (suc n) s used l h =
    let same : (s + 0) % 2 ^ 32 ≡ s % 2 ^ 32 = omega arith in
    let first = h 0 (omega arith) in
    let here : member (s % 2 ^ 32) used ≡ true = rw same at first in
    let shorter = length-remove (s % 2 ^ 32) used here in
    let rest = used_run n (suc s) (remove (s % 2 ^ 32) used) (omega (arith, l)) (λ i b.
      member-remove (s % 2 ^ 32) ((suc s + i) % 2 ^ 32) used (shifted_ne s i (omega (arith, b, l)))
        (next_used s i used (h (suc i) (omega (arith, b))))) in
    omega (arith, shorter, rest)

free_seed-none :
    (fuel seed : ℕ) (used : List ℕ)
    → seed < 2 ^ 32
    → free_seed fuel used seed ≡ none
    → (i : ℕ) → i < fuel
    → member ((seed + i) % 2 ^ 32) used ≡ true
unfolding free_seed
free_seed-none zero seed used b h i l = absurd (omega (arith, l))
free_seed-none (suc fuel) seed used b h i l = elim (Bool-cases (member seed used)) [
  | inr t ↦ absurd (ground (arith, t, h))
  | inl t ↦
      let next = bit_and-mask 32 (seed + 1) in
      let later : free_seed fuel used ((seed + 1) % 2 ^ 32) ≡ none = ground (arith, t, h, next) in
      let rest = free_seed-none fuel ((seed + 1) % 2 ^ 32) used (omega arith) later in
      stop_or_go seed i used b t (λ j e. rest j (omega (arith, e, l)))
]
  where
    stop_or_go :
        (seed i : ℕ) (used : List ℕ)
        → seed < 2 ^ 32
        → member seed used ≡ true
        → ((j : ℕ) → i ≡ suc j → member (((seed + 1) % 2 ^ 32 + j) % 2 ^ 32) used ≡ true)
        → member ((seed + i) % 2 ^ 32) used ≡ true
    stop_or_go seed zero used b t rest =
        let e : (seed + 0) % 2 ^ 32 ≡ seed = omega (arith, b) in rw e t
    stop_or_go seed (suc j) used b t rest =
        let e : (seed + suc j) % 2 ^ 32 ≡ ((seed + 1) % 2 ^ 32 + j) % 2 ^ 32 = omega arith in
        rw e (rest j refl)

free_seed-some :
    (fuel seed : ℕ) (used : List ℕ) (s : ℕ)
    → seed < 2 ^ 32
    → free_seed fuel used seed ≡ some s
    → (s < 2 ^ 32) × (member s used ≡ false)
unfolding free_seed
free_seed-some zero seed used s b h = absurd (ground (arith, h))
free_seed-some (suc fuel) seed used s b h = elim (Bool-cases (member seed used)) [
  | inr t ↦ ground (arith, t, h, b)
  | inl t ↦
      let next = bit_and-mask 32 (seed + 1) in
      let later : free_seed fuel used ((seed + 1) % 2 ^ 32) ≡ some s = ground (arith, t, h, next) in
      free_seed-some fuel ((seed + 1) % 2 ^ 32) used s (omega arith) later
]

-- While fewer than 2 ^ 32 seeds are used, the loop that looks for a free seed ends after at most as
-- many steps as there are used seeds, on a word that is not used.
pub free_seed_total :
    (seed : ℕ) (used : List ℕ)
    → seed < 2 ^ 32
    → length used < 2 ^ 32
    → (s : ℕ) × (free_seed (suc (length used)) used seed ≡ some s)
      × (s < 2 ^ 32)
      × (member s used ≡ false)
free_seed_total seed used b l = elim (Option-cases (free_seed (suc (length used)) used seed)) [
  | inl e ↦
      let run = free_seed-none (suc (length used)) seed used b e in
      let few = used_run (suc (length used)) seed used (omega (arith, l)) run in
      absurd (omega (arith, few))
  | inr (s, e) ↦
      let (word, fresh) = free_seed-some (suc (length used)) seed used s b e in (s, e, word, fresh)
]

-- The tasks are those of the turns, in order, and each seed is a word that no task before has.
abbrev pub Seeded : ℕ → List ℕ → List (Solve × ℕ) → List SongTask → Type 0
Seeded repeats used [] [] = Unit
Seeded repeats used [] (t ∷ tasks) = ⊥
Seeded repeats used (turn ∷ rest) [] = ⊥
Seeded repeats used ((s, n) ∷ rest) (t ∷ tasks) =
    (t.path ≡ s.path)
    × (t.name ≡ s.name)
    × (t.mode ≡ s.mode)
    × (t.repeat ≡ n)
    × (t.repeats ≡ repeats)
    × (t.seed < 2 ^ 32)
    × (member t.seed used ≡ false)
    × Seeded repeats (t.seed ∷ used) rest tasks

abbrev task_of : Solve → ℕ → ℕ → ℕ → SongTask
task_of s seed n repeats = record {
  path = s.path;
  name = s.name;
  mode = s.mode;
  seed = seed;
  repeat = n;
  repeats = repeats;
}

tasks_of-cons :
    (crc32 : Solve → ℕ) (seed_base repeats : ℕ) (used : List ℕ) (s : Solve) (n : ℕ)
    → (rest : List (Solve × ℕ)) (seed : ℕ) (tasks : List SongTask)
    → free_seed (suc (length used)) used (first_seed seed_base (crc32 s) n) ≡ some seed
    → tasks_of crc32 seed_base repeats (seed ∷ used) rest ≡ some tasks
    → tasks_of crc32 seed_base repeats used ((s, n) ∷ rest)
      ≡ some (task_of s seed n repeats ∷ tasks)
unfolding tasks_of seeded_task
tasks_of-cons crc32 seed_base repeats used s n rest seed tasks e f =
    rw (e, tasks_of, seeded_task) (rw (f, tasks_of) refl)

tasks_of-Seeded :
    (crc32 : Solve → ℕ) (seed_base repeats : ℕ) (used : List ℕ) (todo : List (Solve × ℕ))
    → length used + length todo ≤ 2 ^ 32
    → (tasks : List SongTask) × (tasks_of crc32 seed_base repeats used todo ≡ some tasks)
      × Seeded repeats used todo tasks
unfolding tasks_of
tasks_of-Seeded crc32 seed_base repeats used [] l = ([], refl, tt)
tasks_of-Seeded crc32 seed_base repeats used ((s, n) ∷ rest) l =
    let from = first_seed seed_base (crc32 s) n in
    let below : from < 2 ^ 32 =
      omega (arith, bit_and-mask 32 (bit_and seed_base mask + crc32 s + n * 2654435761)) in
    let (seed, found, word, fresh) = free_seed_total from used below (omega (arith, l)) in
    let (tasks, made, seeded) =
      tasks_of-Seeded crc32 seed_base repeats (seed ∷ used) rest (omega (arith, l)) in
    (
      task_of s seed n repeats ∷ tasks,
      tasks_of-cons crc32 seed_base repeats used s n rest seed tasks found made,
      (refl, refl, refl, refl, refl, word, fresh, seeded),
    )

length-repeats_of : (s : Solve) (from n : ℕ) → length (repeats_of s from n) ≡ n
unfolding repeats_of
length-repeats_of s from zero = refl
length-repeats_of s from (suc n) = omega (arith, length-repeats_of s (suc from) n)

length-turns : (solves : List Solve) (n : ℕ) → length (turns solves n) ≡ length solves * n
unfolding turns
length-turns [] n = omega arith
length-turns (s ∷ solves) n = grind (
  arith,
  length-append (repeats_of s 1 n) (turns solves n),
  length-repeats_of s 1 n,
  length-turns solves n,
)

-- With at most 2 ^ 32 runs in all, the loops end, whatever the checksums and the seed base: every
-- solve gets its repeats in order, and every run a 32-bit seed that no run before it has.
pub seeded_tasks-Seeded :
    (crc32 : Solve → ℕ) (seed_base song_repeats : ℕ) (solves : List Solve)
    → length solves * song_repeats ≤ 2 ^ 32
    → (tasks : List SongTask) × (seeded_tasks crc32 seed_base song_repeats solves ≡ some tasks)
      × Seeded song_repeats [] (turns solves song_repeats) tasks
unfolding seeded_tasks
seeded_tasks-Seeded crc32 seed_base song_repeats solves l =
    tasks_of-Seeded crc32 seed_base song_repeats [] (turns solves song_repeats)
      (omega (arith, l, length-turns solves song_repeats))
