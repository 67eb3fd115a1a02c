-- ===== src/Queue/Tests.antt =====
-- The seeds of a small queue whose first seeds collide.
use Prim.Native.String.{String}
use text.Mathlib.Text.{◌==◌ as str_eq}
use ro_beats_calculator_engi.Common.{
  ℕ, suc, true, if◌then◌else◌, ◌<◌, ◌^◌, ◌≡◌, refl, false, Option, none, some, List, [], ◌∷◌, map,
  arith, length,
}
use ro_beats_calculator_engi.Queue.{
  Solve, SongTask, free_seed, member, turns, seeded_tasks, repeats_of, tasks_of, seeded_task,
}
use ro_beats_calculator_engi.Queue.Order.{Texts, RunSettings}
use ro_beats_calculator_engi.Queue.Seeds.{free_seed_total}

abbrev solves : List Solve
solves =
    record { path = "a.txt"; name = "Night"; mode = "precise" }
    ∷ record { path = "a.txt"; name = "Night"; mode = "non-precise" }
    ∷ []

-- A checksum under which both modes start from the same seed.
abbrev same_crc : Solve → ℕ
same_crc s = 5

abbrev seeds_of : Option (List SongTask) → List ℕ
seeds_of o = elim o [ none ↦ [] | some tasks ↦ map (λ t. t.seed) tasks ]

collision : seeds_of (seeded_tasks same_crc 0 1 solves) ≡ 2654435766 ∷ 2654435767 ∷ []
unfolding seeded_tasks turns repeats_of tasks_of seeded_task free_seed member
collision = refl

abbrev ends : List ℕ
ends = 4294967295 ∷ 0 ∷ []

free_seed_total_example :
    (s : ℕ) × (free_seed (suc (length ends)) ends 4294967295 ≡ some s)
    × (s < 2 ^ 32)
    × (member s ends ≡ false)
free_seed_total_example = free_seed_total 4294967295 ends (omega arith) (omega arith)

abbrev texts : Texts
texts = record {
  strip = λ s. s;
  lower = λ s. s;
  capitalize = λ s. s;
  casefold = λ s. s;
  split_colors = λ s. s ∷ [];
  is_in = λ part whole. true;
  text_lt = λ a b. false;
}

abbrev settings : RunSettings
settings = record {
  difficulty = "Hard";
  song_name = "";
  target_primary = "Rush";
  target_secondary = "any";
  song_repeats = 2;
  song_queue_limit = 3;
}

abbrev stored : String → String → Option ℕ
stored mode name = if str_eq mode "precise" then some 5 else none

abbrev files : String → List (String × List (String × String))
files difficulty =
    ("a.txt", ("Song Name", "Night") ∷ ("Primary Color", "Rush") ∷ [])
    ∷ ("b.txt", ("Song Name", "Day") ∷ ("Primary Color", "Vibe") ∷ [])
    ∷ []
