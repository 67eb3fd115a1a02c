-- ===== src/Reducer/Plan.antt =====
-- The workspace plan is large enough for every geometry, and admission keeps the memory reserve.
use ro_beats_calculator_engi.Common.{
  ℕ, zero, suc, ◌+◌, ◌*◌, ◌/◌, ◌≤◌, ◌≡◌, refl, min, max, ◌||◌, Option, none, some, List, [], ◌∷◌,
  length, ok, err, memory_error, ltb, All, arith, Bool-cases, inl, inr, if◌then◌else◌,
}
use ro_beats_calculator_engi.Reducer.{
  Workspace, zeros, blank_workspace, make_workspace, first_fill, pair_mod, pair_mod_bound_from,
  pair_mod_bound, WorkspacePlan, make_plan, bytes_per_thread, thread_workspace, admit_workspace,
  system_reserve_max_bytes,
}
use ro_beats_calculator_engi.Reducer.Radix.{
  min_later_fill, section_bound, kernel_pair_mod, pair_size, check_workspace,
}

width_mono : (a w b : ℕ) → w ≤ b → a * (1 + w) ≤ a * (1 + b)
width_mono a w b h = grind arith

pair_mod-le :
    (n fill width bound : ℕ) → width ≤ bound → pair_mod n fill width ≤ pair_mod n fill bound
pair_mod-le n fill width bound h = omega (arith, width_mono (n / fill + 4) width bound h)

pair_mod_bound_from-le :
    (start n gap : ℕ) (prepared : List (List ℕ))
    → (start ≤ pair_mod_bound_from start n gap prepared)
      × All
          (λ item. pair_mod n (first_fill item) gap ≤ pair_mod_bound_from start n gap prepared)
          prepared
unfolding pair_mod_bound_from
pair_mod_bound_from-le start n gap [] = (omega arith, tt)
pair_mod_bound_from-le start n gap (item ∷ prepared) =
    let next = max start (pair_mod n (first_fill item) gap) in
    let (here, rest) = pair_mod_bound_from-le next n gap prepared in
    (omega (arith, here), (omega (arith, here), rest))

pair_mod_bound_from-range :
    (start n gap : ℕ) (prepared : List (List ℕ))
    → 1 ≤ start
    → start ≤ n + 1
    → (1 ≤ pair_mod_bound_from start n gap prepared)
      × (pair_mod_bound_from start n gap prepared ≤ n + 1)
unfolding pair_mod_bound_from
pair_mod_bound_from-range start n gap [] h k = (h, k)
pair_mod_bound_from-range start n gap (item ∷ prepared) h k =
    pair_mod_bound_from-range (max start (pair_mod n (first_fill item) gap)) n gap prepared
      (omega (arith, h)) (omega (arith, k))

All-pair_mod :
    (n gap width bound : ℕ) (prepared : List (List ℕ))
    → width ≤ gap
    → All (λ item. pair_mod n (first_fill item) gap ≤ bound) prepared
    → All (λ item. (n + 1) * pair_mod n (first_fill item) width ≤ (n + 1) * bound) prepared
All-pair_mod n gap width bound [] l h = tt
All-pair_mod n gap width bound (item ∷ prepared) l h =
    let here = pair_mod-le n (first_fill item) width gap l in
    (
      scaled (n + 1) (pair_mod n (first_fill item) width) bound (omega (arith, here, h.0)),
      All-pair_mod n gap width bound prepared l h.1,
    )
  where
    scaled : (m a b : ℕ) → a ≤ b → m * a ≤ m * b
    scaled m a b h = grind arith

length-zeros : (n : ℕ) → length (zeros n) ≡ n
unfolding zeros
length-zeros zero = refl
length-zeros (suc n) = omega (arith, length-zeros n)

-- The stamp arrays of a thread's workspace, if it has one, are as long as its capacities say.
abbrev pub IsCarried : Option Workspace → Type 0
IsCarried none = Unit
IsCarried (some w) =
    (length w.pair_stamps ≡ w.pair_capacity) × (length w.bit_stamps ≡ w.bit_capacity)

-- Whatever workspace a thread carries from earlier songs, the one that it gets from a plan has at
-- least the plan's capacities.
record HasCapacity (plan : WorkspacePlan) (w : Workspace) : Type 0 where
  pairs : plan.pair_capacity ≤ w.pair_capacity
  pair_stamps : plan.pair_capacity ≤ length w.pair_stamps
  bits : plan.bit_capacity ≤ w.bit_capacity
  bit_stamps : plan.bit_capacity ≤ length w.bit_stamps

blank-HasCapacity :
    (plan : WorkspacePlan)
    → HasCapacity plan (blank_workspace plan.pair_capacity plan.bit_capacity (plan.n + 1))
blank-HasCapacity plan = record {
  pairs = omega arith;
  pair_stamps = omega (arith, length-zeros plan.pair_capacity);
  bits = omega arith;
  bit_stamps = omega (arith, length-zeros plan.bit_capacity);
}

thread_workspace-HasCapacity :
    (plan : WorkspacePlan) (carried : Option Workspace)
    → IsCarried carried
    → (w : Workspace) × (thread_workspace plan carried ≡ ok w) × HasCapacity plan w
unfolding thread_workspace make_workspace
thread_workspace-HasCapacity plan none h = (
  blank_workspace plan.pair_capacity plan.bit_capacity (plan.n + 1),
  ground arith,
  blank-HasCapacity plan,
)
thread_workspace-HasCapacity plan (some w) h =
    elim (Bool-cases (
      ltb w.pair_capacity plan.pair_capacity
      || ltb w.bit_capacity plan.bit_capacity
      || ltb w.successor_capacity (plan.n + 1))) [
        | inl t ↦ (
          blank_workspace plan.pair_capacity plan.bit_capacity (plan.n + 1),
          ground (arith, t),
          blank-HasCapacity plan,
        )
        | inr t ↦ (
          w,
          ground (arith, t),
          record {
            pairs = ground (arith, t);
            pair_stamps = ground (arith, t, h.0);
            bits = ground (arith, t);
            bit_stamps = ground (arith, t, h.1);
          },
        )
      ]

-- The kernel's radix is the host's at the kernel's width, so a workspace that holds the host's pairs passes.
check_workspace-pair_mod :
    (n width : ℕ) (item : List ℕ) (plan : WorkspacePlan) (w : Workspace)
    → plan.bit_capacity ≡ n + 2
    → HasCapacity plan w
    → (n + 1) * pair_mod n (first_fill item) width ≤ plan.pair_capacity
    → check_workspace n width item w ≡ ok tt
unfolding check_workspace pair_size kernel_pair_mod section_bound min_later_fill
check_workspace-pair_mod n width [] plan w e h l =
    ground (arith, h.pairs, h.pair_stamps, h.bits, h.bit_stamps, e, l)
check_workspace-pair_mod n width (fill ∷ item) plan w e h l =
    ground (arith, h.pairs, h.pair_stamps, h.bits, h.bit_stamps, e, l)

All-check_workspace :
    (n width : ℕ) (prepared : List (List ℕ)) (plan : WorkspacePlan) (w : Workspace)
    → plan.bit_capacity ≡ n + 2
    → HasCapacity plan w
    → All (λ item. (n + 1) * pair_mod n (first_fill item) width ≤ plan.pair_capacity) prepared
    → All (λ item. check_workspace n width item w ≡ ok tt) prepared
All-check_workspace n width [] plan w e h l = tt
All-check_workspace n width (item ∷ prepared) plan w e h l = (
  check_workspace-pair_mod n width item plan w e h l.0,
  All-check_workspace n width prepared plan w e h l.1,
)

-- The host's bound for a song makes a plan, and a thread gets a workspace from it, whichever it carries (one
-- whose stamp arrays are as long as its capacities say). That workspace passes the kernel's own guard for every
-- geometry of the song, so the kernel does not raise there, at every early-Great width up to the bound on it.
pub make_plan-check_workspace :
    (n gap width : ℕ) (prepared : List (List ℕ)) (carried : Option Workspace)
    → width ≤ gap
    → IsCarried carried
    → (plan : WorkspacePlan) × (make_plan n (pair_mod_bound n gap prepared) ≡ ok plan)
      × ((w : Workspace) × (thread_workspace plan carried ≡ ok w)
          × All (λ item. check_workspace n width item w ≡ ok tt) prepared)
unfolding make_plan
make_plan-check_workspace n gap width prepared carried l c =
    let bound = pair_mod_bound n gap prepared in
    let (low, high) = pair_mod_bound_from-range 1 n gap prepared (omega arith) (omega arith) in
    let fits = pair_mod_bound_from-le 1 n gap prepared in
    let plan : WorkspacePlan = record {
      n = n;
      pair_capacity = (n + 1) * bound;
      bit_capacity = n + 2;
    } in
    let (w, made, holds) = thread_workspace-HasCapacity plan carried c in
    (
      plan,
      ground (arith, low, high),
      (
        w,
        made,
        All-check_workspace n width prepared plan w refl holds
            (All-pair_mod n gap width bound prepared l fits.1),
      ),
    )

-- A plan is admitted if and only if its workers' scratch fits in the available memory less the
-- reserve, a quarter of it but at most 2 GiB; otherwise MemoryError is raised. With no reading of
-- the memory it is admitted.
pub admit_workspace_lem :
    (plan : WorkspacePlan) (workers available : ℕ)
    → (admit_workspace plan workers (some available) ≡ (
        if ltb available
          (bytes_per_thread plan * max 1 workers + min system_reserve_max_bytes (available / 4))
        then err memory_error
        else ok (bytes_per_thread plan * max 1 workers)))
      × (admit_workspace plan workers none ≡ ok (bytes_per_thread plan * max 1 workers))
unfolding admit_workspace
admit_workspace_lem plan workers available = ground arith
