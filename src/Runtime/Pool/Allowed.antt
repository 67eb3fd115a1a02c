-- ===== src/Runtime/Pool/Allowed.antt =====
-- The pool keeps to what its executors allow.
use ro_beats_calculator_engi.Common.{
  ℕ, ◌<◌, ◌≡◌, refl, sym, ◌∙◌, ap, true, false, Option, none, some, List, [], ◌∷◌, ◌++◌, length,
  length-append, arith, Bool-cases, Option-cases, inl, inr, leb-cases,
}
use ro_beats_calculator_engi.Runtime.Pool.{
  Action, Pool, start_generation, finish_generation, replace_generation, accept_task, resubmit,
  try_submit, submit, Executors, allow, allow_all, view, IsPool,
}

allow_all-append :
    (limit : ℕ) (e e' : Executors) (xs ys : List Action)
    → allow_all limit e xs ≡ some e'
    → allow_all limit e (xs ++ ys) ≡ allow_all limit e' ys
unfolding allow_all
allow_all-append limit e e' [] ys h = grind arith
allow_all-append limit e e' (x ∷ xs) ys h = elim (Option-cases (allow limit e x)) [
  | inl n ↦ ground (arith, n, h)
  | inr (d, s) ↦ rw (s, allow_all) (allow_all-append limit d e' xs ys (rw (s, allow_all) at h))
]

-- A call took the pool from one state to another by actions that the executors allow.
pub record IsAllowed (p : Pool) (acts : List Action) (p' : Pool) : Type 0 where
  pub allowed : allow_all p.generation_capacity (view p) acts ≡ some (view p')
  pub same_capacity : p'.generation_capacity ≡ p.generation_capacity

pub IsAllowed-nothing : (p : Pool) → IsAllowed p [] p
unfolding allow_all
IsAllowed-nothing p = record { allowed = refl; same_capacity = refl }

pub IsAllowed-append :
    (p q r : Pool) (xs ys : List Action)
    → IsAllowed p xs q
    → IsAllowed q ys r
    → IsAllowed p (xs ++ ys) r
IsAllowed-append p q r xs ys a b = record {
  allowed =
      allow_all-append p.generation_capacity (view p) (view q) xs ys a.allowed
      ∙ ap (λ c. allow_all c (view q) ys) (sym a.same_capacity)
      ∙ b.allowed;
  same_capacity = b.same_capacity ∙ a.same_capacity;
}

pub finish-allowed :
    (p : Pool)
    → p.executor ≡ true
    → allow_all p.generation_capacity (view p) (finish_generation p).1
      ≡ some (view (finish_generation p).0)
unfolding finish_generation allow_all allow
finish-allowed p h = ground (arith, h)

start-allowed :
    (p : Pool)
    → p.executor ≡ false
    → allow_all p.generation_capacity (view p) (start_generation p).1
      ≡ some (view (start_generation p).0)
unfolding start_generation allow_all allow
start-allowed p h = ground (arith, h)

pub finish-idle :
    (p : Pool)
    → ((finish_generation p).0.generation_capacity ≡ p.generation_capacity)
      × ((finish_generation p).0.closed ≡ p.closed)
      × ((finish_generation p).0.executor ≡ false)
unfolding finish_generation
finish-idle p = ground arith

accept_task-allowed :
    (p : Pool) (future : ℕ)
    → p.executor ≡ true
    → length p.generation_futures < p.generation_capacity
    → allow_all p.generation_capacity (view p) (accept_task p future).1
      ≡ some (view (accept_task p future).0)
unfolding accept_task allow_all allow
accept_task-allowed p future h l =
    ground (arith, h, l, length-append p.generation_futures (future ∷ []))

-- A call that leaves the pool well formed, by actions that the executors allow.
pub record IsStep (p : Pool) (acts : List Action) (p' : Pool) : Type 0 where
  pub kept : IsAllowed p acts p'
  pub valid : IsPool p'
  pub same_closed : p'.closed ≡ p.closed

start_lem :
    (p : Pool) → p.closed ≡ false → 0 < p.generation_capacity → IsPool (start_generation p).0
unfolding start_generation
start_lem p c l = record {
  capacity = l;
  bounded = omega arith;
  in_use = rw c refl;
  drained = λ e. refl;
}

pub replaced_lem :
    (p : Pool)
    → ((replace_generation p).0.closed ≡ p.closed)
      × ((replace_generation p).0.executor ≡ true)
      × ((replace_generation p).0.generation_capacity ≡ p.generation_capacity)
      × (length (replace_generation p).0.generation_futures ≡ 0)
unfolding replace_generation start_generation finish_generation
replaced_lem p = ground arith

replace-IsStep :
    (p : Pool)
    → IsPool p
    → p.closed ≡ false
    → p.executor ≡ true
    → IsStep p (replace_generation p).1 (replace_generation p).0
unfolding replace_generation start_generation
replace-IsStep p v c x =
    let f = (finish_generation p).0 in
    let (same, still, idle) = finish-idle p in
    let capacity : 0 < f.generation_capacity = omega (arith, same, v.capacity) in
    record {
      kept =
          IsAllowed-append p f (start_generation f).0 (finish_generation p).1 (start_generation f).1
            (record { allowed = finish-allowed p x; same_capacity = same })
            (record { allowed = start-allowed f idle; same_capacity = refl });
      valid = start_lem f (still ∙ c) capacity;
      same_closed = (replaced_lem p).0;
    }

accepted_lem :
    (p : Pool) (future : ℕ)
    → IsPool p
    → p.executor ≡ true
    → length p.generation_futures < p.generation_capacity
    → IsStep p (accept_task p future).1 (accept_task p future).0
unfolding accept_task
accepted_lem p future v x l =
    let more = length-append p.generation_futures (future ∷ []) in
    record {
      kept = record { allowed = accept_task-allowed p future x l; same_capacity = refl };
      valid = record {
        capacity = v.capacity;
        bounded = omega (arith, more, l);
        in_use = v.in_use;
        drained = λ e. ground (arith, e, x);
      };
      same_closed = refl;
    }

IsStep-nothing : (p : Pool) → IsPool p → IsStep p [] p
IsStep-nothing p v = record { kept = IsAllowed-nothing p; valid = v; same_closed = refl }

IsStep-append :
    (p q r : Pool) (xs ys : List Action) → IsStep p xs q → IsStep q ys r → IsStep p (xs ++ ys) r
IsStep-append p q r xs ys a b = record {
  kept = IsAllowed-append p q r xs ys a.kept b.kept;
  valid = b.valid;
  same_closed = b.same_closed ∙ a.same_closed;
}

resubmit-IsStep :
    (p : Pool) (second : Option ℕ)
    → IsPool p
    → p.executor ≡ true
    → length p.generation_futures < p.generation_capacity
    → IsStep p (resubmit p second).1 (resubmit p second).0
unfolding resubmit
resubmit-IsStep p none v x l = IsStep-nothing p v
resubmit-IsStep p (some future) v x l = accepted_lem p future v x l

try_submit-IsStep :
    (p : Pool) (first second : Option ℕ)
    → IsPool p
    → p.closed ≡ false
    → p.executor ≡ true
    → length p.generation_futures < p.generation_capacity
    → IsStep p (try_submit p first second).1 (try_submit p first second).0
unfolding try_submit
try_submit-IsStep p (some future) second v c x l = simp x (accepted_lem p future v x l)
try_submit-IsStep p none second v c x l =
    let r = (replace_generation p).0 in
    let (unclosed, used, same, empty) = replaced_lem p in
    let a = replace-IsStep p v c x in
    let l' : length r.generation_futures < r.generation_capacity =
      omega (arith, same, empty, v.capacity) in
    let b = resubmit-IsStep r second a.valid used l' in
    simp x
      (IsStep-append p r (resubmit r second).0 (replace_generation p).1 (resubmit r second).1 a b)

pub submit-IsStep :
    (p : Pool) (first second : Option ℕ)
    → IsPool p
    → IsStep p (submit p first second).1 (submit p first second).0
unfolding submit
submit-IsStep p first second v = elim (Bool-cases p.closed) [
  | inl c ↦ simp c (IsStep-nothing p v)
  | inr c ↦
      let x : p.executor ≡ true = ground (arith, c, v.in_use) in
      let r = (replace_generation p).0 in
      elim (leb-cases p.generation_capacity (length p.generation_futures)) [
        | inr (t, l) ↦ simp (c, t) (try_submit-IsStep p first second v c x l)
        | inl (t, l) ↦
            let (unclosed, used, same, empty) = replaced_lem p in
            let a = replace-IsStep p v c x in
            let l' : length r.generation_futures < r.generation_capacity =
              omega (arith, same, empty, v.capacity) in
            let b = try_submit-IsStep r first second a.valid (unclosed ∙ c) used l' in
            simp (c, t)
              (IsStep-append p r (try_submit r first second).0 (replace_generation p).1
                (try_submit r first second).1 a b)
      ]
]
