-- ===== src/Service/Solves/Joined.antt =====
-- Threads that arrive, wait and are answered, counted thread by thread, over any history of events.
use Prim.Native.String.{String}
use text.Mathlib.Text.{◌==◌ as str_eq}
use mathlib.Core.Option.{some-injective}
use ro_beats_calculator_engi.Common.{
  ℕ, ◌+◌, ◌≡◌, refl, ap, false, none, some, List, [], ◌∷◌, ◌++◌, map, ◌==◌, if◌then◌else◌, arith,
  Bool-cases, Option-cases, inl, inr,
}
use ro_beats_calculator_engi.Common.Dict.{get, put, contains, keys, Distinct, put-Distinct}
use ro_beats_calculator_engi.Service.Solves.{
  InFlightSolve, InFlight, Event, arrive, finish, remove, erase, arrival, finished, removed, step,
  run,
}

-- One where the thread is `t`, and none where it is another.
unfoldable pub one : ℕ → ℕ → ℕ
one t thread = if thread == t then 1 else 0

unfoldable pub times : ℕ → List ℕ → ℕ
times t [] = 0
times t (thread ∷ threads) = one t thread + times t threads

module _ {R : Type 0} (t : ℕ) where
  -- How often the thread waits for a solve, how often it waits at all, has arrived and was answered.
  unfoldable pub waits : InFlightSolve R → ℕ
  waits state = elim state.result [ none ↦ one t state.owner + times t state.joined | some r ↦ 0 ]

  unfoldable pub waiting : List (String × InFlightSolve R) → ℕ
  waiting [] = 0
  waiting ((k, s) ∷ d) = waits s + waiting d

  unfoldable pub arrivals : List (Event R) → ℕ
  arrivals [] = 0
  arrivals (arrive thread key ∷ es) = one t thread + arrivals es
  arrivals (_ ∷ es) = arrivals es

  unfoldable pub answers : List (ℕ × R) → ℕ
  answers [] = 0
  answers ((thread, r) ∷ rest) = one t thread + answers rest

  answers-append :
      (r : R) (threads : List ℕ) (rest : List (ℕ × R))
      → answers (map (λ (u : ℕ). (u, r)) threads ++ rest) ≡ times t threads + answers rest
  unfolding answers times
  answers-append r [] rest = omega arith
  answers-append r (u ∷ threads) rest = omega (arith, answers-append r threads rest)

  put_new :
      (key : String) (v : InFlightSolve R) (d : List (String × InFlightSolve R))
      → get key d ≡ none
      → waiting (put key v d) ≡ waits v + waiting d
  unfolding get put waiting
  put_new key v [] = λ h. refl
  put_new key v ((k, s) ∷ d) = elim (Bool-cases (str_eq k key)) [
    | inl t ↦ rw (get, t) (λ h. absurd (ground (arith, h)))
    | inr t ↦ rw (get, put, t) (λ h. omega (arith, put_new key v d h))
  ]

  put_over :
      (key : String) (v w : InFlightSolve R) (d : List (String × InFlightSolve R))
      → get key d ≡ some w
      → waiting (put key v d) + waits w ≡ waits v + waiting d
  unfolding get put waiting
  put_over key v w [] = λ h. absurd (ground (arith, h))
  put_over key v w ((k, s) ∷ d) = elim (Bool-cases (str_eq k key)) [
    | inl t ↦ rw (get, put, t) (λ h. omega (arith, ap waits (some-injective s w h)))
    | inr t ↦ rw (get, put, t) (λ h. omega (arith, put_over key v w d h))
  ]

  waiting-erase :
      (key : String) (w : InFlightSolve R) (d : List (String × InFlightSolve R))
      → get key d ≡ some w
      → waiting (erase key d) + waits w ≡ waiting d
  unfolding get erase waiting
  waiting-erase key w [] = λ h. absurd (ground (arith, h))
  waiting-erase key w ((k, s) ∷ d) = elim (Bool-cases (str_eq k key)) [
    | inl t ↦ rw (get, erase, t) (λ h. omega (arith, ap waits (some-injective s w h)))
    | inr t ↦ rw (get, erase, t) (λ h. omega (arith, waiting-erase key w d h))
  ]

  contains-erase :
      (key j : String) (d : List (String × InFlightSolve R))
      → contains j (keys d) ≡ false
      → contains j (keys (erase key d)) ≡ false
  unfolding contains erase
  contains-erase key j [] h = refl
  contains-erase key j ((k, s) ∷ d) h = ground (arith, h, contains-erase key j d)

  erase-Distinct :
      (key : String) (d : List (String × InFlightSolve R))
      → Distinct (keys d)
      → Distinct (keys (erase key d))
  unfolding erase
  erase-Distinct key [] v = tt
  erase-Distinct key ((k, s) ∷ d) v = elim (Bool-cases (str_eq k key)) [
    | inl t ↦ rw (erase, t) v.1
    | inr t ↦ rw (erase, t) (contains-erase key k d v.0, erase-Distinct key d v.1)
  ]

  -- What holds between events: one solve of a key at most, and every request that arrived waits or was answered.
  record IsService (count : ℕ) (s : InFlight R) : Type 0 where
    one_each : Distinct (keys s.in_flight)
    none_lost : answers s.answered + waiting s.in_flight ≡ count

  arrival-IsService :
      (count thread : ℕ) (key : String) (s : InFlight R)
      → IsService count s
      → IsService (one t thread + count) (arrival thread key s)
  unfolding arrival waits answers times
  arrival-IsService count thread key s v = elim (Option-cases (get key s.in_flight)) [
    | inl m ↦
        rw (arrival, m)
          (record {
            one_each = put-Distinct key _ s.in_flight v.one_each;
            none_lost = omega (
              arith,
              v.none_lost,
              put_new key (record { owner = thread; joined = []; result = none }) s.in_flight m,
            );
          })
    | inr m ↦ elim (Option-cases m.0.result) [
      | inl n ↦
          rw (arrival, m.1, n)
            (record {
              one_each = put-Distinct key _ s.in_flight v.one_each;
              none_lost = omega (
                arith,
                v.none_lost,
                joined_weight m.0 n,
                put_over key (record m.0 { joined = thread ∷ m.0.joined }) m.0 s.in_flight m.1,
              );
            })
      | inr r ↦
          rw (arrival, m.1, r.1)
            (record { one_each = v.one_each; none_lost = omega (arith, v.none_lost) })
    ]
  ]
    where
      joined_weight :
          (state : InFlightSolve R)
          → state.result ≡ none
          → waits (record state { joined = thread ∷ state.joined }) ≡ one t thread + waits state
      joined_weight state n = rw n (omega arith)

  finished-IsService :
      (count : ℕ) (key : String) (r : R) (s : InFlight R)
      → IsService count s
      → IsService count (finished key r s)
  unfolding finished waits answers
  finished-IsService count key r s v = elim (Option-cases (get key s.in_flight)) [
    | inl m ↦ rw (finished, m) v
    | inr m ↦ elim (Option-cases m.0.result) [
      | inl n ↦
          rw (finished, m.1, n)
            (record {
              one_each = put-Distinct key _ s.in_flight v.one_each;
              none_lost = omega (
                arith,
                v.none_lost,
                waiting_weight m.0 n,
                answers-append r m.0.joined s.answered,
                put_over key (record m.0 { result = some r }) m.0 s.in_flight m.1,
              );
            })
      | inr old ↦ rw (finished, m.1, old.1) v
    ]
  ]
    where
      waiting_weight :
          (state : InFlightSolve R)
          → state.result ≡ none
          → waits state ≡ one t state.owner + times t state.joined
      waiting_weight state n = rw n refl

  removed-IsService :
      (count : ℕ) (key : String) (s : InFlight R)
      → IsService count s
      → IsService count (removed key s)
  unfolding removed waits
  removed-IsService count key s v = elim (Option-cases (get key s.in_flight)) [
    | inl m ↦ rw (removed, m) v
    | inr m ↦ elim (Option-cases m.0.result) [
      | inl n ↦ rw (removed, m.1, n) v
      | inr r ↦
          rw (removed, m.1, r.1)
            (record {
              one_each = erase-Distinct key s.in_flight v.one_each;
              none_lost = omega (
                arith,
                v.none_lost,
                waiting-erase key m.0 s.in_flight m.1,
                no_weight m.0 r.0 r.1,
              );
            })
    ]
  ]
    where
      no_weight : (state : InFlightSolve R) (r : R) → state.result ≡ some r → waits state ≡ 0
      no_weight state r n = rw n refl

  run-IsService :
      (total count : ℕ) (s : InFlight R) (es : List (Event R))
      → total ≡ count + arrivals es
      → IsService count s
      → IsService total (run s es)
  unfolding run step arrivals
  run-IsService total count s [] sum v = record {
    one_each = v.one_each;
    none_lost = omega (arith, v.none_lost, sum);
  }
  run-IsService total count s (arrive thread key ∷ es) sum v =
      run-IsService total (one t thread + count) (arrival thread key s) es (omega (arith, sum))
        (arrival-IsService count thread key s v)
  run-IsService total count s (finish key r ∷ es) sum v =
      run-IsService total count (finished key r s) es sum (finished-IsService count key r s v)
  run-IsService total count s (remove key ∷ es) sum v =
      run-IsService total count (removed key s) es sum (removed-IsService count key s v)

-- From an idle service, whatever order the requests, the ends of solves and the removals come in: no key has two
-- entries, so no two solves of it run; and every thread was answered and waits, together, as often as it has
-- arrived: none is lost, none is answered twice, and none is answered in another's place.
pub run-arrivals :
    {R : Type 0}
    → (es : List (Event R)) (t : ℕ)
    → let s = run (record { in_flight = []; answered = [] }) es in
      Distinct (keys s.in_flight) × (answers t s.answered + waiting t s.in_flight ≡ arrivals t es)
unfolding waiting answers
run-arrivals es t =
    let v =
      run-IsService t (arrivals t es) 0 (record { in_flight = []; answered = [] }) es (omega arith)
        (record { one_each = tt; none_lost = refl }) in
    (v.one_each, omega (arith, v.none_lost))
