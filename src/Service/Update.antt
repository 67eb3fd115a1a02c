-- ===== src/Service/Update.antt =====
-- gear_optimizer/service_update.py: the updater, which follows a git remote.
--
-- A round's answers of git and of the refresh are an argument; what the round has done to the service and the
-- checkout is the list of its effects. A failed fetch is logged only: the reference that it would move is read after.
pub mod Rounds
use Prim.Native.String.{String}
use text.Mathlib.Text.{◌==◌ as str_eq}
use text.Mathlib.TextEquality.{eq_iff}
use ro_beats_calculator_engi.Common.{
  ◌≡◌, refl, ap, ◌∙◌, sym, Bool, true, false, not, ◌&&◌, ◌||◌, Option, none, some, List, [], ◌∷◌,
  ◌++◌, Result, Error, ok, err, runtime_error, raise_if, ◌>>=◌, if◌then◌else◌, arith, Bool-cases,
  Result-cases, inl, inr,
}

pub data Effect : Type 0 where
  drained : Effect
  resumed : Effect
  fast_forwarded : String → Effect
  restarted : String → Effect
  refreshed_data : Effect

-- What one round is told.
pub record Answers : Type 0 where
  pub head : Result String
  pub commit : Result String
  pub changed_code : String → String → Result Bool
  pub has_local_changes : Result Bool
  pub merged : Result (Unit {0})
  pub refresh : Result (Unit {0})

pub record Updater : Type 0 where
  pub stopped : Bool
  pub running : Option String
  pub refreshed : Option String

-- `_fast_forward`
unfoldable pub fast_forward : Answers → Result (Unit {0})
fast_forward a = a.has_local_changes >>= λ dirty. raise_if dirty runtime_error a.merged

-- The end of a round: the refresh, after the effects so far.
unfoldable pub refresh_after :
    Answers → String → Updater → List Effect → Updater × List Effect × Result (Unit {0})
refresh_after a commit u effects = elim a.refresh [
  | err e ↦ (u, effects ++ refreshed_data ∷ [], err e)
  | ok _ ↦ (record u { refreshed = some commit }, effects ++ refreshed_data ∷ [], ok tt)
]

-- From `self.drain()` on, for a commit that is new.
unfoldable pub install :
    Answers → String → String → Bool → Updater → Updater × List Effect × Result (Unit {0})
install a head commit new_code u =
    let moved : List Effect = if str_eq commit head then [] else fast_forwarded commit ∷ [] in
    elim (if str_eq commit head then ok tt else fast_forward a) [
      | err e ↦ (u, drained ∷ resumed ∷ [], err e)
      | ok _ ↦ elim new_code [
        | true ↦ (record u { stopped = true }, drained ∷ moved ++ restarted commit ∷ [], ok tt)
        | false ↦ refresh_after a commit u (drained ∷ moved ++ resumed ∷ [])
      ]
    ]

abbrev pub is_refreshed : String → Option String → Bool
is_refreshed commit none = false
is_refreshed commit (some r) = str_eq commit r

-- From the comparison with the refreshed revision on.
unfoldable pub follow :
    Answers → String → String → String → Updater → Updater × List Effect × Result (Unit {0})
follow a head commit running u = elim (is_refreshed commit u.refreshed) [
  | true ↦ (u, [], ok tt)
  | false ↦ elim (a.changed_code running commit) [
    | err e ↦ (u, [], err e)
    | ok new_code ↦ elim (not (str_eq commit head) || new_code) [
      | true ↦ install a head commit new_code u
      | false ↦ refresh_after a commit u []
    ]
  ]
]

-- `self._running or head`
abbrev pub running_or : Option String → String → String
running_or none head = head
running_or (some r) head = if str_eq r "" then head else r

unfoldable pub run_once : Answers → Updater → Updater × List Effect × Result (Unit {0})
run_once a u = elim a.head [
  | err e ↦ (u, [], err e)
  | ok head ↦ elim a.commit [
    | err e ↦ (u, [], err e)
    | ok commit ↦
        let running = running_or u.running head in
        follow a head commit running (record u { running = some running })
  ]
]

-- `serve_forever`: a round that raises is logged, and the next is on until the updater is stopped.
unfoldable pub serve_forever : List Answers → Updater → Updater × List Effect
serve_forever [] u = (u, [])
serve_forever (a ∷ rounds) u = elim u.stopped [
  | true ↦ (u, [])
  | false ↦
      let (u1, effects, answer) = run_once a u in
      let (u2, later) = serve_forever rounds u1 in (u2, effects ++ later)
]
