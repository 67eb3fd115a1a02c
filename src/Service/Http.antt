-- ===== src/Service/Http.antt =====
-- `do_GET`, `do_POST`, `_optimize` and `_read_json`: what the service answers.
--
-- The body is what the parser gives for it, and none where it is no JSON object. Solving, the song list, the
-- token's comparison and Python's `isdigit` and `int` of the length header are arguments: `int` may raise on a
-- text of which `isdigit` holds, and that error is answered with 500.
use Prim.Native.String.{String}
use text.Mathlib.Text.{◌==◌ as str_eq}
use text.Mathlib.TextEquality.{eq_iff}
use ro_beats_calculator_engi.Common.{
  ℕ, ◌≤◌, ◌≡◌, ◌↔◌, refl, ap, Bool, true, false, not, ◌&&◌, ◌||◌, Option, none, some, Result, Error,
  ok, err, request_error, request_too_large, service_not_ready, value_error, raise_if, ◌>>=◌, ltb,
  if◌then◌else◌, arith, Bool-cases, Option-cases, Result-cases, bind-ok, ok-injective, ◌⊎◌, inl,
  inr,
}
use ro_beats_calculator_engi.Service.Items.{Fields}

-- A request as it arrives; the path is without slashes at its end.
pub record HttpRequest : Type 0 where
  pub path : String
  pub authorization : String
  pub content_length : Option String
  pub body : Option Fields

-- What a handler sends, and what it does to the service before.
pub data Action : Type 0 where
  no_action : Action
  clear_and_check : Action

pub record Sent : Type 0 where
  pub status : ℕ
  pub action : Action

module _ (token : String) (compare_digest : String → String → Bool) (bearer : String → String)
    (is_digit : String → Bool) (int : String → Option ℕ) where
  unfoldable pub authorized : HttpRequest → Bool
  authorized r = str_eq token "" || compare_digest r.authorization (bearer token)

  unfoldable pub do_get : HttpRequest → Result (Unit {0}) → Sent
  do_get r songs =
      if not (str_eq r.path "/songs")
      then record { status = 404; action = no_action }
      else if not (authorized r)
      then record { status = 401; action = no_action }
      else elim songs [
        | ok _ ↦ record { status = 200; action = no_action }
        | err e ↦ record { status = 500; action = no_action }
      ]

  unfoldable pub read_json : ℕ → HttpRequest → Result Fields
  read_json max_body_bytes r = elim r.content_length [
    | none ↦ err request_error
    | some length ↦
        raise_if (str_eq length "" || not (is_digit length)) request_error (elim (int length) [
          | none ↦ err value_error
          | some size ↦
              raise_if (ltb max_body_bytes size) request_too_large
                (elim r.body [ none ↦ err request_error | some fields ↦ ok fields ])
        ])
  ]

  unfoldable pub status_of : Error → ℕ
  status_of request_too_large = 413
  status_of request_error = 400
  status_of service_not_ready = 503
  status_of e = 500

  unfoldable pub optimize : ℕ → (Fields → Result (Unit {0})) → HttpRequest → ℕ
  optimize max_body_bytes solve r = elim (read_json max_body_bytes r >>= solve) [
    | ok _ ↦ 200
    | err e ↦ status_of e
  ]

  unfoldable pub do_post : ℕ → (Fields → Result (Unit {0})) → HttpRequest → Sent
  do_post max_body_bytes solve r =
      if not (str_eq r.path "/optimize") && not (str_eq r.path "/frontiers/refresh")
      then record { status = 404; action = no_action }
      else if not (authorized r)
      then record { status = 401; action = no_action }
      else if str_eq r.path "/frontiers/refresh"
      then record { status = 202; action = clear_and_check }
      else record { status = optimize max_body_bytes solve r; action = no_action }

  status_of_lem : (e : Error) → 400 ≤ status_of e
  unfolding status_of
  status_of_lem e = elim e as (λ k. 400 ≤ status_of k) [
    | request_too_large ↦ omega arith
    | request_error ↦ omega arith
    | service_not_ready ↦ omega arith
    | _ ↦ omega arith
  ]

  -- A request that may be answered, and one whose body may be read as JSON, said of its parts.
  abbrev IsAllowed : HttpRequest → Type 0
  IsAllowed r = (token ≡ "") ⊎ (compare_digest r.authorization (bearer token) ≡ true)

  abbrev IsBody : ℕ → HttpRequest → Fields → Type 0
  IsBody max_body_bytes r fields =
      (length : String) × (size : ℕ) × (r.content_length ≡ some length)
      × (str_eq length "" ≡ false)
      × (is_digit length ≡ true)
      × (int length ≡ some size)
      × (size ≤ max_body_bytes)
      × (r.body ≡ some fields)

  authorized-IsAllowed : (r : HttpRequest) → (authorized r ≡ true) ↔ IsAllowed r
  unfolding authorized
  authorized-IsAllowed r = (allowed, passes)
    where
      allowed : authorized r ≡ true → IsAllowed r
      allowed h = elim (Bool-cases (str_eq token "")) [
        | inl t ↦ inl ((eq_iff token "").0 t)
        | inr f ↦ inr (ground (arith, h, f))
      ]

      passes : IsAllowed r → authorized r ≡ true
      passes (inl empty) = ground (arith, (eq_iff token "").1 empty)
      passes (inr same) = ground (arith, same)

  read_json-IsBody :
      (max_body_bytes : ℕ) (r : HttpRequest) (fields : Fields)
      → (read_json max_body_bytes r ≡ ok fields) ↔ IsBody max_body_bytes r fields
  unfolding read_json
  read_json-IsBody max_body_bytes r fields = (is_body, reads)
    where
      is_body : read_json max_body_bytes r ≡ ok fields → IsBody max_body_bytes r fields
      is_body = elim (Option-cases r.content_length) [
        | inl m ↦ rw (read_json, m) (λ h. absurd (ground (arith, h)))
        | inr m ↦ elim (Bool-cases (str_eq m.0 "" || not (is_digit m.0))) [
          | inl t ↦ rw (read_json, m.1, t) (λ h. absurd (ground (arith, h)))
          | inr t ↦ elim (Option-cases (int m.0)) [
            | inl i ↦ rw (read_json, m.1, t, i) (λ h. absurd (ground (arith, h)))
            | inr i ↦ elim (Bool-cases (ltb max_body_bytes i.0)) [
              | inl u ↦ rw (read_json, m.1, t, i.1, u) (λ h. absurd (ground (arith, h)))
              | inr u ↦ elim (Option-cases r.body) [
                | inl b ↦ rw (read_json, m.1, t, i.1, u, b) (λ h. absurd (ground (arith, h)))
                | inr b ↦
                    rw (read_json, m.1, t, i.1, u, b.1)
                      (λ h. (
                        m.0,
                        i.0,
                        refl,
                        ground (arith, t),
                        ground (arith, t),
                        i.1,
                        ground (arith, u),
                        ap some (ok-injective b.0 fields h),
                      ))
              ]
            ]
          ]
        ]
      ]

      reads : IsBody max_body_bytes r fields → read_json max_body_bytes r ≡ ok fields
      reads (length, size, header, full, digits, value, small, body) =
          rw (read_json, header, full, digits, value, body) (ground (arith, small))

  optimize-solve :
      (max_body_bytes : ℕ) (solve : Fields → Result (Unit {0})) (r : HttpRequest)
      → (optimize max_body_bytes solve r ≡ 200)
        ↔ ((fields : Fields) × (read_json max_body_bytes r ≡ ok fields) × (solve fields ≡ ok tt))
  unfolding optimize
  optimize-solve max_body_bytes solve r = (solved, answered)
    where
      solved :
          optimize max_body_bytes solve r ≡ 200
          → (fields : Fields) × (read_json max_body_bytes r ≡ ok fields) × (solve fields ≡ ok tt)
      solved = elim (Result-cases (read_json max_body_bytes r >>= solve)) [
        | inl m ↦ rw (optimize, m.1) (λ h. absurd (omega (arith, h, status_of_lem m.0)))
        | inr m ↦ λ h. bind-ok (read_json max_body_bytes r) solve tt m.1
      ]

      answered :
          (fields : Fields) × (read_json max_body_bytes r ≡ ok fields) × (solve fields ≡ ok tt)
          → optimize max_body_bytes solve r ≡ 200
      answered (body, read, done) = rw (optimize, read, done) refl

  not_refresh :
      (path : String) → str_eq path "/optimize" ≡ true → str_eq path "/frontiers/refresh" ≡ false
  not_refresh path p = ap (λ x. str_eq x "/frontiers/refresh") ((eq_iff path "/optimize").0 p)

  do_post_lem :
      (max_body_bytes : ℕ) (solve : Fields → Result (Unit {0})) (r : HttpRequest)
      → (((do_post max_body_bytes solve r).status ≡ 200) ↔ (
          (str_eq r.path "/optimize" ≡ true)
          × (authorized r ≡ true)
          × ((fields : Fields) × (read_json max_body_bytes r ≡ ok fields)
              × (solve fields ≡ ok tt))))
        × (((do_post max_body_bytes solve r).action ≡ clear_and_check)
            ↔ ((str_eq r.path "/frontiers/refresh" ≡ true) × (authorized r ≡ true)))
  unfolding do_post
  do_post_lem max_body_bytes solve r = ((given, gives), (told, tells))
    where
      given :
          (do_post max_body_bytes solve r).status ≡ 200
          → (str_eq r.path "/optimize" ≡ true)
            × (authorized r ≡ true)
            × ((fields : Fields) × (read_json max_body_bytes r ≡ ok fields)
                × (solve fields ≡ ok tt))
      given = elim (Bool-cases (str_eq r.path "/optimize")) [
        | inl p ↦ elim (Bool-cases (authorized r)) [
          | inl t ↦ elim (Bool-cases (str_eq r.path "/frontiers/refresh")) [
            | inl f ↦ rw (do_post, p, t, f) (λ h. absurd (omega (arith, h)))
            | inr f ↦
                rw (do_post, p, t, f)
                  (λ h. (refl, refl, (optimize-solve max_body_bytes solve r).0 h))
          ]
          | inr t ↦ rw (do_post, p, t) (λ h. absurd (omega (arith, h)))
        ]
        | inr p ↦ λ h. absurd (ground (arith, p, h))
      ]

      gives :
          (str_eq r.path "/optimize" ≡ true)
            × (authorized r ≡ true)
            × ((fields : Fields) × (read_json max_body_bytes r ≡ ok fields)
                × (solve fields ≡ ok tt))
          → (do_post max_body_bytes solve r).status ≡ 200
      gives (p, t, all) =
          rw (do_post, p, t, not_refresh r.path p) ((optimize-solve max_body_bytes solve r).1 all)

      told :
          (do_post max_body_bytes solve r).action ≡ clear_and_check
          → (str_eq r.path "/frontiers/refresh" ≡ true) × (authorized r ≡ true)
      told = elim (Bool-cases (authorized r)) [
        | inl t ↦ elim (Bool-cases (str_eq r.path "/frontiers/refresh")) [
          | inl f ↦ λ h. (f, t)
          | inr f ↦ rw (do_post, t, f) (ground arith)
        ]
        | inr t ↦ rw (do_post, t) (ground arith)
      ]

      tells :
          (str_eq r.path "/frontiers/refresh" ≡ true) × (authorized r ≡ true)
          → (do_post max_body_bytes solve r).action ≡ clear_and_check
      tells (f, t) = rw (do_post, f, t) (ground arith)

  -- A POST is answered with 200 just if its path is /optimize; no token is set or its authorization compares equal
  -- to the bearer of the token; its Content-Length is there, not empty, all digits and a number no greater than the
  -- largest body allowed; its body is a JSON object; and the solve of that object returns. The service
  -- forgets its charts and is told to look for new ones just if the path is /frontiers/refresh and the
  -- authorization is as before.
  pub do_post-optimize :
      (max_body_bytes : ℕ) (solve : Fields → Result (Unit {0})) (r : HttpRequest)
      → (((do_post max_body_bytes solve r).status ≡ 200) ↔ (
          (r.path ≡ "/optimize")
          × ((token ≡ "") ⊎ (compare_digest r.authorization (bearer token) ≡ true))
          × ((fields : Fields) × (solve fields ≡ ok tt)
              × ((length : String) × (size : ℕ) × (r.content_length ≡ some length)
                  × (str_eq length "" ≡ false)
                  × (is_digit length ≡ true)
                  × (int length ≡ some size)
                  × (size ≤ max_body_bytes)
                  × (r.body ≡ some fields)))))
        × (((do_post max_body_bytes solve r).action ≡ clear_and_check) ↔ (
            (r.path ≡ "/frontiers/refresh")
            × ((token ≡ "") ⊎ (compare_digest r.authorization (bearer token) ≡ true))))
  do_post-optimize max_body_bytes solve r = ((given, gives), (told, tells))
    where
      answer :
          (((do_post max_body_bytes solve r).status ≡ 200) ↔ (
            (str_eq r.path "/optimize" ≡ true)
            × (authorized r ≡ true)
            × ((fields : Fields) × (read_json max_body_bytes r ≡ ok fields)
                × (solve fields ≡ ok tt))))
          × (((do_post max_body_bytes solve r).action ≡ clear_and_check)
              ↔ ((str_eq r.path "/frontiers/refresh" ≡ true) × (authorized r ≡ true)))
      answer = do_post_lem max_body_bytes solve r

      given :
          (do_post max_body_bytes solve r).status ≡ 200
          → (r.path ≡ "/optimize")
            × IsAllowed r
            × ((fields : Fields) × (solve fields ≡ ok tt) × IsBody max_body_bytes r fields)
      given h =
          let (path, t, (fields, read, done)) = answer.0.0 h in
          (
            (eq_iff r.path "/optimize").0 path,
            (authorized-IsAllowed r).0 t,
            (fields, done, (read_json-IsBody max_body_bytes r fields).0 read),
          )

      gives :
          (r.path ≡ "/optimize")
            × IsAllowed r
            × ((fields : Fields) × (solve fields ≡ ok tt) × IsBody max_body_bytes r fields)
          → (do_post max_body_bytes solve r).status ≡ 200
      gives (path, t, (fields, done, body)) = answer.0.1 (
        (eq_iff r.path "/optimize").1 path,
        (authorized-IsAllowed r).1 t,
        (fields, (read_json-IsBody max_body_bytes r fields).1 body, done),
      )

      told :
          (do_post max_body_bytes solve r).action ≡ clear_and_check
          → (r.path ≡ "/frontiers/refresh") × IsAllowed r
      told h =
          let (path, t) = answer.1.0 h in
          ((eq_iff r.path "/frontiers/refresh").0 path, (authorized-IsAllowed r).0 t)

      tells :
          (r.path ≡ "/frontiers/refresh") × IsAllowed r
          → (do_post max_body_bytes solve r).action ≡ clear_and_check
      tells (path, t) =
          answer.1.1 ((eq_iff r.path "/frontiers/refresh").1 path, (authorized-IsAllowed r).1 t)
