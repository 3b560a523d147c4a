-- ===== src/Jobs/Running.antt =====
-- The jobs of one evaluation: at most one runs, and no number is given twice.
use code_analyzer.Prelude.{
  ℕ, suc, ◌+◌, ◌≤◌, ◌<◌, ◌≡◌, refl, sym, subst, Bool, true, false, List, [], ◌∷◌, ◌++◌, foldl,
  foldl_inv, ◌==◌, if◌then◌else◌, any, arith, All, All-append, All-map, Pairs, Pairs-snoc,
  Bool-cases, inl, inr,
}
use code_analyzer.Prelude.Text.{Text, text_eq, text_eq→eq}
use code_analyzer.Prelude.Dict.{lookup, lookup-insert}
use code_analyzer.Jobs.{
  Job, is_running, runs, is_success, JobStatus, stopped, finished, failed, Ended, returned, threw,
  settled, logged, cancelled_job, Manager, new_manager, jobs_of, used_number, new_job, start_job,
  change, update, Call, starts, settles, logs, stops, pokes, obey,
}

abbrev pub count_running : List Job → ℕ
count_running [] = 0
count_running (job ∷ js) = (if is_running job then 1 else 0) + count_running js

-- At most one job runs, and the numbers rise up to the highest one that was used.
abbrev pub IsOrderly : ℕ → List Job → Type 0
IsOrderly number js =
    (count_running js ≤ 1) × All (λ j. j.number ≤ number) js × Pairs (λ a b. a.number < b.number) js

-- A change of a job that leaves its number and starts nothing.
abbrev Keeps : (Job → Job) → Type 0
Keeps f =
    (j : Job)
    → ((f j).number ≡ j.number)
      × ((if is_running (f j) then 1 else 0) ≤ (if is_running j then 1 else 0))

runs-if :
    (b : Bool) (s t : JobStatus)
    → runs s ≡ false
    → runs t ≡ false
    → runs (if b then s else t) ≡ false
runs-if true s t h k = h
runs-if false s t h k = k

-- A job whose work has ended runs no more, however it ended.
pub is_running-settled : (ended : Ended) (j : Job) → is_running (settled ended j) ≡ false
is_running-settled (returned code) j =
    runs-if j.cancelled stopped _ refl (runs-if (is_success code) finished failed refl refl)
is_running-settled (threw message name) j = runs-if j.cancelled stopped failed refl refl

settled-Keeps : (ended : Ended) → Keeps (settled ended)
settled-Keeps (returned code) j = (refl, rw (is_running-settled (returned code) j) (omega arith))
settled-Keeps (threw message name) j =
    (refl, rw (is_running-settled (threw message name) j) (omega arith))

logged-Keeps : (line : Text) → Keeps (logged line)
logged-Keeps line j = (refl, omega arith)

cancelled_job-Keeps : Keeps cancelled_job
cancelled_job-Keeps j = (refl, omega arith)

module _ (f : Job → Job) (keeps : Keeps f) (n : ℕ) where
  number-if : (j : Job) → (if j.number == n then f j else j).number ≡ j.number
  number-if j = elim (Bool-cases (j.number == n)) [ inl e ↦ rw e (keeps j).0 | inr e ↦ rw e refl ]

  All-change :
      (P : ℕ → Type 0) (js : List Job)
      → All (λ j. P j.number) js
      → All (λ j. P j.number) (change n f js)
  All-change P [] h = tt
  All-change P (j ∷ js) h = (subst P (sym (number-if j)) h.0, All-change P js h.1)

  Pairs-change :
      (js : List Job)
      → Pairs (λ a b. a.number < b.number) js
      → Pairs (λ a b. a.number < b.number) (change n f js)
  Pairs-change [] h = tt
  Pairs-change (j ∷ js) h = (
    subst (λ k. All (λ b. k < b.number) (change n f js)) (sym (number-if j))
        (All-change (λ k. j.number < k) js h.0),
    Pairs-change js h.1,
  )

  count_running-change : (js : List Job) → count_running (change n f js) ≤ count_running js
  count_running-change [] = omega arith
  count_running-change (j ∷ js) = elim (Bool-cases (j.number == n)) [
    | inl e ↦ rw e (omega (arith, (keeps j).1, count_running-change js))
    | inr e ↦ rw e (omega (arith, count_running-change js))
  ]

  change-IsOrderly :
      (bound : ℕ) (js : List Job) → IsOrderly bound js → IsOrderly bound (change n f js)
  change-IsOrderly bound js (c, a, p) =
      (omega (arith, count_running-change js), All-change (λ k. k ≤ bound) js a, Pairs-change js p)

count_running-none : (js : List Job) → any is_running js ≡ false → count_running js ≡ 0
count_running-none [] h = refl
count_running-none (j ∷ js) h = ground (arith, count_running-none js)

count_running-snoc :
    (js : List Job) (j : Job) → count_running (js ++ j ∷ []) ≤ suc (count_running js)
count_running-snoc [] j = ground arith
count_running-snoc (i ∷ js) j = omega (arith, count_running-snoc js j)

start-IsOrderly :
    (number : ℕ) (kind : Text) (js : List Job)
    → any is_running js ≡ false
    → IsOrderly number js
    → IsOrderly (suc number) (js ++ new_job (suc number) kind ∷ [])
start-IsOrderly number kind js e (c, a, p) = (
  omega (arith, count_running-snoc js (new_job (suc number) kind), count_running-none js e),
  All-append (λ j. j.number ≤ suc number) js (new_job (suc number) kind ∷ [])
      (All-map (λ j. j.number ≤ number) _ (λ j h. omega (arith, h)) js a) (omega arith, tt),
  Pairs-snoc (λ a b. a.number < b.number) js (new_job (suc number) kind) p
      (All-map (λ j. j.number ≤ number) _ (λ j h. omega (arith, h)) js a),
)

module _ (seed : Text → ℕ) where
  abbrev pub AllOrderly : Manager → Type 0
  AllOrderly m =
      (evaluation : Text) → IsOrderly (used_number seed evaluation m) (jobs_of evaluation m)

  update-AllOrderly :
      (evaluation : Text) (number : ℕ) (f : Job → Job) (m : Manager)
      → Keeps f
      → AllOrderly m
      → AllOrderly (update evaluation number f m)
  update-AllOrderly evaluation number f m keeps h e =
      rw (lookup-insert evaluation e (change number f (jobs_of evaluation m)) m.jobs)
        elim (Bool-cases (text_eq evaluation e)) [
          | inr q ↦ rw q (h e)
          | inl q ↦ rw q (
              change-IsOrderly f keeps number (used_number seed e m) (jobs_of evaluation m) (
                subst (λ x. IsOrderly (used_number seed e m) (jobs_of x m))
                  (sym (text_eq→eq evaluation e q)) (h e)))
        ]

  start-AllOrderly :
      (evaluation kind : Text) (m : Manager)
      → AllOrderly m
      → AllOrderly (start_job seed evaluation kind m).1
  start-AllOrderly evaluation kind m h e =
      elim (Bool-cases (any is_running (jobs_of evaluation m))) [
        | inl b ↦
            rw (b, lookup-insert evaluation e (jobs_of evaluation m) m.jobs)
              (elim (Bool-cases (text_eq evaluation e)) [
                | inr q ↦ rw q (h e)
                | inl q ↦ rw q (
                    subst (λ x. IsOrderly (used_number seed e m) (jobs_of x m))
                      (sym (text_eq→eq evaluation e q)) (h e))
              ])
        | inr b ↦
            rw
              (
                b,
                lookup-insert evaluation e
                    (jobs_of evaluation m
                      ++ new_job (suc (used_number seed evaluation m)) kind ∷ [])
                    m.jobs,
                lookup-insert evaluation e (suc (used_number seed evaluation m)) m.numbers,
              )
              (elim (Bool-cases (text_eq evaluation e)) [
                | inr q ↦ rw q (h e)
                | inl q ↦ rw q (
                    start-IsOrderly (used_number seed evaluation m) kind (jobs_of evaluation m) b
                      (h evaluation))
              ])
      ]

  obey-AllOrderly : (m : Manager) (c : Call) → AllOrderly m → AllOrderly (obey seed m c)
  obey-AllOrderly m (starts evaluation kind) h = start-AllOrderly evaluation kind m h
  obey-AllOrderly m (settles evaluation number ended) h =
      update-AllOrderly evaluation number (settled ended) m (settled-Keeps ended) h
  obey-AllOrderly m (logs evaluation number line) h =
      update-AllOrderly evaluation number (logged line) m (logged-Keeps line) h
  obey-AllOrderly m (stops evaluation number) h =
      update-AllOrderly evaluation number cancelled_job m cancelled_job-Keeps h
  obey-AllOrderly m pokes h = h

  -- After any calls on a new manager, each evaluation has at most one job that runs, and the
  -- numbers of its jobs rise up to the highest one used, so that no two of its jobs share an id.
  pub run-AllOrderly : (calls : List Call) → AllOrderly (foldl (obey seed) new_manager calls)
  unfolding lookup
  run-AllOrderly calls =
      foldl_inv AllOrderly (obey seed) obey-AllOrderly new_manager calls
        (λ e. (omega arith, tt, tt))
