-- ===== src/Jobs/Log.antt =====
-- What `start` does, and how long a job's log grows.
use code_analyzer.Prelude.{
  ℕ, zero, suc, All, ◌==◌, ◌-◌, ◌≤◌, ◌≡◌, refl, ap, true, false, some, List, [], ◌∷◌, ◌++◌, any,
  length, drop, arith, Bool-cases, inl, inr,
}
use code_analyzer.Prelude.Text.{Text, text_eq_refl}
use code_analyzer.Prelude.Dict.{lookup-insert}
use code_analyzer.Jobs.{
  Job, is_running, logged, log_lines, jobs_of, start_job, Manager, used_number, new_job, change,
  settle, Ended, settled,
}
use code_analyzer.Jobs.Running.{is_running-settled}

length-drop : {A : Type 0} (n : ℕ) (xs : List A) → length (drop n xs) ≡ length xs - n
length-drop zero xs = omega arith
length-drop (suc n) [] = omega arith
length-drop (suc n) (x ∷ xs) = omega (arith, length-drop n xs)

drop-suffix : {A : Type 0} (n : ℕ) (xs : List A) → (front : List A) × (xs ≡ front ++ drop n xs)
drop-suffix zero xs = ([], refl)
drop-suffix (suc n) [] = ([], refl)
drop-suffix (suc n) (x ∷ xs) = let (front, e) = drop-suffix n xs in (x ∷ front, ap (λ t. x ∷ t) e)

-- A job's log never holds more than 200 lines, and what it drops for a new line are its oldest.
pub length-logged :
    (line : Text) (job : Job)
    → (length (logged line job).lines ≤ log_lines)
      × ((front : List Text) × (job.lines ++ line ∷ [] ≡ front ++ (logged line job).lines))
length-logged line job =
    let lines = job.lines ++ line ∷ [] in
    (
      omega (arith, length-drop (length lines - log_lines) lines),
      drop-suffix (length lines - log_lines) lines,
    )

any-settled :
    (number : ℕ) (ended : Ended) (js : List Job)
    → All (λ j. is_running j ≡ true → j.number ≡ number) js
    → any is_running (change number (settled ended) js) ≡ false
any-settled number ended [] h = refl
any-settled number ended (j ∷ js) h = elim (Bool-cases (j.number == number)) [
  | inl e ↦ rw (e, is_running-settled ended j) (any-settled number ended js h.1)
  | inr e ↦ rw (e, not_running j (h.0) e) (any-settled number ended js h.1)
]
  where
    not_running :
        (j : Job)
        → (is_running j ≡ true → j.number ≡ number)
        → (j.number == number) ≡ false
        → is_running j ≡ false
    not_running j h e = elim (Bool-cases (is_running j)) [
      | inr r ↦ r
      | inl r ↦ absurd (ground (arith, h r))
    ]

-- When the work of the one job that runs has ended, by whatever result or exception, the next
-- `start` for its evaluation gives a job, whose number is one more than the last used.
pub start_job-settle :
    (seed : Text → ℕ) (evaluation kind : Text) (number : ℕ) (ended : Ended) (m : Manager)
    → All (λ j. is_running j ≡ true → j.number ≡ number) (jobs_of evaluation m)
    → (start_job seed evaluation kind (settle evaluation number ended m)).0
      ≡ some (new_job (suc (used_number seed evaluation m)) kind)
start_job-settle seed evaluation kind number ended m h =
    rw
      (
        lookup-insert evaluation evaluation (change number (settled ended) (jobs_of evaluation m))
            m.jobs,
        text_eq_refl evaluation,
        any-settled number ended (jobs_of evaluation m) h,
      )
      refl
