-- ===== src/Jobs/Examples.antt =====
-- Two jobs of one evaluation.
use code_analyzer.Prelude.{ℕ, ◌≡◌, refl, List, [], ◌∷◌, foldl, some}
use code_analyzer.Prelude.Text.{Text, codes}
use code_analyzer.Prelude.Dict.{lookup, insert}
use code_analyzer.Schema.Values.{pos}
use code_analyzer.Jobs.{
  Call, starts, settles, logs, stops, pokes, obey, returned, threw, new_job, new_manager, start_job,
  settle, Manager,
}
use code_analyzer.Jobs.Running.{AllOrderly, run-AllOrderly}
use code_analyzer.Jobs.Log.{start_job-settle}

abbrev seed : Text → ℕ
seed _ = 4

abbrev e1 : Text
e1 = codes "e1"

abbrev calls : List Call
calls =
    starts e1 (codes "review")
    ∷ starts e1 (codes "export")
    ∷ logs e1 5 (codes "half")
    ∷ stops e1 5
    ∷ settles e1 5 (returned (some (pos 0)))
    ∷ starts e1 (codes "export")
    ∷ pokes
    ∷ []

run-AllOrderly_example : AllOrderly seed (foldl (obey seed) new_manager calls)
run-AllOrderly_example = run-AllOrderly seed calls

abbrev busy : Manager
busy = record { jobs = (e1, new_job 5 [] ∷ []) ∷ []; numbers = (e1, 5) ∷ []; version = 1 }

start_job-settle_example :
    (start_job seed e1 [] (settle e1 5 (threw [] (codes "OSError")) busy)).0 ≡ some (new_job 6 [])
unfolding lookup insert
start_job-settle_example =
    start_job-settle seed e1 [] 5 (threw [] (codes "OSError")) busy ((λ _. refl), tt)
