-- ===== src/Jobs.antt =====
-- code_analyzer/jobs/manager.py: one background job per evaluation at a time. A job is found by its
-- evaluation and its number, of which its id is `J` and the digits. Times are left out. `seed`
-- stands for the number that the ledger knows. The lock makes each method one step, and the end of
-- `_run` is one.
pub mod Running
pub mod Log
mod Examples
use code_analyzer.Prelude.{
  ℕ, zero, suc, ◌+◌, ◌-◌, Bool, true, false, ◌||◌, Option, none, some, List, [], ◌∷◌, ◌++◌, map,
  ◌==◌, if◌then◌else◌, any, length, drop,
}
use code_analyzer.Prelude.Text.{Text, is_empty, decimal}
use code_analyzer.Prelude.Dict.{lookup, insert}
use code_analyzer.Schema.Values.{ℤ, pos, negsuc}

-- `LOG_LINES`
abbrev pub log_lines : ℕ
log_lines = 200

pub data JobStatus : Type 0 where
  running stopped finished failed : JobStatus

pub record Job : Type 0 where
  pub number : ℕ
  pub kind : Text
  pub cancelled : Bool
  pub status : JobStatus
  pub exit_code : Option ℤ
  pub error : Text
  pub lines : List Text

-- `Job.id`
abbrev pub job_id : Job → Text
job_id job = b'J' ∷ decimal job.number

abbrev pub runs : JobStatus → Bool
runs running = true
runs _ = false

abbrev pub is_running : Job → Bool
is_running job = runs job.status

-- How the work ended: with its return value, or with an exception's text and type.
pub data Ended : Type 0 where
  returned : Option ℤ → Ended
  threw : (message name : Text) → Ended

abbrev is_success : Option ℤ → Bool
is_success (some (pos n)) = n == 0 || n == 1 || n == 10
is_success _ = false

-- What `_run` makes of a job when its work has ended.
abbrev pub settled : Ended → Job → Job
settled (returned code) job = record job {
  exit_code = code;
  status = if job.cancelled then stopped else if is_success code then finished else failed;
}
settled (threw message name) job = record job {
  error = if is_empty message then name else message;
  status = if job.cancelled then stopped else failed;
}

-- `lines.append`, in a deque that holds the last 200
abbrev pub logged : Text → Job → Job
logged line job =
    let lines = job.lines ++ line ∷ [] in
    record job { lines = drop (length lines - log_lines) lines }

abbrev pub cancelled_job : Job → Job
cancelled_job job = record job { cancelled = true }

pub record Manager : Type 0 where
  pub jobs : List (Text × List Job)
  pub numbers : List (Text × ℕ)
  pub version : ℕ

-- `JobManager.__init__`
abbrev pub new_manager : Manager
new_manager = record { jobs = []; numbers = []; version = 0 }

abbrev pub or_none : Option (List Job) → List Job
or_none none = []
or_none (some js) = js

-- `jobs`
abbrev pub jobs_of : Text → Manager → List Job
jobs_of evaluation m = or_none (lookup evaluation m.jobs)

abbrev pub or_seed : Option ℕ → ℕ → ℕ
or_seed none seed = seed
or_seed (some n) seed = n

-- The highest number that the evaluation has used.
abbrev pub used_number : (Text → ℕ) → Text → Manager → ℕ
used_number seed evaluation m = or_seed (lookup evaluation m.numbers) (seed evaluation)

abbrev pub new_job : ℕ → Text → Job
new_job number kind = record {
  number = number;
  kind = kind;
  cancelled = false;
  status = running;
  exit_code = none;
  error = [];
  lines = [];
}

-- `start`, with the new job, or none where it raises
abbrev pub start_job : (Text → ℕ) → Text → Text → Manager → Option Job × Manager
start_job seed evaluation kind m =
    let js = jobs_of evaluation m in
    let number = suc (used_number seed evaluation m) in
    let busy = any is_running js in
    (
      if busy then none else some (new_job number kind),
      record {
        jobs = insert evaluation (if busy then js else js ++ new_job number kind ∷ []) m.jobs;
        numbers = if busy then m.numbers else insert evaluation number m.numbers;
        version = if busy then m.version else suc m.version;
      },
    )

-- The job of that number is changed, and the listeners are told.
abbrev pub change : ℕ → (Job → Job) → List Job → List Job
change number f [] = []
change number f (job ∷ js) = (if job.number == number then f job else job) ∷ change number f js

abbrev pub update : Text → ℕ → (Job → Job) → Manager → Manager
update evaluation number f m = record m {
  jobs = insert evaluation (change number f (jobs_of evaluation m)) m.jobs;
  version = suc m.version;
}

-- The locked end of `_run`
abbrev pub settle : Text → ℕ → Ended → Manager → Manager
settle evaluation number ended m = update evaluation number (settled ended) m

-- `log`
abbrev pub log : Text → ℕ → Text → Manager → Manager
log evaluation number line m = update evaluation number (logged line) m

-- `stop` of a job that `get` finds
abbrev pub stop : Text → ℕ → Manager → Manager
stop evaluation number m = update evaluation number cancelled_job m

-- `poke`
abbrev pub poke : Manager → Manager
poke m = record m { version = suc m.version }

pub data Call : Type 0 where
  starts : (evaluation kind : Text) → Call
  settles : (evaluation : Text) (number : ℕ) → Ended → Call
  logs : (evaluation : Text) (number : ℕ) (line : Text) → Call
  stops : (evaluation : Text) (number : ℕ) → Call
  pokes : Call

abbrev pub obey : (Text → ℕ) → Manager → Call → Manager
obey seed m (starts evaluation kind) = (start_job seed evaluation kind m).1
obey seed m (settles evaluation number ended) = settle evaluation number ended m
obey seed m (logs evaluation number line) = log evaluation number line m
obey seed m (stops evaluation number) = stop evaluation number m
obey seed m pokes = poke m
