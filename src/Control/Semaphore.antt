-- ===== src/Control/Semaphore.antt =====
-- `AdjustableSemaphore` of code_analyzer/control.py. A method holds the condition's lock, so that
-- it is one step; a thread that waits in `acquire` looks at the gate each time that it wakes.
pub mod Bounds
use code_analyzer.Prelude.{
  ℕ, zero, suc, ◌+◌, ◌-◌, Bool, true, false, Option, none, some, List, [], ◌∷◌, max, ltb, leb,
  if◌then◌else◌,
}

pub record Gate : Type 0 where
  pub limit : ℕ
  pub active : ℕ

-- `__init__`
unfoldable pub make : ℕ → Gate
make limit = record { limit = max 1 limit; active = 0 }

pub set_limit : ℕ → Gate → Gate
set_limit limit g = record g { limit = max 1 limit }

-- One look of `acquire` at the gate: `none` says to wait on, `false` that `cancelled` said to stop.
pub acquire_once : Bool → Gate → Gate × Option Bool
acquire_once cancelled g =
    if leb g.limit g.active
    then (g, if cancelled then some false else none)
    else (record g { active = g.active + 1 }, some true)

pub release : Gate → Gate
release g = record g { active = g.active - 1 }

-- What the threads of a run do to the gate: a look of `acquire`, a `release` by a worker that is
-- in, a `set_limit`.
pub data Call : Type 0 where
  enter : (cancelled : Bool) → Call
  leave : Call
  resize : ℕ → Call

-- The gate, and the number of the workers that are in: those that `acquire` answered with `true`
-- and that have not called `release` since.
pub record Site : Type 0 where
  pub gate : Gate
  pub inside : ℕ

-- A worker is in where the answer says so.
abbrev pub let_in : ℕ → Gate × Option Bool → Site
let_in n (g, some true) = record { gate = g; inside = n + 1 }
let_in n (g, some false) = record { gate = g; inside = n }
let_in n (g, none) = record { gate = g; inside = n }

-- Only a worker that is in leaves.
abbrev pub let_out : ℕ → Gate → Site
let_out zero g = record { gate = g; inside = zero }
let_out (suc n) g = record { gate = release g; inside = n }

unfoldable pub apply : Site → Call → Site
unfolding acquire_once release set_limit
apply s (enter cancelled) = let_in s.inside (acquire_once cancelled s.gate)
apply s leave = let_out s.inside s.gate
apply s (resize n) = record s { gate = set_limit n s.gate }

unfoldable pub open_site : ℕ → Site
unfolding make
open_site limit = record { gate = make limit; inside = 0 }
