-- ===== src/Broker/Examples.antt =====
-- A background request that a turn interrupts.
use code_analyzer.Prelude.{◌+◌, ◌≤◌, ◌≡◌, refl, false, none, some, [], ◌∷◌}
use code_analyzer.Broker.{
  Broker, holds, waits, enter_background, enter_interactive, leave_interactive, World, passes,
  begins_turn, ends_turn, begins_background, Steps, stays, goes, start, new,
}
use code_analyzer.Broker.Quiet.{Yields, reached-Yields, activity-delays}

abbrev held : Broker
held = record {
  resume_after = 5;
  interactive = 0;
  last_activity = none;
  background = 7 ∷ [];
  preemptions = 0;
  cancelled = [];
}

abbrev busy : World
busy = record { broker = held; now = 0; turns = 0 }

holds_at_once : enter_background 0 7 false (start 5).broker ≡ holds held
unfolding enter_background new
holds_at_once = refl

abbrev in_turn : World
in_turn = record { broker = enter_interactive 0 held; now = 0; turns = 1 }

abbrev turn_steps : Steps (start 5) in_turn
turn_steps =
    goes _ _ _ (goes _ _ _ (stays (start 5)) (begins_background (start 5) 7 held holds_at_once))
      (begins_turn busy)

turn_keeps_out : enter_background 9 8 false in_turn.broker ≡ waits
unfolding enter_background enter_interactive
turn_keeps_out = refl

reached-Yields_example : Yields in_turn
reached-Yields_example = reached-Yields 5 in_turn turn_steps

-- Behind a turn that has ended.
abbrev rests : World
rests = record { broker = leave_interactive 0 (enter_interactive 0 held); now = 0; turns = 0 }

abbrev rested : World
rested = record rests { now = 6 }

abbrev resumed : Broker
resumed = record {
  resume_after = 5;
  interactive = 0;
  last_activity = some 0;
  background = 8 ∷ 7 ∷ [];
  preemptions = 1;
  cancelled = 7 ∷ [];
}

holds_later : enter_background rested.now 8 false rested.broker ≡ holds resumed
unfolding enter_background enter_interactive leave_interactive
holds_later = refl

activity-delays_example :
    (rested.broker.interactive ≡ 0) × (in_turn.now + in_turn.broker.resume_after ≤ rested.now)
unfolding leave_interactive enter_interactive
activity-delays_example =
    activity-delays in_turn rests rested (ends_turn in_turn 0 refl) 8 false resumed tt
      (goes rests rests rested (stays rests) (passes rests 6)) holds_later
