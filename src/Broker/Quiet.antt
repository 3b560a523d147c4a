-- ===== src/Broker/Quiet.antt =====
-- Background requests run only while the conversation is quiet, or are cancelled.
use code_analyzer.Prelude.{
  ℕ, ◌+◌, ◌≤◌, ◌≡◌, ◌≢◌, ◌∙◌, sym, ap, subst, Bool, true, false, refl, inl, inr, Option, none, some,
  List, [], ◌∷◌, ◌++◌, ◌==◌, All, All-map, Has, Has-append_left, Bool-cases, arith,
}
use code_analyzer.Broker.{
  Broker, holds, add, discard, is_rested, ready, enter_interactive, leave_interactive,
  note_activity, enter_background, leave_background, World, Step, passes, begins_turn, ends_turn,
  types, begins_background, ends_background, Steps, stays, goes, start, new,
}

-- The broker counts the turns that run, and while one runs every background request has been
-- cancelled.
pub record Yields (w : World) : Type 0 where
  counted : w.broker.interactive ≡ w.turns
  cancelled : w.broker.interactive ≢ 0 → All (λ t. Has t w.broker.cancelled) w.broker.background

All-discard :
    (P : ℕ → Type 0) (token : ℕ) (tokens : List ℕ) → All P tokens → All P (discard token tokens)
unfolding discard
All-discard P token [] h = tt
All-discard P token (t ∷ tokens) h = elim (Bool-cases (t == token)) [
  | inl e ↦ rw e (All-discard P token tokens h.1)
  | inr e ↦ rw e (h.0, All-discard P token tokens h.1)
]

All-Has : (xs : List ℕ) → All (λ t. Has t xs) xs
All-Has [] = tt
All-Has (x ∷ xs) =
    (inl refl, All-map (λ t. Has t xs) (λ t. Has t (x ∷ xs)) (λ t h. inr h) xs (All-Has xs))

-- The looks that hold a slot: the conversation is idle and has been for long enough.
pub record IsQuiet (b : Broker) (now : ℕ) : Type 0 where
  idle : b.interactive ≡ 0
  rested : is_rested b.resume_after b.last_activity now ≡ true

enter_background-holds :
    (now token : ℕ) (stopped : Bool) (b b' : Broker)
    → enter_background now token stopped b ≡ holds b'
    → (ready b now ≡ true) × (record b { background = add token b.background } ≡ b')
unfolding enter_background
enter_background-holds now token true b b' h = elim (Bool-cases (ready b now)) [
  | inl e ↦ (e, let k = rw e at h in cc)
  | inr e ↦ absurd (let k = rw e at h in cc)
]
enter_background-holds now token false b b' h = elim (Bool-cases (ready b now)) [
  | inl e ↦ (e, let k = rw e at h in cc)
  | inr e ↦ absurd (let k = rw e at h in cc)
]

pub holds-IsQuiet :
    (now token : ℕ) (stopped : Bool) (b b' : Broker)
    → enter_background now token stopped b ≡ holds b'
    → IsQuiet b now
unfolding ready
holds-IsQuiet now token stopped b b' h =
    let (e, _) = enter_background-holds now token stopped b b' h in
    record { idle = ground (arith, e); rested = ground (arith, e) }

step-Yields : (w u : World) → Step w u → Yields w → Yields u
unfolding enter_interactive leave_interactive note_activity leave_background
step-Yields w _ (passes _ seconds) h = record { counted = h.counted; cancelled = h.cancelled }
step-Yields w _ (begins_turn _) h = record {
  counted = let c = h.counted in omega arith;
  cancelled = λ _.
      All-map (λ t. Has t w.broker.background)
        (λ t. Has t (w.broker.background ++ w.broker.cancelled))
        (λ t. Has-append_left t w.broker.background w.broker.cancelled) w.broker.background
        (All-Has w.broker.background);
}
step-Yields w _ (ends_turn _ n e) h = record {
  counted = let c = h.counted in omega arith;
  cancelled = λ k. h.cancelled (λ z. k (omega arith));
}
step-Yields w _ (types _) h = record { counted = h.counted; cancelled = h.cancelled }
step-Yields w _ (begins_background _ token b e) h =
    let (r, same) = enter_background-holds w.now token false w.broker b e in
    let quiet = holds-IsQuiet w.now token false w.broker b e in
    record {
      counted = ap (λ b. b.interactive) (sym same) ∙ h.counted;
      cancelled = λ k. absurd (k (ap (λ b. b.interactive) (sym same) ∙ quiet.idle));
    }
step-Yields w _ (ends_background _ token) h = record {
  counted = h.counted;
  cancelled =
      λ k. All-discard (λ t. Has t w.broker.cancelled) token w.broker.background (h.cancelled k);
}

start-Yields : (resume_after : ℕ) → Yields (start resume_after)
unfolding new
start-Yields resume_after = record { counted = refl; cancelled = λ k. tt }

steps-Yields : (w u : World) → Steps w u → Yields w → Yields u
steps-Yields w _ (stays _) h = h
steps-Yields w _ (goes _ v u steps step) h = step-Yields v u step (steps-Yields w v steps h)

-- At every moment of a broker's life: it counts exactly the turns that run, and while one runs
-- each background request that holds a slot has been cancelled.
pub reached-Yields : (resume_after : ℕ) (w : World) → Steps (start resume_after) w → Yields w
reached-Yields resume_after w steps =
    steps-Yields (start resume_after) w steps (start-Yields resume_after)

-- The last activity was not in front of a time.
abbrev Since : ℕ → Option ℕ → Type 0
Since t none = ⊥
Since t (some last) = t ≤ last

-- There has been activity at a time or later, and the clock has not gone back.
record IsAfter (t resume_after : ℕ) (w : World) : Type 0 where
  passed : t ≤ w.now
  active : Since t w.broker.last_activity
  same : w.broker.resume_after ≡ resume_after

step-IsAfter :
    (t resume_after : ℕ) (w u : World)
    → Step w u
    → IsAfter t resume_after w
    → IsAfter t resume_after u
unfolding enter_interactive leave_interactive note_activity leave_background
step-IsAfter t resume_after w _ (passes _ seconds) h = record {
  passed = let p = h.passed in omega arith;
  active = h.active;
  same = h.same;
}
step-IsAfter t resume_after w _ (begins_turn _) h = record {
  passed = h.passed;
  active = h.passed;
  same = h.same;
}
step-IsAfter t resume_after w _ (ends_turn _ n e) h = record {
  passed = h.passed;
  active = h.passed;
  same = h.same;
}
step-IsAfter t resume_after w _ (types _) h = record {
  passed = h.passed;
  active = h.passed;
  same = h.same;
}
step-IsAfter t resume_after w _ (begins_background _ token b e) h =
    let (r, same) = enter_background-holds w.now token false w.broker b e in
    record {
      passed = h.passed;
      active = subst (λ b. Since t b.last_activity) same h.active;
      same = ap (λ b. b.resume_after) (sym same) ∙ h.same;
    }
step-IsAfter t resume_after w _ (ends_background _ token) h = record {
  passed = h.passed;
  active = h.active;
  same = h.same;
}

steps-IsAfter :
    (t resume_after : ℕ) (w u : World)
    → Steps w u
    → IsAfter t resume_after w
    → IsAfter t resume_after u
steps-IsAfter t resume_after w _ (stays _) h = h
steps-IsAfter t resume_after w _ (goes _ v u steps step) h =
    step-IsAfter t resume_after v u step (steps-IsAfter t resume_after w v steps h)

is_rested-Since :
    (t resume_after now : ℕ) (last : Option ℕ)
    → Since t last
    → is_rested resume_after last now ≡ true
    → t + resume_after ≤ now
unfolding is_rested
is_rested-Since t resume_after now none s h = elim s [ ]
is_rested-Since t resume_after now (some last) s h = ground (arith, s, h)

active-delays :
    (v u : World) (token : ℕ) (stopped : Bool) (b : Broker)
    → v.broker.last_activity ≡ some v.now
    → Steps v u
    → enter_background u.now token stopped u.broker ≡ holds b
    → (u.broker.interactive ≡ 0) × (v.now + v.broker.resume_after ≤ u.now)
active-delays v u token stopped b e steps h =
    let quiet = holds-IsQuiet u.now token stopped u.broker b h in
    let after = steps-IsAfter v.now v.broker.resume_after v u steps (record {
      passed = omega arith;
      active = subst (Since v.now) (sym e) (omega arith);
      same = refl;
    }) in
    (
      quiet.idle,
      is_rested-Since v.now v.broker.resume_after u.now u.broker.last_activity after.active
          (ap (λ n. is_rested n u.broker.last_activity u.now) (sym after.same) ∙ quiet.rested),
    )

-- The step begins or ends a turn, or is the user's typing.
abbrev pub IsActivity : (v w : World) → Step v w → Type 0
IsActivity v _ (passes _ seconds) = ⊥
IsActivity v _ (begins_turn _) = Unit
IsActivity v _ (ends_turn _ n e) = Unit
IsActivity v _ (types _) = Unit
IsActivity v _ (begins_background _ token b e) = ⊥
IsActivity v _ (ends_background _ token) = ⊥

-- What an activity leaves for the looks behind it.
record Notes (v w : World) : Type 0 where
  active : w.broker.last_activity ≡ some w.now
  moment : w.now ≡ v.now
  same : w.broker.resume_after ≡ v.broker.resume_after

IsActivity-Notes : (v w : World) (a : Step v w) → IsActivity v w a → Notes v w
unfolding enter_interactive leave_interactive note_activity
IsActivity-Notes v _ (passes _ seconds) h = elim h [ ]
IsActivity-Notes v _ (begins_turn _) h = record { active = refl; moment = refl; same = refl }
IsActivity-Notes v _ (ends_turn _ n e) h = record { active = refl; moment = refl; same = refl }
IsActivity-Notes v _ (types _) h = record { active = refl; moment = refl; same = refl }
IsActivity-Notes v _ (begins_background _ token b e) h = elim h [ ]
IsActivity-Notes v _ (ends_background _ token) h = elim h [ ]

-- Behind a step that begins or ends a turn or is the user's typing, a background request gets a
-- slot no earlier than `resume_after` later, whatever the threads do in between and however often
-- it looks, and only while no turn runs.
pub activity-delays :
    (v w u : World) (a : Step v w) (token : ℕ) (stopped : Bool) (b : Broker)
    → IsActivity v w a
    → Steps w u
    → enter_background u.now token stopped u.broker ≡ holds b
    → (u.broker.interactive ≡ 0) × (v.now + v.broker.resume_after ≤ u.now)
activity-delays v w u a token stopped b h steps e =
    let n = IsActivity-Notes v w a h in
    let (idle, late) = active-delays w u token stopped b n.active steps e in
    let m = n.moment in let r = n.same in (idle, omega (arith, late, m, r))
