-- ===== src/Rewrite/Stages.antt =====
-- The stage tracker of internal/rewrite/processor.go: how long each stage of a rewrite has taken. A time
-- is a number of nanoseconds, 0 the zero time; a duration that would be negative is 0, as there. The
-- lock makes each call one step.
use partforge.Base.{
  Text, ℕ, List, [], ◌∷◌, true, false, not, if◌then◌else◌, ◌&&◌, ◌||◌, ◌==◌, ◌+◌, ◌-◌, ◌≤◌, ◌<◌,
  null, text_eq, ◌≡◌, refl, arith, Bool-cases, inl, inr,
}

pub record StageTracker : Type 0 where
  pub started_at : ℕ
  pub stage : Text
  pub stage_started_at : ℕ
  pub completed : List (Text × ℕ)

pub record StageSnapshot : Type 0 where
  pub stage : Text
  pub stage_started_at : ℕ
  pub stage_elapsed : ℕ
  pub total_elapsed : ℕ
  pub completed_stage_durations : List (Text × ℕ)

unfoldable pub new_stage_tracker : ℕ → Text → StageTracker
new_stage_tracker started_at stage = record {
  started_at = started_at;
  stage = stage;
  stage_started_at = started_at;
  completed = [];
}

-- `completed[stage] += duration`
unfoldable pub add_duration : Text → ℕ → List (Text × ℕ) → List (Text × ℕ)
add_duration stage duration [] = (stage, duration) ∷ []
add_duration stage duration ((s, d) ∷ completed) =
    let rest = add_duration stage duration completed in
    if text_eq s stage then (s, d + duration) ∷ completed else (s, d) ∷ rest

unfoldable pub end_stage : ℕ → StageTracker → List (Text × ℕ)
unfolding add_duration
end_stage now t =
    if not (null t.stage) && not (t.stage_started_at == 0)
    then add_duration t.stage (now - t.stage_started_at) t.completed
    else t.completed

-- A `time.Duration` is not clamped at its 292 years.
unfoldable pub start_locked : Text → ℕ → StageTracker → StageTracker
unfolding end_stage
start_locked stage now t =
    if null stage || text_eq stage t.stage
    then t
    else record t { stage = stage; stage_started_at = now; completed = end_stage now t }

unfoldable pub snapshot_locked : ℕ → StageTracker → StageSnapshot
snapshot_locked now t = record {
  stage = t.stage;
  stage_started_at = t.stage_started_at;
  stage_elapsed = now - t.stage_started_at;
  total_elapsed = now - t.started_at;
  completed_stage_durations = t.completed;
}

-- `Start` and `Complete` do the same.
unfoldable pub start_stage : Text → ℕ → StageTracker → StageTracker × StageSnapshot
unfolding start_locked snapshot_locked
start_stage stage now t = (start_locked stage now t, snapshot_locked now (start_locked stage now t))

-- The calls of a rewrite in order, each with its stage and time.
unfoldable pub start_all : List (Text × ℕ) → StageTracker → StageTracker
unfolding start_stage
start_all [] t = t
start_all ((stage, now) ∷ calls) t = start_all calls (start_stage stage now t).0

abbrev pub sum_durations : List (Text × ℕ) → ℕ
sum_durations [] = 0
sum_durations ((_, d) ∷ completed) = d + sum_durations completed

-- The times of the calls do not go back, from one time to another.
abbrev pub Forward : ℕ → List (Text × ℕ) → ℕ → Type 0
Forward from [] upto = from ≤ upto
Forward from ((_, now) ∷ calls) upto = (from ≤ now) × Forward now calls upto

add_duration-sum :
    (stage : Text) (duration : ℕ) (completed : List (Text × ℕ))
    → sum_durations (add_duration stage duration completed) ≡ sum_durations completed + duration
unfolding add_duration
add_duration-sum stage duration [] = omega arith
add_duration-sum stage duration ((s, d) ∷ completed) = elim (Bool-cases (text_eq s stage)) [
  | inl e ↦ rw e (omega arith)
  | inr e ↦ rw e (omega (arith, add_duration-sum stage duration completed))
]

-- The completed stages fill the time up to the start of the current one.
abbrev Accounted : ℕ → StageTracker → Type 0
Accounted started_at t =
    (t.started_at ≡ started_at)
    × (0 < t.stage_started_at)
    × (null t.stage ≡ false)
    × (sum_durations t.completed + started_at ≡ t.stage_started_at)

start_locked-Accounted :
    (started_at : ℕ) (stage : Text) (now : ℕ) (t : StageTracker)
    → t.stage_started_at ≤ now
    → Accounted started_at t
    → Accounted started_at (start_locked stage now t)
      × ((start_locked stage now t).stage_started_at ≤ now)
unfolding start_locked end_stage
start_locked-Accounted started_at stage now t later (same, positive, named, sum) =
    elim (Bool-cases (null stage || text_eq stage t.stage)) [
      | inl e ↦ rw e ((same, positive, named, sum), later)
      | inr e ↦
          let running : (not (null t.stage) && not (t.stage_started_at == 0)) ≡ true =
            ground (arith, named, positive) in
          let total : sum_durations (add_duration t.stage (now - t.stage_started_at) t.completed)
              ≡ sum_durations t.completed + (now - t.stage_started_at) =
            add_duration-sum t.stage (now - t.stage_started_at) t.completed in
          rw (e, running)
            (
              (
                same,
                omega (arith, later, positive),
                ground (arith, e),
                omega (arith, total, sum, later),
              ),
              omega arith,
            )
    ]

start_all-Accounted :
    (started_at from upto : ℕ) (calls : List (Text × ℕ)) (t : StageTracker)
    → t.stage_started_at ≤ from
    → Forward from calls upto
    → Accounted started_at t
    → Accounted started_at (start_all calls t) × ((start_all calls t).stage_started_at ≤ upto)
unfolding start_all start_stage
start_all-Accounted started_at from upto [] t before forward accounted =
    (accounted, omega (arith, before, forward))
start_all-Accounted started_at from upto ((stage, now) ∷ calls) t before (first, forward)
      accounted =
    let (kept, after) =
      start_locked-Accounted started_at stage now t (omega (arith, before, first)) accounted in
    start_all-Accounted started_at now upto calls (start_locked stage now t) after forward kept

-- The durations of the completed stages and of the current one add up to the time since the start,
-- if the clock does not go back.
pub start_all-accounts :
    (started_at now : ℕ) (stage : Text) (calls : List (Text × ℕ))
    → 0 < started_at
    → null stage ≡ false
    → Forward started_at calls now
    → let s = snapshot_locked now (start_all calls (new_stage_tracker started_at stage)) in
      sum_durations s.completed_stage_durations + s.stage_elapsed ≡ s.total_elapsed
unfolding snapshot_locked new_stage_tracker
start_all-accounts started_at now stage calls positive named forward =
    let t : StageTracker = start_all calls (new_stage_tracker started_at stage) in
    let ((same, _, _, sum), before) =
      start_all-Accounted started_at started_at now calls (new_stage_tracker started_at stage)
        (omega arith) forward (refl, positive, named, omega arith) in
    omega (arith, same, sum, before)
