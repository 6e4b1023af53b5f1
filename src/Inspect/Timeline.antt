-- ===== src/Inspect/Timeline.antt =====
-- What the timeline of inspect/derive.ts shows: the run, its steps and its log, by ascending time.
use bullmq_durable.Base.{ℕ, String, Bool, true, false, Option, none, some, List, ◌≡◌}
use mathlib.Core.List.{Mem}
use bullmq_durable.Types.{StepState, is_completed_step, is_failed_step}
use bullmq_durable.Inspect.Events.{RunEvent}
use mathlib.Core.List.Perm
use mathlib.Core.List.Memᴰ

-- An event at the time with the message, about the step if there is one.
abbrev pub Shows : ℕ → String → List RunEvent → Type 0
Shows at message l = (v : RunEvent) × Mem v l × (v.timestamp ≡ at) × (v.message ≡ message)

abbrev pub Marks : ℕ → String → List RunEvent → Type 0
Marks at key l = (v : RunEvent) × Mem v l × (v.timestamp ≡ at) × (v.step_key ≡ some key)

-- If there is such a time.
abbrev pub ShownAt : Option ℕ → String → List RunEvent → Type 0
ShownAt none message l = Unit
ShownAt (some at) message l = Shows at message l

abbrev pub MarkedAt : Option ℕ → String → List RunEvent → Type 0
MarkedAt none key l = Unit
MarkedAt (some at) key l = Marks at key l

abbrev pub time_if : Bool → Option ℕ → Option ℕ
time_if true o = o
time_if false o = none

-- The start of a step, its completion if it is completed and its failure if it failed.
abbrev pub StepShown : List RunEvent → StepState → Type 0
StepShown l st =
    MarkedAt st.started_at st.key l
    × MarkedAt (time_if (is_completed_step st.status) st.completed_at) st.key l
    × MarkedAt (time_if (is_failed_step st.status) st.failed_at) st.key l

abbrev Within : List RunEvent → List RunEvent → Type 0
Within l l' = (v : RunEvent) → Mem v l → Mem v l'
