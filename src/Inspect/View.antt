-- ===== src/Inspect/View.antt =====
-- The derived view refines the persisted status.
use bullmq_durable.Inspect.{
  running, sleeping, retrying, waiting, compensating, completed, failed, compensation_failed,
  cancelled, DerivedStatus, DerivedView, derive_view, first_of, is_in_flight_retry, is_parked_sleep,
  view_of, view_sleeping, view_yielded,
}
use bullmq_durable.Base.{
  [], ◌∷◌, is_some, Bool, Bool-cases, List, Option, ap, arith, false, inl, inr, none, reverse, some,
  sym, true, ◌∙◌, ◌≡◌, refl,
}
use bullmq_durable.Types.{InstanceState, StepState, InstanceStatus}

-- The persisted status that a derived one stands for.
abbrev pub coarse : DerivedStatus → InstanceStatus
coarse running = InstanceStatus.running
coarse sleeping = InstanceStatus.yielded
coarse retrying = InstanceStatus.yielded
coarse waiting = InstanceStatus.yielded
coarse compensating = InstanceStatus.compensating
coarse completed = InstanceStatus.completed
coarse failed = InstanceStatus.failed
coarse compensation_failed = InstanceStatus.compensation_failed
coarse cancelled = InstanceStatus.cancelled

-- Whether a view says when the run moves again.
abbrev pub is_due : DerivedStatus → Bool
is_due sleeping = true
is_due retrying = true
is_due _ = false

-- The step that a search finds passes its test.
first_of-passes :
    (p : StepState → Bool) (l : List StepState) {x : StepState} → first_of p l ≡ some x → p x ≡ true
unfolding first_of
first_of-passes p [] h = cc
first_of-passes p (y ∷ ys) {x} h = elim (Bool-cases (p y)) [
  | inl hit ↦
      let q : some y ≡ some x = rw (hit, first_of) at h in
      let same : y ≡ x = cc in ap p (sym same) ∙ hit
  | inr miss ↦ first_of-passes p ys (rw (miss, first_of) at h)
]

abbrev Refines : InstanceStatus → DerivedView → Type 0
Refines st v = (coarse v.derived_status ≡ st) × (is_some v.next_run_at ≡ is_due v.derived_status)

view_sleeping-Refines :
    (steps : List StepState) (o : Option StepState)
    → ((x : StepState) → o ≡ some x → is_parked_sleep x ≡ true)
    → Refines InstanceStatus.yielded (view_sleeping steps o)
unfolding view_sleeping
view_sleeping-Refines steps none h = (refl, refl)
view_sleeping-Refines steps (some x) h = let parked = h x refl in (refl, ground (arith, parked))

view_yielded-Refines :
    (steps : List StepState) (o : Option StepState)
    → ((x : StepState) → o ≡ some x → is_in_flight_retry x ≡ true)
    → Refines InstanceStatus.yielded (view_yielded steps o)
unfolding view_yielded
view_yielded-Refines steps none h =
    view_sleeping-Refines steps _ (λ x e. first_of-passes is_parked_sleep (reverse steps) e)
view_yielded-Refines steps (some x) h = let retry = h x refl in (refl, ground (arith, retry))

view_of-Refines : (st : InstanceStatus) (steps : List StepState) → Refines st (view_of st steps)
unfolding view_of
view_of-Refines InstanceStatus.completed steps = (refl, refl)
view_of-Refines InstanceStatus.failed steps = (refl, refl)
view_of-Refines InstanceStatus.compensation_failed steps = (refl, refl)
view_of-Refines InstanceStatus.cancelled steps = (refl, refl)
view_of-Refines InstanceStatus.running steps = (refl, refl)
view_of-Refines InstanceStatus.compensating steps = (refl, refl)
view_of-Refines InstanceStatus.yielded steps =
    view_yielded-Refines steps _ (λ x e. first_of-passes is_in_flight_retry (reverse steps) e)

-- The derived view is a refinement of the persisted status, and it says when the run moves again
-- exactly if it calls the run sleeping or retrying.
pub derive_view-coarse :
    (i : InstanceState) (steps : List StepState)
    → (coarse (derive_view i steps).derived_status ≡ i.status)
      × (is_some (derive_view i steps).next_run_at ≡ is_due (derive_view i steps).derived_status)
derive_view-coarse i steps = view_of-Refines i.status steps
