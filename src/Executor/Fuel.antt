-- ===== src/Executor/Fuel.antt =====
-- The attempt loop ends: the fuel that `execute` hands it is enough, for every body.
use bullmq_durable.Base.{
  ℕ, zero, suc, ◌+◌, ◌≤◌, ◌<◌, ◌≡◌, refl, ap, ◌∙◌, arith, true, false, String, some, none, ltb,
  if◌then◌else◌, Option, Bool, ◌||◌,
}
use bullmq_durable.Errors.{Thrown, is_yield, is_cancelled, is_non_retryable}
use bullmq_durable.Result.{Result, ok, throws, out_of_fuel, Ends}
use bullmq_durable.Retry.{resolve_retry, ResolvedRetry}
use bullmq_durable.Retry.Ends.{resolve_retry-Ends}
use bullmq_durable.Value.{Value}
use bullmq_durable.Executor.{
  Deps, Tick, Body, StepOptions, RunMode, normal, settle, Action, resume, yield_to_bullmq,
  wait_or_yield, WaitKind, sleep, backoff, run_body, Outcome, returned, raised, end_of,
}
use bullmq_durable.Executor.Attempt.{
  Attempt, handle_step_error, with_policy, retry_or_fail, schedule_retry, record_retry,
  max_attempts, below_max, after_failure, attempt_round, end_round, attempt_loop,
}
use bullmq_durable.Types.{
  StepState, StepStatus, completed, failed, is_completed_step, is_failed_step,
}
use bullmq_durable.Store.Steps.{BeginStepResult, missing, cancelled, created, existing}
use bullmq_durable.Executor.Step.{
  WritableBegin, replayed, attempt, attempt_of, await_backoff, take_over, begin_by_status,
  begin_from, begin_or_replay, fuel_of, attempt_fuel, run_from, execute_writable_step, replay_from,
  replay_settlement_main_step, is_settlement_main_replay, execute,
}

-- A failure is handed back to the loop only in settlement, and within the policy's attempts.
record_retry-ok :
    (m : RunMode) (a : Attempt) (e : Thrown) (n d : ℕ) (t : Tick) {x : ℕ}
    → (record_retry m a e n d t).0 ≡ ok x
    → m ≡ settle
unfolding record_retry yield_to_bullmq
record_retry-ok settle a e n d t h = refl
record_retry-ok normal a e n d t h = cc

max_attempts-settle :
    (a : Attempt) (e : Thrown) (r : ResolvedRetry)
    → a.deps.mode ≡ settle
    → max_attempts a e r ≡ some r.attempts
unfolding max_attempts
max_attempts-settle a e r h = ground arith

schedule_retry-ok :
    (a : Attempt) (e : Thrown) (n : ℕ) (r : ResolvedRetry) (t : Tick) {x : ℕ}
    → (schedule_retry a e n r t).0 ≡ ok x
    → a.deps.mode ≡ settle
unfolding schedule_retry
schedule_retry-ok a e n r t h = record_retry-ok a.deps.mode a e n _ _ h

retry_or_fail-ok :
    (a : Attempt) (e : Thrown) (n : ℕ) (r : ResolvedRetry) (t : Tick) {x : ℕ}
    → (retry_or_fail a e n r t).0 ≡ ok x
    → (a.deps.mode ≡ settle) × (n < r.attempts)
unfolding retry_or_fail
retry_or_fail-ok a e n r t {x} h =
    ground (arith, schedule_retry-ok a e n r t {x = x}, max_attempts-settle a e r)

-- The attempts that the policy allows.
abbrev pub limit_of : Result ResolvedRetry → ℕ
limit_of (ok retry) = retry.attempts
limit_of (throws e) = 0
limit_of out_of_fuel = 0

abbrev policy : Attempt → Result ResolvedRetry
policy a = resolve_retry a.options.retry a.deps.default_retry

with_policy-ok :
    (a : Attempt) (e : Thrown) (n : ℕ) (p : Result ResolvedRetry) (t : Tick) {x : ℕ}
    → (with_policy a e n p t).0 ≡ ok x
    → (a.deps.mode ≡ settle) × (n < limit_of p)
unfolding with_policy
with_policy-ok a e n (ok r) t h = retry_or_fail-ok a e n r t h
with_policy-ok a e n (throws x) t h = cc
with_policy-ok a e n out_of_fuel t h = cc

-- A failure is handed back to the loop only in settlement, and within the policy's attempts.
pub handle_step_error-ok :
    (a : Attempt) (e : Thrown) (n : ℕ) (t : Tick) {x : ℕ}
    → (handle_step_error a e n t).0 ≡ ok x
    → (a.deps.mode ≡ settle) × (n < limit_of (policy a))
unfolding handle_step_error
handle_step_error-ok a e n t {x} h = ground (arith, with_policy-ok a e n (policy a) t {x = x})

if_Ends {ℓ} :
    {A : Type ℓ} (b : Bool) (x y : Result A × Tick)
    → Ends x.0
    → Ends y.0
    → Ends (if b then x else y).0
if_Ends true x y h k = h
if_Ends false x y h k = k

record_retry-Ends :
    (m : RunMode) (a : Attempt) (e : Thrown) (n d : ℕ) (t : Tick)
    → Ends (record_retry m a e n d t).0
unfolding record_retry yield_to_bullmq
record_retry-Ends settle a e n d t = tt
record_retry-Ends normal a e n d t = tt

retry_or_fail-Ends :
    (a : Attempt) (e : Thrown) (n : ℕ) (r : ResolvedRetry) (t : Tick)
    → Ends (retry_or_fail a e n r t).0
unfolding retry_or_fail schedule_retry
retry_or_fail-Ends a e n r t =
    if_Ends (below_max n (max_attempts a e r)) _ _ (record_retry-Ends _ a e n _ _) tt

with_policy-Ends :
    (a : Attempt) (e : Thrown) (n : ℕ) (p : Result ResolvedRetry) (t : Tick)
    → Ends p
    → Ends (with_policy a e n p t).0
unfolding with_policy
with_policy-Ends a e n (ok r) t h = retry_or_fail-Ends a e n r t
with_policy-Ends a e n (throws x) t h = tt
with_policy-Ends a e n out_of_fuel t h = h

handle_step_error-Ends :
    (a : Attempt) (e : Thrown) (n : ℕ) (t : Tick) → Ends (handle_step_error a e n t).0
unfolding handle_step_error
handle_step_error-Ends a e n t = if_Ends (is_yield e || is_cancelled e) _ _ tt (
    if_Ends (is_non_retryable e) _ _ tt
      (with_policy-Ends a e n (policy a) t (resolve_retry-Ends _ _)))

pub wait_or_yield-Ends :
    (m : RunMode) (k : WaitKind) (d : ℕ) (reason : String) (t : Tick)
    → Ends (wait_or_yield m k d reason t).0
unfolding wait_or_yield yield_to_bullmq
wait_or_yield-Ends settle sleep d reason t = tt
wait_or_yield-Ends settle backoff d reason t = tt
wait_or_yield-Ends normal k d reason t = tt

-- A chain ends if its first part does, and its second does after the first yields a value.
pub resume-Ends {ℓ κ} :
    {A : Type ℓ} {B : Type κ} (r : Result A) (f : A → Action B) (t : Tick)
    → Ends r
    → ((x : A) → r ≡ ok x → Ends (f x t).0)
    → Ends (resume r f t).0
unfolding resume
resume-Ends (ok x) f t h k = k x refl
resume-Ends (throws x) f t h k = tt
resume-Ends out_of_fuel f t h k = h

after_failure-Ends :
    (a : Attempt) (n : ℕ) (again : Action Value) (e : Thrown) (t : Tick)
    → (n < limit_of (policy a) → (u : Tick) → Ends (again u).0)
    → Ends (after_failure a n again e t).0
unfolding after_failure
after_failure-Ends a n again e t h = resume-Ends _ _ _ (handle_step_error-Ends a e n t) (λ d e1.
    resume-Ends _ _ _ (wait_or_yield-Ends a.deps.mode backoff d _ _)
      (λ w e2. h (handle_step_error-ok a e n t e1).1 _))

round-Ends :
    (a : Attempt) (fn : Body) (n : ℕ) (again : Action Value) (o : Outcome) (u : Tick)
    → (n < limit_of (policy a) → (v : Tick) → Ends (again v).0)
    → Ends (end_round a n again (end_of o) u).0
unfolding end_round
round-Ends a fn n again (returned v) u h = tt
round-Ends a fn n again (raised e) u h = after_failure-Ends a n again e u h

-- With fuel for the attempts that the policy leaves, the loop ends.
attempt_loop-Ends :
    (a : Attempt) (fn : Body) (fuel n : ℕ) (t : Tick)
    → 1 ≤ fuel
    → suc (limit_of (policy a)) ≤ n + fuel
    → Ends (attempt_loop a fn fuel n t).0
unfolding attempt_loop attempt_round run_body
attempt_loop-Ends a fn zero n t pos enough = absurd (omega arith)
attempt_loop-Ends a fn (suc fuel) n t pos enough =
    round-Ends a fn n _ (fn n).outcome _
      (λ lt u. attempt_loop-Ends a fn fuel (n + 1) u (omega arith) (omega arith))

await_backoff-Ends :
    (d : Deps) (key : String) (at : Option ℕ) (t : Tick) → Ends (await_backoff d key at t).0
unfolding await_backoff
await_backoff-Ends d key none t = tt
await_backoff-Ends d key (some at) t =
    if_Ends (ltb t.now at) _ _ (wait_or_yield-Ends d.mode backoff _ _ t) tt

begin_by_status-Ends :
    (d : Deps) (key : String) (o : StepOptions) (st : StepState) (x : StepStatus) (t : Tick)
    → Ends (begin_by_status d key o st x t).0
unfolding begin_by_status take_over
begin_by_status-Ends d key o st completed t = tt
begin_by_status-Ends d key o st failed t = tt
begin_by_status-Ends d key o st _ t =
    resume-Ends _ _ _ (await_backoff-Ends d key st.next_run_at t) (λ w e. tt)

begin_from-Ends :
    (d : Deps) (key : String) (o : StepOptions) (b : BeginStepResult) (t : Tick)
    → Ends (begin_from d key o b t).0
unfolding begin_from
begin_from-Ends d key o missing t = tt
begin_from-Ends d key o cancelled t = tt
begin_from-Ends d key o (created seq) t = tt
begin_from-Ends d key o (existing st) t = begin_by_status-Ends d key o st st.status t

fuel_pos : (p : Result ResolvedRetry) → 1 ≤ fuel_of p
fuel_pos (ok r) = omega arith
fuel_pos (throws e) = omega arith
fuel_pos out_of_fuel = omega arith

limit-fuel : (p : Result ResolvedRetry) (n : ℕ) → 1 ≤ n → suc (limit_of p) ≤ n + fuel_of p
limit-fuel (ok r) n h = omega arith
limit-fuel (throws e) n h = omega arith
limit-fuel out_of_fuel n h = omega arith

-- The attempt that a step begins with is the first or a later one.
abbrev Numbered : Result WritableBegin × Tick → Type 0
Numbered x = (n seq at : ℕ) → x.0 ≡ ok (attempt n seq at) → 1 ≤ n

take_over-Numbered :
    (r : Result (Unit {0})) (d : Deps) (key : String) (o : StepOptions) (st : StepState) (now : ℕ)
    (t : Tick)
    → Numbered (resume r (λ _. take_over d key o st now) t)
unfolding resume take_over
take_over-Numbered (ok x) d key o st now t n seq at e =
    let same : st.attempts + 1 ≡ n = cc in omega arith
take_over-Numbered (throws x) d key o st now t n seq at e = cc
take_over-Numbered out_of_fuel d key o st now t n seq at e = cc

begin_by_status-Numbered :
    (d : Deps) (key : String) (o : StepOptions) (st : StepState) (x : StepStatus) (t : Tick)
    → Numbered (begin_by_status d key o st x t)
unfolding begin_by_status
begin_by_status-Numbered d key o st completed t n seq at e = cc
begin_by_status-Numbered d key o st failed t n seq at e = cc
begin_by_status-Numbered d key o st _ t n seq at e =
    take_over-Numbered _ d key o st t.now _ n seq at e

begin_from-Numbered :
    (d : Deps) (key : String) (o : StepOptions) (b : BeginStepResult) (t : Tick)
    → Numbered (begin_from d key o b t)
unfolding begin_from
begin_from-Numbered d key o missing t n seq at e = cc
begin_from-Numbered d key o cancelled t n seq at e = cc
begin_from-Numbered d key o (created s) t n seq at e = let same : 1 ≡ n = cc in omega arith
begin_from-Numbered d key o (existing st) t n seq at e =
    begin_by_status-Numbered d key o st st.status t n seq at e

run_from-Ends :
    (d : Deps) (key : String) (o : StepOptions) (fn : Body) (b : WritableBegin) (t : Tick)
    → ((n seq at : ℕ) → b ≡ attempt n seq at → 1 ≤ n)
    → Ends (run_from d key o fn b t).0
unfolding run_from
run_from-Ends d key o fn (replayed v) t h = tt
run_from-Ends d key o fn (attempt n seq s) t h =
    attempt_loop-Ends (attempt_of d key o seq s) fn (attempt_fuel d o) n t (fuel_pos _)
      (limit-fuel _ n (h n seq s refl))

replay_from-Ends :
    (key : String) (o : StepOptions) (st : Option StepState) (t : Tick)
    → Ends (replay_from key o st t).0
unfolding replay_from
replay_from-Ends key o none t = tt
replay_from-Ends key o (some st) t =
    if_Ends (is_completed_step st.status) _ _ tt (if_Ends (is_failed_step st.status) _ _ tt tt)

-- `ctx.step` ends for every body, whatever the store holds: the attempt loop goes on for no more
-- rounds than the resolved policy allows attempts, one at least.
pub execute-Ends :
    (d : Deps) (key : String) (o : StepOptions) (fn : Body) (t : Tick)
    → Ends (execute d key o fn t).0
unfolding execute execute_writable_step replay_settlement_main_step begin_or_replay
execute-Ends d key o fn t =
    if_Ends (is_settlement_main_replay d t) _ _ (replay_from-Ends key o _ t) (
      resume-Ends _ _ _ (begin_from-Ends d key o _ _) (λ b e.
        run_from-Ends d key o fn b _
          (λ n seq at q. begin_from-Numbered d key o _ _ n seq at (e ∙ ap ok q))))
