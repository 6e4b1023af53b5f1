-- ===== src/Executor/Invoked.antt =====
-- Which bodies a call of `ctx.step` runs: none in a settlement replay, one at most in normal mode.
use bullmq_durable.Base.{
  ap, ℕ, zero, suc, ◌≡◌, refl, ◌∙◌, ◌⊎◌, inl, inr, arith, String, Option, some, none, sym, Bool,
  true, false, ◌∷◌, if◌then◌else◌, ◌||◌, ltb, or_else,
}
use bullmq_durable.Errors.{Thrown, is_yield, is_cancelled, is_non_retryable}
use bullmq_durable.Value.{Value, clone_value}
use bullmq_durable.Types.{StepState, StepStatus, completed, failed, main}
use bullmq_durable.Result.{Result, ok, throws, out_of_fuel}
use bullmq_durable.Retry.{ResolvedRetry}
use bullmq_durable.Store.Steps.{BeginStepResult, missing, cancelled, created, existing}
use bullmq_durable.Executor.{
  Deps, Tick, Body, StepOptions, RunMode, normal, settle, Action, resume, wait_or_yield,
  yield_to_bullmq, WaitKind, backoff, sleep, run_body, Outcome, returned, raised, end_of,
}
use bullmq_durable.Executor.Attempt.{
  Attempt, register_rollback, handle_step_error, with_policy, retry_or_fail, schedule_retry,
  record_retry, fail_step, after_failure, end_round, attempt_round, attempt_loop, checkpoint, save,
  save_running, below_max, max_attempts, completed_state,
}
use bullmq_durable.Executor.Step.{
  WritableBegin, replayed, attempt, attempt_of, await_backoff, take_over, begin_by_status,
  begin_from, begin_or_replay, attempt_fuel, run_from, execute_writable_step, replay_from,
  replay_settlement_main_step, is_settlement_main_replay, execute,
}
use bullmq_durable.Executor.Sleep.{sleep_for, replay_settlement_main_sleep, replay_sleep_from}
use bullmq_durable.Executor.Fuel.{handle_step_error-ok}

-- Nothing is written, no body is run, no time passes.
abbrev pub ReadOnly {ℓ} : {A : Type ℓ} → Result A × Tick → Tick → Type 0
ReadOnly x t = (x.1.store ≡ t.store) × (x.1.invoked ≡ t.invoked) × (x.1.now ≡ t.now)

register_rollback-ReadOnly :
    (key : String) (seq : ℕ) (v w : Value) (o : StepOptions) (t : Tick)
    → ReadOnly (ok w, register_rollback key seq v o t) t
unfolding register_rollback
register_rollback-ReadOnly key seq v w o t = ground arith

replay_from-ReadOnly :
    (key : String) (o : StepOptions) (st : Option StepState) (t : Tick)
    → ReadOnly (replay_from key o st t) t
unfolding replay_from
replay_from-ReadOnly key o none t = (refl, refl, refl)
replay_from-ReadOnly key o (some st) t =
    ground (arith, register_rollback-ReadOnly key (or_else st.seq 0) st.result st.result o t)

replay_sleep_from-ReadOnly :
    (key : String) (st : Option StepState) (t : Tick) → ReadOnly (replay_sleep_from key st t) t
unfolding replay_sleep_from
replay_sleep_from-ReadOnly key none t = (refl, refl, refl)
replay_sleep_from-ReadOnly key (some st) t = ground arith

when_true {ℓ} :
    {A : Type ℓ} (b : Bool) (x y : Result A × Tick) (t : Tick)
    → b ≡ true
    → ReadOnly x t
    → ReadOnly (if b then x else y) t
when_true true x y t q h = h
when_true false x y t q h = cc

-- The forward phase of a settlement tick is read-only: `ctx.step` and `ctx.sleep` write nothing to
-- the store, run no body and do not wait, whatever they end in.
pub settlement-ReadOnly :
    (d : Deps) (key : String) (o : StepOptions) (fn : Body) (delay_ms : ℕ) (t : Tick)
    → d.mode ≡ settle
    → t.active_phase ≡ main
    → ReadOnly (execute d key o fn t) t × ReadOnly (sleep_for d key delay_ms t) t
unfolding execute sleep_for replay_settlement_main_step replay_settlement_main_sleep
settlement-ReadOnly d key o fn delay_ms t m p = (
  when_true (is_settlement_main_replay d t) _ _ t (simp (m, p)) (replay_from-ReadOnly key o _ t),
  when_true (is_settlement_main_replay d t) _ _ t (simp (m, p))
      (replay_sleep_from-ReadOnly key _ t),
)

-- No body is run.
abbrev Quiet {ℓ} : {A : Type ℓ} → Result A × Tick → Tick → Type 0
Quiet x t = x.1.invoked ≡ t.invoked

if_Quiet {ℓ} :
    {A : Type ℓ} (b : Bool) (x y : Result A × Tick) (t : Tick)
    → Quiet x t
    → Quiet y t
    → Quiet (if b then x else y) t
if_Quiet true x y t h k = h
if_Quiet false x y t h k = k

resume-Quiet {ℓ κ} :
    {A : Type ℓ} {B : Type κ} (r : Result A) (f : A → Action B) (u t : Tick)
    → u.invoked ≡ t.invoked
    → ((x : A) → r ≡ ok x → Quiet (f x u) t)
    → Quiet (resume r f u) t
unfolding resume
resume-Quiet (ok x) f u t h k = k x refl
resume-Quiet (throws e) f u t h k = h
resume-Quiet out_of_fuel f u t h k = h

record_retry-Quiet :
    (m : RunMode) (a : Attempt) (e : Thrown) (n d : ℕ) (t : Tick)
    → Quiet (record_retry m a e n d t) t
unfolding record_retry yield_to_bullmq save
record_retry-Quiet settle a e n d t = refl
record_retry-Quiet normal a e n d t = refl

schedule_retry-Quiet :
    (a : Attempt) (e : Thrown) (n : ℕ) (r : ResolvedRetry) (t : Tick)
    → Quiet (schedule_retry a e n r t) t
unfolding schedule_retry
schedule_retry-Quiet a e n r t = record_retry-Quiet a.deps.mode a e n _ _ ∙ ground arith

fail_step_quiet :
    (a : Attempt) (e : Thrown) (n : ℕ) (t : Tick) → (fail_step a e n t).invoked ≡ t.invoked
unfolding fail_step save
fail_step_quiet a e n t = refl

retry_or_fail-Quiet :
    (a : Attempt) (e : Thrown) (n : ℕ) (r : ResolvedRetry) (t : Tick)
    → Quiet (retry_or_fail a e n r t) t
unfolding retry_or_fail
retry_or_fail-Quiet a e n r t =
    if_Quiet (below_max n (max_attempts a e r)) _ _ t (schedule_retry-Quiet a e n r t)
      (fail_step_quiet a _ n t)

with_policy-Quiet :
    (a : Attempt) (e : Thrown) (n : ℕ) (p : Result ResolvedRetry) (t : Tick)
    → Quiet (with_policy a e n p t) t
unfolding with_policy
with_policy-Quiet a e n (ok r) t = retry_or_fail-Quiet a e n r t
with_policy-Quiet a e n (throws x) t = refl
with_policy-Quiet a e n out_of_fuel t = refl

handle_step_error-Quiet :
    (a : Attempt) (e : Thrown) (n : ℕ) (t : Tick) → Quiet (handle_step_error a e n t) t
unfolding handle_step_error
handle_step_error-Quiet a e n t =
    if_Quiet (is_yield e || is_cancelled e) _ _ t refl
      (if_Quiet (is_non_retryable e) _ _ t (fail_step_quiet a _ n t) (with_policy-Quiet a e n _ t))

after_failure-Quiet :
    (a : Attempt) (n : ℕ) (again : Action Value) (e : Thrown) (t : Tick)
    → a.deps.mode ≡ normal
    → Quiet (after_failure a n again e t) t
unfolding after_failure
after_failure-Quiet a n again e t m =
    resume-Quiet _ _ _ t (handle_step_error-Quiet a e n t)
      (λ d r. absurd (normal_ne_settle (sym m ∙ (handle_step_error-ok a e n t r).0)))
  where
    normal_ne_settle : ¬ (normal ≡ settle)
    normal_ne_settle q = cc

pub end_round-Quiet :
    (a : Attempt) (n : ℕ) (again : Action Value) (o : Outcome) (t : Tick)
    → a.deps.mode ≡ normal
    → Quiet (end_round a n again (end_of o) t) t
unfolding end_round checkpoint save
end_round-Quiet a n again (returned v) t m =
    (register_rollback-ReadOnly a.key a.seq (clone_value v) v a.options
      (save a (completed_state a n v t) t)).1
end_round-Quiet a n again (raised e) t m = after_failure-Quiet a n again e t m

-- At most one body is run, that of the step `key`.
abbrev pub OneBody {ℓ} : {A : Type ℓ} → String → Result A × Tick → Tick → Type 0
OneBody key x t = (x.1.invoked ≡ t.invoked) ⊎ (n : ℕ) × (x.1.invoked ≡ (key, n) ∷ t.invoked)

attempt_loop-OneBody :
    (a : Attempt) (fn : Body) (fuel n : ℕ) (t : Tick)
    → a.deps.mode ≡ normal
    → OneBody a.key (attempt_loop a fn fuel n t) t
unfolding attempt_loop attempt_round run_body
attempt_loop-OneBody a fn zero n t m = inl refl
attempt_loop-OneBody a fn (suc fuel) n t m = inr (n, end_round-Quiet a n _ (fn n).outcome _ m)

wait_or_yield-Quiet :
    (m : RunMode) (k : WaitKind) (d : ℕ) (reason : String) (t : Tick)
    → Quiet (wait_or_yield m k d reason t) t
unfolding wait_or_yield yield_to_bullmq
wait_or_yield-Quiet settle sleep d reason t = refl
wait_or_yield-Quiet settle backoff d reason t = refl
wait_or_yield-Quiet normal k d reason t = refl

await_backoff-Quiet :
    (d : Deps) (key : String) (at : Option ℕ) (t : Tick) → Quiet (await_backoff d key at t) t
unfolding await_backoff
await_backoff-Quiet d key none t = refl
await_backoff-Quiet d key (some at) t =
    if_Quiet (ltb t.now at) _ _ t (wait_or_yield-Quiet d.mode backoff _ _ t) refl

begin_by_status-Quiet :
    (d : Deps) (key : String) (o : StepOptions) (st : StepState) (x : StepStatus) (t : Tick)
    → Quiet (begin_by_status d key o st x t) t
unfolding begin_by_status take_over save_running save
begin_by_status-Quiet d key o st completed t =
    (register_rollback-ReadOnly key (or_else st.seq 0) st.result st.result o t).1
begin_by_status-Quiet d key o st failed t = refl
begin_by_status-Quiet d key o st _ t =
    resume-Quiet _ _ _ t (await_backoff-Quiet d key st.next_run_at t)
      (λ w e. await_backoff-Quiet d key st.next_run_at t)

begin_from-Quiet :
    (d : Deps) (key : String) (o : StepOptions) (b : BeginStepResult) (t : Tick)
    → Quiet (begin_from d key o b t) t
unfolding begin_from
begin_from-Quiet d key o missing t = refl
begin_from-Quiet d key o cancelled t = refl
begin_from-Quiet d key o (created seq) t = refl
begin_from-Quiet d key o (existing st) t = begin_by_status-Quiet d key o st st.status t

run_from-OneBody :
    (d : Deps) (key : String) (o : StepOptions) (fn : Body) (b : WritableBegin) (t : Tick)
    → d.mode ≡ normal
    → OneBody key (run_from d key o fn b t) t
unfolding run_from
run_from-OneBody d key o fn (replayed v) t m = inl refl
run_from-OneBody d key o fn (attempt n seq s) t m =
    attempt_loop-OneBody (attempt_of d key o seq s) fn (attempt_fuel d o) n t m

OneBody-resume {κ} :
    {B : Type κ} (key : String) (r : Result WritableBegin) (f : WritableBegin → Action B)
    (u t : Tick)
    → u.invoked ≡ t.invoked
    → ((b : WritableBegin) → OneBody key (f b u) u)
    → OneBody key (resume r f u) t
unfolding resume
OneBody-resume key (ok b) f u t h k = elim (k b) [
  | inl e ↦ inl (e ∙ h)
  | inr (n, e) ↦ inr (n, e ∙ ap (λ rest. (key, n) ∷ rest) h)
]
OneBody-resume key (throws e) f u t h k = inl h
OneBody-resume key out_of_fuel f u t h k = inl h

OneBody-if {ℓ} :
    {A : Type ℓ} (key : String) (b : Bool) (x y : Result A × Tick) (t : Tick)
    → OneBody key x t
    → OneBody key y t
    → OneBody key (if b then x else y) t
OneBody-if key true x y t h k = h
OneBody-if key false x y t h k = k

-- In normal mode a call of `ctx.step` runs at most one body, once, and that of its own step.
pub execute-OneBody :
    (d : Deps) (key : String) (o : StepOptions) (fn : Body) (t : Tick)
    → d.mode ≡ normal
    → OneBody key (execute d key o fn t) t
unfolding execute execute_writable_step replay_settlement_main_step begin_or_replay
execute-OneBody d key o fn t m =
    OneBody-if key (is_settlement_main_replay d t) _ _ t (inl (replay_from-ReadOnly key o _ t).1) (
      OneBody-resume key _ _ _ t (begin_from-Quiet d key o _ _)
        (λ b. run_from-OneBody d key o fn b _ m))
