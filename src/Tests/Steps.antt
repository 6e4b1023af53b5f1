-- ===== src/Tests/Steps.antt =====
-- The theorems on `ctx.step` and `ctx.sleep` at concrete inputs.
use bullmq_durable.Tests.{
  waiting, asleep, b_Has, broken, c_Has, deps, f_Has, failing, later, no_options, settling, seven,
  tick,
}
use bullmq_durable.Store.Steps.{add_step, begin_absent, begin_record, begin_step, save_step}
use bullmq_durable.Retry.{first_duration, normalize_backoff, resolve_retry}
use bullmq_durable.Result.{Ends, ok}
use bullmq_durable.Phase.{storage_key_for_phase}
use bullmq_durable.Executor.Sleep.{sleep_for}
use bullmq_durable.Executor.Checkpoint.{Keeps}
use bullmq_durable.Executor.Keeps.{execute-Keeps}
use bullmq_durable.Executor.Replay.{Replayed, execute-execute}
use bullmq_durable.Executor.Invoked.{OneBody, ReadOnly, execute-OneBody, settlement-ReadOnly}
use bullmq_durable.Executor.Fuel.{execute-Ends}
use bullmq_durable.Executor.Failed.{Refails, execute-Refails}
use bullmq_durable.Executor.Early.{Suspends, execute_early, sleep_for_early}
use bullmq_durable.Executor.Due.{Runs, Woken, execute_due, sleep_for_due}
use bullmq_durable.Executor.Attempt.{
  attempt_loop, attempt_round, checkpoint, end_round, register_rollback, save,
}
use bullmq_durable.Store.{update_record, InstanceRecord}
use bullmq_durable.Base.{arith, refl, some, false, ◌≡◌}
use bullmq_durable.Value.{clone_value, num}
use bullmq_durable.Types.{is_cancelled_status}
use bullmq_durable.Executor.Step.{
  begin_from, begin_or_replay, execute_writable_step, run_from, step_init, execute,
}
use bullmq_durable.Executor.{resume, run_body, Tick}
use bullmq_durable.Base.Dict.{lookup, insert}

-- The tick after a first run of the step `n`.
abbrev after_n : Tick
after_n = (execute deps "n" no_options seven tick).1

n_ok : (execute deps "n" no_options seven tick).0 ≡ ok (num 7)
unfolding lookup insert execute execute_writable_step begin_or_replay begin_step begin_record
    begin_absent begin_from resume run_from attempt_loop attempt_round run_body end_round
    clone_value storage_key_for_phase step_init resolve_retry normalize_backoff first_duration
n_ok = refl

n_known :
    (r : InstanceRecord) × (lookup "i" after_n.store.records ≡ some r)
    × (is_cancelled_status r.instance.status ≡ false)
unfolding lookup insert execute execute_writable_step begin_or_replay begin_step begin_record
    begin_absent begin_from resume run_from attempt_loop attempt_round run_body end_round
    clone_value storage_key_for_phase step_init checkpoint save save_step update_record add_step
    register_rollback resolve_retry normalize_backoff first_duration
n_known = (_, refl, refl)

execute-execute_example : Replayed (execute settling "n" no_options failing after_n) (num 7) after_n
execute-execute_example =
    execute-execute deps settling "n" no_options no_options seven failing tick after_n (num 7)
      n_known.0 n_known.0 n_ok refl n_known.1 n_known.1 refl n_known.2

execute-Keeps_example : Keeps "i" "n" (num 7) after_n
execute-Keeps_example = execute-Keeps deps "n" no_options seven tick (num 7) n_ok

execute-Refails_example : Refails (execute deps "f" no_options seven tick) "f" broken tick
unfolding storage_key_for_phase
execute-Refails_example = execute-Refails deps "f" no_options seven tick broken f_Has refl

execute-Ends_example : Ends (execute settling "n" no_options failing tick).0
execute-Ends_example = execute-Ends settling "n" no_options failing tick

execute-OneBody_example : OneBody "n" (execute deps "n" no_options failing tick) tick
execute-OneBody_example = execute-OneBody deps "n" no_options failing tick refl

settlement-ReadOnly_example :
    ReadOnly (execute settling "b" no_options seven tick) tick
    × ReadOnly (sleep_for settling "b" 5 tick) tick
settlement-ReadOnly_example = settlement-ReadOnly settling "b" no_options seven 5 tick refl refl

execute_early_example : Suspends (execute deps "b" no_options seven tick) tick 40
unfolding storage_key_for_phase
execute_early_example =
    execute_early deps "b" no_options seven tick waiting 50 refl b_Has refl refl (omega arith)

sleep_for_early_example : Suspends (sleep_for deps "c" 45 tick) tick 40
unfolding storage_key_for_phase
sleep_for_early_example =
    sleep_for_early deps "c" 45 tick asleep 50 refl c_Has refl refl (omega arith)

execute_due_example : Runs "b" 2 (execute deps "b" no_options seven later) later
unfolding storage_key_for_phase
execute_due_example =
    execute_due deps "b" no_options seven later waiting 50 refl b_Has refl refl (omega arith)

sleep_for_due_example : Woken "i" "c" asleep (sleep_for deps "c" 45 later) later
unfolding storage_key_for_phase
sleep_for_due_example = sleep_for_due deps "c" 45 later asleep 50 refl c_Has refl refl (omega arith)
