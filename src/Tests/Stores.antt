-- ===== src/Tests/Stores.antt =====
-- The two stores at a run of one step.
use bullmq_durable.Redis.Indexed.{is_indexed}
use bullmq_durable.Redis.Complete.{redis_index_complete}
use bullmq_durable.Base.{true, ℕ, ◌≡◌, refl, List, [], ◌∷◌, some, none, inl, arith}
use bullmq_durable.Base.Dict.{lookup, insert}
use bullmq_durable.Value.{num}
use bullmq_durable.Types.{main, step}
use bullmq_durable.Store.{empty}
use bullmq_durable.Store.Instances.{InitInstanceInput, fresh_instance}
use bullmq_durable.Store.Steps.{BeginStepInit, begin_record, begin_absent, add_step}
use bullmq_durable.Redis.{no_keys}
use bullmq_durable.Redis.Interface.{memory_state_store, redis_state_store}
use bullmq_durable.Redis.Calls.{
  StoreCall, store_call, store_calls, inits, gets, completes, begins_step, gets_step, saves_step,
  acquires, releases,
}
use bullmq_durable.Redis.Refines.{redis_refines_memory}
use bullmq_durable.Tests.{waiting}
use bullmq_durable.Store.Instances
use bullmq_durable.Store.Steps
use bullmq_durable.Store.Locks

abbrev pub first_input : InitInstanceInput
first_input = record {
  instance_id = "i";
  queue_name = "q";
  job_name = "order";
  job_id = "1";
  input = num 3;
}

abbrev first_step : BeginStepInit
first_step = record { key = "b"; type = step; phase = main; now = 4; next_run_at = none }

abbrev one_step : List (ℕ × StoreCall)
one_step =
    (2, inits first_input)
    ∷ (3, acquires "i" "t" 100)
    ∷ (4, begins_step "i" "b" first_step)
    ∷ (5, saves_step "i" "b" waiting)
    ∷ (6, gets_step "i" "b")
    ∷ (7, completes "i" (num 9) (some "t"))
    ∷ (8, releases "i" "t")
    ∷ (9, gets "i")
    ∷ []

redis_refines_memory_example :
    (store_calls redis_state_store one_step no_keys).0
    ≡ (store_calls memory_state_store one_step empty).0
unfolding store_call memory_state_store Instances.init_instance fresh_instance lookup insert empty
    Locks.acquire_lock Steps.begin_step begin_record begin_absent add_step
redis_refines_memory_example = redis_refines_memory one_step (
  omega arith,
  (
    tt,
    (
      omega arith,
      (
        omega arith,
        (
          omega arith,
          (
            tt,
            (
              omega arith,
              (
                (_, refl),
                (
                  omega arith,
                  (
                    tt,
                    (
                      omega arith,
                      ((λ r known. inl (λ e. cc)), (omega arith, (tt, (omega arith, (tt, tt))))),
                    ),
                  ),
                ),
              ),
            ),
          ),
        ),
      ),
    ),
  ),
)

redis_index_complete_example :
    is_indexed "i" (store_calls redis_state_store one_step no_keys).1 ≡ true
redis_index_complete_example = redis_index_complete one_step "i"
