-- ===== src/Tests/Locks.antt =====
-- The theorems on locks and settling calls at concrete inputs.
use bullmq_durable.Tests.{holds, live, store, w1_ne_w2, w2_full}
use bullmq_durable.Store.Mutex.{
  LockCall, NoneGranted, acquire_lock_excludes, acquires, releases, renews, run_calls,
}
use bullmq_durable.Store.Locks.{acquire_lock}
use bullmq_durable.Store.Instances.{held_by_other}
use bullmq_durable.Store.Fence.{
  settle_call, cancels, completes, get_status, get_status-settle_call, settle_call-Holds,
}
use bullmq_durable.Base.{List, arith, ℕ, refl, some, [], ◌∷◌, true, false, ◌≡◌, ◌≢◌, String, eq_iff}
use bullmq_durable.Value.{num}
use bullmq_durable.Types.{InstanceStatus}
use bullmq_durable.Base.Dict.{lookup}

abbrev rivals : List (ℕ × LockCall)
rivals = (20, acquires "w2" 50) ∷ (30, releases "w2") ∷ (90, renews "w2" 10) ∷ []

w1_granted : (acquire_lock "i" "w1" 100 10 store).0 ≡ true
unfolding acquire_lock held_by_other lookup
w1_granted = refl

acquire_lock_excludes_example :
    NoneGranted (run_calls "i" rivals (acquire_lock "i" "w1" 100 10 store).1).0
    × ((run_calls "i" rivals (acquire_lock "i" "w1" 100 10 store).1).1
        ≡ (acquire_lock "i" "w1" 100 10 store).1)
acquire_lock_excludes_example =
    acquire_lock_excludes "i" "w1" 100 10 store rivals w1_granted
      ((w1_ne_w2, omega arith), ((w1_ne_w2, omega arith), ((w1_ne_w2, omega arith), tt)))

settle_call-Holds_example :
    settle_call (completes (num 7)) "i" (some "w2") 10 store ≡ (false, store)
settle_call-Holds_example =
    settle_call-Holds (completes (num 7)) "i" "w1" "w2" 10 store holds w1_ne_w2 w2_full

i_known : lookup "i" store.records ≡ some live
unfolding lookup
i_known = refl

i_ne_z : ◌≢◌ {A = String} "i" "z"
i_ne_z e = let same : false ≡ true = (eq_iff "i" "z").1 e in cc

get_status-settle_call_example :
    ((settle_call cancels "i" (some "w1") 10 store).0 ≡ true)
    × (get_status "i" (settle_call cancels "i" (some "w1") 10 store).1
        ≡ some InstanceStatus.cancelled)
    × (lookup "z" (settle_call cancels "i" (some "w1") 10 store).1.records
        ≡ lookup "z" store.records)
get_status-settle_call_example =
    get_status-settle_call cancels "i" "w1" "z" 10 store live holds i_known i_ne_z
