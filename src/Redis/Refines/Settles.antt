-- ===== src/Redis/Refines/Settles.antt =====
-- The terminal transitions of the two stores: `TERMINAL_SCRIPT` against `terminalTransition`.
use bullmq_durable.Base.{
  ℕ, String, Option, none, some, ◌≡◌, refl, inl, inr, false, Bool-cases, ltb, ◌≢◌, ◌⊎◌, ◌&&◌, not,
  ◌=s=◌,
}
use bullmq_durable.Base.Dict.{lookup}
use bullmq_durable.Value.{Value, undefined}
use bullmq_durable.Errors.{Thrown, serialize_error}
use bullmq_durable.Types.{InstanceState, InstanceStatus}
use bullmq_durable.Store.{Store, InstanceRecord, LockRecord}
use bullmq_durable.Store.Instances.{fenced_out, held_by_other}
use bullmq_durable.Redis.{Redis, Hash, live, add_done, remove_active, remove_legacy_active}
use bullmq_durable.Redis.Fields.{hset}
use bullmq_durable.Redis.Lifecycle.{
  fenced, other_token, index_terminal, terminal_script, put_hash, fail_as,
}
use bullmq_durable.Redis.Matches.{Matches, Represents}
use bullmq_durable.Redis.Represents.{Represents-completed, Represents-failed, Represents-cancelled}
use bullmq_durable.Redis.Refines.Known.{
  Simulates, SameData, SameData-refl, Matches-SameData, Matches-put_hash, Matches-cases,
}
use bullmq_durable.Store.Instances
use bullmq_durable.Redis.Lifecycle

other_token-live :
    (id token : String) (now : ℕ) (s : Store)
    → other_token token (live now (lookup id s.locks)) ≡ held_by_other id token now s
unfolding held_by_other live
other_token-live id token now s = found (lookup id s.locks)
  where
    found :
        (o : Option LockRecord)
        → other_token token (live now o)
          ≡ elim o [ none ↦ false | some l ↦ ltb now l.expires_at && not (l.token =s= token) ]
    found none = refl
    found (some l) = elim (Bool-cases (ltb now l.expires_at)) [
      | inl e ↦ rw (e) refl
      | inr e ↦ rw (e) refl
    ]

fenced-fenced_out :
    (id : String) (token : Option String) (now : ℕ) (r : Redis) (s : Store)
    → Matches now r s
    → fenced id token now r ≡ fenced_out id token now s
unfolding fenced fenced_out
fenced-fenced_out id none now r s m = refl
fenced-fenced_out id (some token) now r s m = rw (m.locked id, other_token-live id token now s) refl

pub index_terminal-SameData :
    (id : String) (status : InstanceStatus) (q : Option String) (score : ℕ) (r : Redis)
    → SameData r (index_terminal id status q score r)
unfolding index_terminal add_done remove_active remove_legacy_active
index_terminal-SameData id status none score r = SameData-refl r
index_terminal-SameData id status (some q) score r = record {
  instances = refl;
  steps = refl;
  locks = refl;
}

-- A write of the terminal fields that reads as `apply` simulates it.
terminal_script-Simulates :
    (id : String) (token : Option String) (status : InstanceStatus) (fields : Hash)
    (apply : InstanceState → InstanceState) (now : ℕ) (r : Redis) (s : Store)
    → Matches now r s
    → ((h : Hash) (o : InstanceRecord)
        → lookup id s.records ≡ some o
        → Represents h o.instance
        → Represents (hset fields h) (apply o.instance))
    → Simulates now
        (terminal_script id now token status fields now r)
        (Instances.terminal_transition id token apply now s)
unfolding terminal_script Instances.terminal_transition
terminal_script-Simulates id token status fields apply now r s m writes =
    elim (Matches-cases now id r s m) [
      | inl u ↦
          rw (u.no_hash, terminal_script, u.no_record, Instances.terminal_transition) (refl, m)
      | inr k ↦
          rw
            (
              k.in_redis,
              terminal_script,
              k.in_memory,
              Instances.terminal_transition,
              fenced-fenced_out id token now r s m,
            )
            (elim (Bool-cases (fenced_out id token now s)) [
              | inl e ↦ rw (e) (refl, m)
              | inr e ↦ rw (e) (
                refl,
                Matches-SameData now _ _ _ (index_terminal-SameData id status _ now _) (
                    Matches-put_hash now id r s _ _ m (writes k.hash k.owner k.in_memory k.reads)
                      k.same_steps),
              )
            ])
    ]

pub complete_instance-Simulates :
    (id : String) (output : Value) (token : Option String) (now : ℕ) (r : Redis) (s : Store)
    → Matches now r s
    → ((o : InstanceRecord)
        → lookup id s.records ≡ some o
        → (output ≢ undefined) ⊎ (o.instance.output ≡ undefined))
    → Simulates now
        (Lifecycle.complete_instance id output token now r)
        (Instances.complete_instance id output token now s)
unfolding Lifecycle.complete_instance Instances.complete_instance Lifecycle.terminal_transition
complete_instance-Simulates id output token now r s m void =
    terminal_script-Simulates id token _ _ _ now r s m
      (λ h o known e. Represents-completed _ output now h o.instance e (void o known))

pub fail_instance-Simulates :
    (id : String) (e : Thrown) (token : Option String) (now : ℕ) (r : Redis) (s : Store)
    → Matches now r s
    → Simulates now
        (Lifecycle.fail_instance id e token now r)
        (Instances.fail_instance id e token now s)
unfolding Lifecycle.fail_instance fail_as Instances.fail_instance Lifecycle.terminal_transition
fail_instance-Simulates id err token now r s m =
    terminal_script-Simulates id token _ _ _ now r s m
      (λ h o known e. Represents-failed _ (serialize_error err) now h o.instance e)

pub compensation_failed_instance-Simulates :
    (id : String) (e : Thrown) (token : Option String) (now : ℕ) (r : Redis) (s : Store)
    → Matches now r s
    → Simulates now
        (Lifecycle.compensation_failed_instance id e token now r)
        (Instances.compensation_failed_instance id e token now s)
unfolding Lifecycle.compensation_failed_instance fail_as Instances.compensation_failed_instance
    Lifecycle.terminal_transition
compensation_failed_instance-Simulates id err token now r s m =
    terminal_script-Simulates id token _ _ _ now r s m
      (λ h o known e. Represents-failed _ (serialize_error err) now h o.instance e)

pub cancel_instance-Simulates :
    (id : String) (token : Option String) (now : ℕ) (r : Redis) (s : Store)
    → Matches now r s
    → Simulates now
        (Lifecycle.cancel_instance id token now r)
        (Instances.cancel_instance id token now s)
unfolding Lifecycle.cancel_instance Instances.cancel_instance Lifecycle.terminal_transition
cancel_instance-Simulates id token now r s m =
    terminal_script-Simulates id token _ _ _ now r s m
      (λ h o known e. Represents-cancelled _ now h o.instance e)
